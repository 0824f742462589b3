-- ===== src/Daemon/NonBlock.antt =====
-- util.hpp, SetNonBlock: the flags behind it.
use cloud_backup_system.Common.{
  ℕ, ◌/◌, ◌%◌, ◌*◌, ◌≡◌, refl, sym, ◌∙◌, true, some, arith, inl, inr, Option-cases, Bool-cases,
  ◌==◌, ==_iff,
}
use cloud_backup_system.System.{System, o_nonblock, or_bit}
use cloud_backup_system.System.NetLaws.{Net, NetLaws, with_flags}
use cloud_backup_system.Daemon.{set_non_block}

-- The flags `new` are `old` with O_NONBLOCK: the bits below it and above it are the same.
pub record IsNonBlocking (old new : ℕ) : Type 0 where
  pub set : (new / o_nonblock) % 2 ≡ 1
  pub below : new % o_nonblock ≡ old % o_nonblock
  pub above : new / (2 * o_nonblock) ≡ old / (2 * o_nonblock)

or_bit-IsNonBlocking : (n : ℕ) → IsNonBlocking n (or_bit o_nonblock n)
or_bit-IsNonBlocking n = elim (Bool-cases ((n / o_nonblock) % 2 == 1)) [
  | inl e ↦ rw e (record { set = (==_iff ((n / 2048) % 2) 1).0 e; below = refl; above = refl })
  | inr e ↦ rw e (record { set = grind arith; below = omega arith; above = grind arith })
]

-- Every descriptor of the open file of `fd` has its flags with O_NONBLOCK, and nothing else changes.
pub record IsFlagged (fd : ℕ) (before after : Net) : Type 0 where
  pub old : ℕ
  pub new : ℕ
  pub was : before.flags fd ≡ some old
  pub bits : IsNonBlocking old new
  pub now : after ≡ with_flags fd new before

module _ (sys : System) (laws : NetLaws sys) where
  open laws use {net}

  -- If SetNonBlock works, every descriptor of the open file has the flags that it had with
  -- O_NONBLOCK, and no other bit of them is changed; nothing else is.
  pub set_non_block-IsFlagged :
      (fd : ℕ) (w v : sys.World) → set_non_block sys fd w ≡ (true, v) → IsFlagged fd (net w) (net v)
  unfolding set_non_block
  set_non_block-IsFlagged fd w v h = elim (Option-cases (sys.get_flags fd w)) [
    | inl e ↦ absurd (ground (arith, h, e))
    | inr (flag, e) ↦
        let got : (net w).flags fd ≡ some flag = sym (laws.flags_got fd w) ∙ e in
        let worked : sys.set_flags fd (or_bit o_nonblock flag) w ≡ (true, v) =
          ground (arith, h, e) in
        record {
          old = flag;
          new = or_bit o_nonblock flag;
          was = got;
          bits = or_bit-IsNonBlocking flag;
          now = laws.flags_set fd flag w v got worked;
        }
  ]
