-- ===== src/System/NetLaws.antt =====
-- What the documentation of the calls says of descriptors, their flags, the addresses that sockets are
-- bound to, and sets of epoll.
use cloud_backup_system.Common.{
  ℕ, ℤ, Bool, true, false, Option, none, some, ◌==◌, if◌then◌else◌, ◌≡◌,
}
use cloud_backup_system.System.{System, or_bit, o_nonblock, epoll_ctl_add}
use cloud_backup_system.System.Descriptors.{put}

-- `number_at` is the number of the open file that a descriptor is of, `watched` what a set of epoll
-- waits for at a descriptor.
pub record Net : Type 0 where
  pub number_at : ℕ → Option ℕ
  pub flags : ℕ → Option ℕ
  pub watched : ℕ → ℕ → Option ℕ
  pub port : ℕ → Option ℕ
  pub listens : ℕ → Bool

abbrev pub same_number : Option ℕ → Option ℕ → Bool
same_number none o = false
same_number (some m) none = false
same_number (some m) (some n) = m == n

-- A new descriptor of a new open file.
abbrev pub with_new : ℕ → ℕ → ℕ → Net → Net
with_new fd number flag n = record n {
  number_at = put fd (some number) n.number_at;
  flags = put fd (some flag) n.flags;
  port = put fd none n.port;
  listens = put fd false n.listens;
}

-- The flags are those of the open file, so each of its descriptors has them.
abbrev pub with_flags : ℕ → ℕ → Net → Net
with_flags fd flag n = record n {
  flags = λ j. if same_number (n.number_at fd) (n.number_at j) then some flag else n.flags j;
}

abbrev pub with_watched : ℕ → ℕ → ℕ → Net → Net
with_watched ep fd events n = record n {
  watched = put ep (put fd (some events) (n.watched ep)) n.watched;
}

-- No descriptor is of this open file, and this descriptor is free.
pub record IsNew (n : Net) (fd number : ℕ) : Type 0 where
  pub free : n.number_at fd ≡ none
  pub is_new : (j : ℕ) → same_number (some number) (n.number_at j) ≡ false

pub record IsMade (n : Net) (fd : ℕ) (n' : Net) : Type 0 where
  pub number : ℕ
  pub flag : ℕ
  pub new : IsNew n fd number
  pub made : n' ≡ with_new fd number flag n

-- The descriptors of both ends of a pipe.
pub record IsPiped (n : Net) (r t : ℕ) (n' : Net) : Type 0 where
  pub read_number : ℕ
  pub read_flag : ℕ
  pub write_number : ℕ
  pub write_flag : ℕ
  pub new_read : IsNew n r read_number
  pub new_write : IsNew (with_new r read_number read_flag n) t write_number
  pub made : n' ≡ with_new t write_number write_flag (with_new r read_number read_flag n)

pub record NetLaws (sys : System) : Type 0 where
  pub net : sys.World → Net
  pub flags_got : (fd : ℕ) (w : sys.World) → sys.get_flags fd w ≡ (net w).flags fd
  -- F_SETFL sets O_NONBLOCK among the flags that F_GETFL gave.
  pub flags_set :
      (fd flag : ℕ) (w v : sys.World)
      → (net w).flags fd ≡ some flag
      → sys.set_flags fd (or_bit o_nonblock flag) w ≡ (true, v)
      → net v ≡ with_flags fd (or_bit o_nonblock flag) (net w)
  pub piped :
      (r t : ℕ) (w v : sys.World) → sys.pipe w ≡ (some (r, t), v) → IsPiped (net w) r t (net v)
  pub socket_made :
      (fd : ℕ) (w v : sys.World) → sys.socket w ≡ (some fd, v) → IsMade (net w) fd (net v)
  pub address_reused : (fd : ℕ) (w : sys.World) → net (sys.reuse_address fd w).1 ≡ net w
  pub bound :
      (fd p : ℕ) (w v : sys.World)
      → sys.bind fd p w ≡ (true, v)
      → net v ≡ record (net w) { port = put fd (some p) (net w).port }
  pub listened :
      (fd : ℕ) (size : ℤ) (w v : sys.World)
      → sys.listen fd size w ≡ (true, v)
      → net v ≡ record (net w) { listens = put fd true (net w).listens }
  pub added :
      (ep fd events : ℕ) (w v : sys.World)
      → sys.epoll_ctl ep epoll_ctl_add fd events w ≡ (true, v)
      → net v ≡ with_watched ep fd events (net w)
