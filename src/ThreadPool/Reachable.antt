-- ===== src/ThreadPool/Reachable.antt =====
-- The invariant at the start, and so in every state that the threads can reach.
use cloud_backup_system.Common.{
  ℕ, zero, suc, ◌+◌, ◌-◌, ◌<◌, ◌≡◌, refl, ap₂, true, Option, none, List, [], ◌∷◌, arith, replicate,
  length-replicate,
}
use cloud_backup_system.ThreadPool.{
  Place, admitted, stored, claiming, taken, running, is_initial, all_initial, System, Reach, start,
  later, init, slot,
}
use cloud_backup_system.ThreadPool.Slots.{slots, next}
use cloud_backup_system.ThreadPool.Counts.{holds, has_stored, has_taken, total, total-initial}
use cloud_backup_system.ThreadPool.Inv.{Inv, is_solid, all_solid, Step-Inv}

module _ {ℓ} {A : Type ℓ} where
  has_stored-initial : (x : Place A) → is_initial x ≡ true → has_stored x ≡ 0
  has_stored-initial stored h = cc
  has_stored-initial claiming h = cc
  has_stored-initial _ h = refl

  holds-initial : (x : Place A) → is_initial x ≡ true → holds x ≡ 0
  holds-initial (admitted t) h = cc
  holds-initial _ h = refl

  has_taken-initial : (x : Place A) → is_initial x ≡ true → has_taken x ≡ 0
  has_taken-initial (taken t) h = cc
  has_taken-initial _ h = refl

  is_solid-initial : (x : Place A) → is_initial x ≡ true → is_solid x ≡ true
  is_solid-initial (taken t) h = cc
  is_solid-initial (running t) h = cc
  is_solid-initial _ h = refl

  solid-initial : (xs : List (Place A)) → all_initial xs ≡ true → all_solid xs ≡ true
  solid-initial [] h = refl
  solid-initial (x ∷ xs) h = ground (arith, is_solid-initial x, solid-initial xs)

slot-replicate {ℓ} : {A : Type ℓ} (k i : ℕ) → slot (replicate {A = Option A} k none) i ≡ none
slot-replicate zero i = refl
slot-replicate (suc k) zero = refl
slot-replicate (suc k) (suc i) = slot-replicate k i

slots-replicate {ℓ} :
    {A : Type ℓ} (k size i n : ℕ)
    → slots (replicate {A = Option A} k none) size i n ≡ replicate n none
slots-replicate k size i zero = refl
slots-replicate k size i (suc n) =
    ap₂ ◌∷◌ (slot-replicate k i) (slots-replicate k size (next size i) n)

init-Inv {ℓ} :
    {A : Type ℓ} (size : ℕ) (threads : List (Place A))
    → 0 < size
    → all_initial threads ≡ true
    → Inv size (record { pool = init size; threads = threads; pushed = []; popped = [] })
unfolding init
init-Inv {A} size threads pos initial =
    let none_stored = total-initial has_stored threads (λ x h. has_stored-initial x h) initial in
    let none_held = total-initial holds threads (λ x h. holds-initial x h) initial in
    let none_taken = total-initial has_taken threads (λ x h. has_taken-initial x h) initial in
    let empty : total has_stored threads + 0 ≡ 0 = omega (arith, none_stored) in
    record {
      sized = refl;
      ring = rw empty (record {
        sized = length-replicate size none;
        fits = omega arith;
        in_bounds = pos;
        productor = ground arith;
        cleared = slots-replicate size size 0 (size - 0);
      });
      permits = omega (arith, none_held, empty, none_taken);
      order = rw empty;
      full = refl;
      solid = solid-initial threads initial;
    }

-- So it holds in every state that the threads can reach.
pub Reach-Inv {ℓ} :
    {A : Type ℓ} {size : ℕ} {threads : List (Place A)} {s : System A}
    → 0 < size
    → all_initial threads ≡ true
    → Reach size threads s
    → Inv size s
Reach-Inv {size} {threads} pos initial start = init-Inv size threads pos initial
Reach-Inv pos initial (later r st) = Step-Inv st (Reach-Inv pos initial r)
