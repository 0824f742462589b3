-- ===== src/ThreadPool/Slots.antt =====
-- Runs of slots round the ring.
use cloud_backup_system.Common.{
  ℕ, zero, suc, ◌+◌, ◌-◌, ◌%◌, ◌≤◌, ◌<◌, ◌≡◌, refl, ap, ap₂, Option, List, [], ◌∷◌, ◌++◌, arith,
  ◌==◌, leb, if◌then◌else◌, set, length, false, ltb,
}
use native.Mathlib.Nat.{mod-eq_of_lt, mod_self}
use native.Mathlib.Decide.{ℕ_discrete}
use cloud_backup_system.ThreadPool.{slot}

-- The index after `i`, and the number of steps from `i` to `j`.
abbrev pub next : ℕ → ℕ → ℕ
next size i = if i + 1 == size then 0 else i + 1

abbrev pub distance : ℕ → ℕ → ℕ → ℕ
distance size i j = if leb i j then j - i else j + size - i

-- The index `n` steps after `i`, for `n` up to `size`.
abbrev pub ahead : ℕ → ℕ → ℕ → ℕ
ahead size i n = if ltb (i + n) size then i + n else i + n - size

pub mod-next : (size i : ℕ) → i < size → (i + 1) % size ≡ next size i
mod-next size i h = elim (ℕ_discrete (i + 1) size) [
  | yes e ↦ rw e (ground (arith, mod_self size))
  | no ne ↦ ground (arith, mod-eq_of_lt {n = i + 1} {m = size} (omega arith))
]

module _ {ℓ} {A : Type ℓ} where
  -- The `n` slots from index `i` on.
  abbrev pub slots : List (Option A) → ℕ → ℕ → ℕ → List (Option A)
  slots q size i zero = []
  slots q size i (suc n) = slot q i ∷ slots q size (next size i) n

  slot-set_self :
      (q : List (Option A)) (i : ℕ) (v : Option A) → i < length q → slot (set q i v) i ≡ v
  slot-set_self [] i v h = absurd (omega arith)
  slot-set_self (x ∷ q) zero v h = refl
  slot-set_self (x ∷ q) (suc i) v h = slot-set_self q i v (omega arith)

  slot-set_ne :
      (q : List (Option A)) (i j : ℕ) (v : Option A)
      → (i == j) ≡ false
      → slot (set q j v) i ≡ slot q i
  slot-set_ne [] i j v h = refl
  slot-set_ne (x ∷ q) zero zero v h = cc
  slot-set_ne (x ∷ q) zero (suc j) v h = refl
  slot-set_ne (x ∷ q) (suc i) zero v h = refl
  slot-set_ne (x ∷ q) (suc i) (suc j) v h = slot-set_ne q i j v (ground arith)

  -- A write past the run leaves it.
  pub slots-set :
      (q : List (Option A)) (size i j : ℕ) (v : Option A) (n : ℕ)
      → i < size
      → j < size
      → n ≤ distance size i j
      → slots (set q j v) size i n ≡ slots q size i n
  slots-set q size i j v zero hi hj far = refl
  slots-set q size i j v (suc n) hi hj far =
      ap₂ ◌∷◌ (slot-set_ne q i j v (ground arith))
        (slots-set q size (next size i) j v n (ground arith) hj (ground arith))

  -- A write just past the run makes it longer by one.
  pub slots-append :
      (q : List (Option A)) (size i j : ℕ) (v : Option A) (n : ℕ)
      → i < size
      → n < size
      → length q ≡ size
      → j ≡ ahead size i n
      → slots (set q j v) size i (suc n) ≡ slots q size i n ++ v ∷ []
  slots-append q size i j v zero hi hn len e =
      let here : j ≡ i = ground arith in
      rw here (ap (λ t. t ∷ []) (slot-set_self q i v (omega arith)))
  slots-append q size i j v (suc n) hi hn len e =
      ap₂ ◌∷◌ (slot-set_ne q i j v (ground arith))
        (slots-append q size (next size i) j v n (ground arith) (omega arith) len (ground arith))
