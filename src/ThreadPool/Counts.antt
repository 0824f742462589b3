-- ===== src/ThreadPool/Counts.antt =====
-- How many threads are at a place.
use cloud_backup_system.Common.{
  ℕ, zero, suc, ◌+◌, ◌≤◌, ◌≡◌, refl, some, List, [], ◌∷◌, arith, get_elem?, set, true,
}
use native.Mathlib.Decide.{dec_lt}
use cloud_backup_system.ThreadPool.{
  Place, admitted, stored, claiming, taken, is_initial, all_initial,
}

module _ {ℓ} {A : Type ℓ} where
  -- A permit of `_free_slots` is held; a task lies in the queue; the slot is empty but not given
  -- back.
  abbrev pub holds : Place A → ℕ
  holds (admitted t) = 1
  holds _ = 0

  abbrev pub has_stored : Place A → ℕ
  has_stored stored = 1
  has_stored claiming = 1
  has_stored _ = 0

  abbrev pub has_taken : Place A → ℕ
  has_taken (taken t) = 1
  has_taken _ = 0

  pub total : (Place A → ℕ) → List (Place A) → ℕ
  total w [] = 0
  total w (x ∷ xs) = w x + total w xs

  pub total-set :
      (w : Place A → ℕ) (xs : List (Place A)) (i : ℕ) (x y : Place A)
      → get_elem? xs i ≡ some x
      → total w (set xs i y) + w x ≡ total w xs + w y
  unfolding total
  total-set w [] i x y e = cc
  total-set w (z ∷ xs) zero x y e = ground arith
  total-set w (z ∷ xs) (suc i) x y e = omega (arith, total-set w xs i x y e)

  pub total-initial :
      (w : Place A → ℕ) (xs : List (Place A))
      → ((x : Place A) → is_initial x ≡ true → w x ≡ 0)
      → all_initial xs ≡ true
      → total w xs ≡ 0
  unfolding total
  total-initial w [] h a = refl
  total-initial w (x ∷ xs) h a = ground (arith, h x, total-initial w xs h)

  -- If a count is positive, some thread is there.
  pub total-pos :
      (w : Place A → ℕ) (xs : List (Place A))
      → 1 ≤ total w xs
      → (i : ℕ) × (x : Place A) × (get_elem? xs i ≡ some x) × (1 ≤ w x)
  unfolding total
  total-pos w [] h = absurd (omega arith)
  total-pos w (x ∷ xs) h = elim (dec_lt 0 (w x)) [
    | yes p ↦ (0, x, refl, p)
    | no p ↦ let (i, y, e, q) = total-pos w xs (omega arith) in (suc i, y, e, q)
  ]

  pub total-get :
      (w : Place A → ℕ) (xs : List (Place A)) (i : ℕ) (x : Place A)
      → get_elem? xs i ≡ some x
      → w x ≤ total w xs
  unfolding total
  total-get w [] i x e = cc
  total-get w (z ∷ xs) zero x e = ground arith
  total-get w (z ∷ xs) (suc i) x e = omega (arith, total-get w xs i x e)
