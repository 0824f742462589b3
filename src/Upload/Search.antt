-- ===== src/Upload/Search.antt =====
-- What a search in a part of a text says of a search in the whole.
use cloud_backup_system.Common.{
  ℕ, zero, suc, ◌+◌, ◌-◌, ◌≤◌, ◌<◌, ◌≡◌, refl, true, none, some, List, [], ◌∷◌, ◌++◌, arith, Bytes,
  length, take, drop, inl, inr, Bool-cases, Option-cases, ap,
}
use cloud_backup_system.Upload.{find, is_prefix}
use cloud_backup_system.Upload.Find.{find_within, is_prefix-length}

module _ {ℓ} {A : Type ℓ} where
  pub drop-append_within : (k : ℕ) (s t : List A) → k ≤ length s → drop k (s ++ t) ≡ drop k s ++ t
  drop-append_within zero s t h = refl
  drop-append_within (suc k) [] t h = absurd (omega arith)
  drop-append_within (suc k) (x ∷ s) t h = drop-append_within k s t (omega arith)

  pub take-append_within : (k : ℕ) (s t : List A) → k ≤ length s → take k (s ++ t) ≡ take k s
  take-append_within zero s t h = refl
  take-append_within (suc k) [] t h = absurd (omega arith)
  take-append_within (suc k) (x ∷ s) t h = ap (◌∷◌ x) (take-append_within k s t (omega arith))

pub is_prefix-append : (n s t : Bytes) → length n ≤ length s → is_prefix n (s ++ t) ≡ is_prefix n s
is_prefix-append [] s t h = refl
is_prefix-append (c ∷ n) [] t h = absurd (omega arith)
is_prefix-append (c ∷ n) (d ∷ s) t h = rw (is_prefix-append n s t (omega arith))

pub is_prefix_self : (n t : Bytes) → is_prefix n (n ++ t) ≡ true
is_prefix_self [] t = refl
is_prefix_self (c ∷ n) t = ground (arith, is_prefix_self n t)

-- What is found in a text is found in each longer one.
pub find-append : (n s t : Bytes) (i : ℕ) → find n s ≡ some i → find n (s ++ t) ≡ some i
unfolding find
find-append [] [] [] i h = h
find-append [] [] (x ∷ t) i h = h
find-append (c ∷ n) [] t i h = cc
find-append n (c ∷ s) t i h = elim (Bool-cases (is_prefix n (c ∷ s))) [
  | inl p ↦ ground (arith, is_prefix-append n (c ∷ s) t, is_prefix-length n (c ∷ s))
  | inr p ↦ elim (Option-cases (find n s)) [
    | inl e ↦ absurd (ground arith)
    | inr (j, e) ↦
        ground (arith, is_prefix-append n (c ∷ s) t, find_within n s j e, find-append n s t j e)
  ]
]

-- What is found only with more text reaches into it.
pub find_across :
    (n s t : Bytes) (i : ℕ) → find n s ≡ none → find n (s ++ t) ≡ some i → length s < i + length n
unfolding find
find_across [] [] t i h e = cc
find_across (c ∷ n) [] t i h e = omega arith
find_across n (c ∷ s) t i h e = elim (Bool-cases (is_prefix n (c ∷ (s ++ t)))) [
  | inl p ↦ ground (arith, is_prefix-append n (c ∷ s) t)
  | inr p ↦ elim (Option-cases (find n (s ++ t))) [
    | inl f ↦ absurd (ground arith)
    | inr (j, f) ↦ ground (arith, find_across n s t j)
  ]
]

-- Cutting off what lies before.
pub find-drop :
    (n s : Bytes) (i k : ℕ) → find n s ≡ some i → k ≤ i → find n (drop k s) ≡ some (i - k)
unfolding find
find-drop n s i zero e h = ground arith
find-drop n [] i (suc k) e h = ground arith
find-drop n (c ∷ s) i (suc k) e h = elim (Option-cases (find n s)) [
  | inl f ↦ absurd (ground arith)
  | inr (j, f) ↦ ground (arith, find-drop n s j k f)
]
