-- ===== src/Upload/Find.antt =====
-- Where a text is found, and the lengths of what is cut off.
use cloud_backup_system.Common.{
  ℕ, zero, suc, ◌+◌, ◌-◌, ◌≤◌, ◌≡◌, true, some, List, [], ◌∷◌, arith, Bytes, length, take, drop,
  inl, inr, Bool-cases, Option-cases,
}
use cloud_backup_system.Upload.{find, is_prefix}

pub length-drop {ℓ} : {A : Type ℓ} (n : ℕ) (xs : List A) → length (drop n xs) ≡ length xs - n
length-drop zero xs = omega arith
length-drop (suc n) [] = omega arith
length-drop (suc n) (x ∷ xs) = omega (arith, length-drop n xs)

pub length-take {ℓ} : {A : Type ℓ} (n : ℕ) (xs : List A) → n ≤ length xs → length (take n xs) ≡ n
length-take zero xs h = omega arith
length-take (suc n) [] h = absurd (omega arith)
length-take (suc n) (x ∷ xs) h = omega (arith, length-take n xs (omega arith))

pub is_prefix-length : (n s : Bytes) → is_prefix n s ≡ true → length n ≤ length s
is_prefix-length [] s h = omega arith
is_prefix-length (c ∷ n) [] h = cc
is_prefix-length (c ∷ n) (d ∷ s) h = ground (arith, is_prefix-length n s)

-- What is found lies inside.
pub find_within : (n s : Bytes) (i : ℕ) → find n s ≡ some i → i + length n ≤ length s
unfolding find
find_within n [] i h = ground (arith, is_prefix-length n [])
find_within n (c ∷ s) i h = elim (Bool-cases (is_prefix n (c ∷ s))) [
  | inl p ↦ ground (arith, is_prefix-length n (c ∷ s))
  | inr p ↦ elim (Option-cases (find n s)) [
    | inl e ↦ absurd (ground arith)
    | inr (j, e) ↦ ground (arith, find_within n s j e)
  ]
]
