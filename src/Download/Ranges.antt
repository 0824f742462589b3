-- ===== src/Download/Ranges.antt =====
-- HTTPconnection.hpp, lines 465 to 472: the reading of the header Range.
use cloud_backup_system.Common.{
  lacks, lacks-to_string, ℕ, zero, suc, ◌+◌, ◌^◌, ◌<◌, ◌≡◌, refl, true, false, none, some, [], ◌∷◌,
  ◌++◌, arith, Bytes, bytes, ℤ, pos, is_negative, ◌+ℤ◌, ltb_ℤ, min_ℤ, take, drop, length, to_string,
  stoll, Option-cases, inl, inr, take-append, skip_spaces, signed, append-nil, stoll-to_string,
}
use cloud_backup_system.Upload.{find}
use cloud_backup_system.Download.{requested_range, range_parts, long_long, range_end}

-- The place of a byte of which there is no earlier one.
find_byte :
    (b : ℕ) (s rest : Bytes) → lacks b s ≡ true → find (b ∷ []) (s ++ b ∷ rest) ≡ some (length s)
unfolding find
find_byte b [] rest h = ground arith
find_byte b (c ∷ s) rest h = ground (arith, find_byte b s rest)

drop_past : (b : ℕ) (s rest : Bytes) → drop (length s + 1) (s ++ b ∷ rest) ≡ rest
drop_past b [] rest = refl
drop_past b (c ∷ s) rest = ground (arith, drop_past b s rest)

range_parts-to_string :
    (a : ℕ) (rest : Bytes) → range_parts (to_string a ++ 45 ∷ rest) ≡ (to_string a, rest)
range_parts-to_string a rest =
    let at = find_byte 45 (to_string a) rest (lacks-to_string 45 a refl) in
    ground (arith, at, take-append (to_string a) (45 ∷ rest), drop_past 45 (to_string a) rest)

stoll_print : (a : ℕ) → a < 2 ^ 63 → stoll (to_string a) ≡ some (pos a)
stoll_print a h = rw (append-nil (to_string a)) at (stoll-to_string a [] refl h)

range_end_number :
    (s : Bytes) (last : ℕ) (size : ℤ)
    → last + 1 < 2 ^ 63
    → stoll s ≡ some (pos last)
    → range_end s size ≡ some (min_ℤ (pos (last + 1)) size)
unfolding stoll skip_spaces
range_end_number [] last size l h = absurd (ground arith)
range_end_number (c ∷ s) last size l h =
    let fits : long_long (pos last +ℤ pos 1) ≡ some (pos (last + 1)) = ground arith in
    rw (h, fits) refl

-- For numbers in decimal, `a` below 2 ^ 63 and `b` below 2 ^ 63 - 1, the text `a-` names the part of a
-- file from `a` on, and the text `a-b` the part from `a` up to and with `b`, cut at the size of the
-- file.
pub requested_range-to_string :
    (a b : ℕ) (size : ℤ)
    → a < 2 ^ 63
    → b + 1 < 2 ^ 63
    → (requested_range (to_string a ++ 45 ∷ []) size ≡ some (pos a, size))
      × (requested_range (to_string a ++ 45 ∷ to_string b) size
          ≡ some (pos a, min_ℤ (pos (b + 1)) size))
unfolding requested_range
requested_range-to_string a b size h k =
    let number = range_end_number (to_string b) b size k (stoll_print b (omega arith)) in
    (
      rw (range_parts-to_string a [], stoll_print a h) refl,
      rw (range_parts-to_string a (to_string b), stoll_print a h, number) refl,
    )

lacks-find : (v : Bytes) → find (bytes "-") v ≡ none → lacks 45 v ≡ true
unfolding find
lacks-find [] h = refl
lacks-find (c ∷ v) h = ground (arith, lacks-find v)

lacks-take : (v : Bytes) (i : ℕ) → find (bytes "-") v ≡ some i → lacks 45 (take i v) ≡ true
unfolding find
lacks-take [] i h = ground arith
lacks-take (c ∷ v) zero h = refl
lacks-take (c ∷ v) (suc i) h = ground (arith, lacks-take v i)

lacks-skip_spaces : (s : Bytes) → lacks 45 s ≡ true → lacks 45 (skip_spaces s) ≡ true
unfolding skip_spaces
lacks-skip_spaces [] h = h
lacks-skip_spaces (c ∷ s) h = ground (arith, lacks-skip_spaces s)

signed-lacks :
    (limit : ℕ) (s : Bytes) (z : ℤ)
    → lacks 45 s ≡ true
    → signed limit s ≡ some z
    → is_negative z ≡ false
signed-lacks limit [] z h e = cc
signed-lacks limit (c ∷ s) z h e = ground (arith)

stoll-lacks : (s : Bytes) (z : ℤ) → lacks 45 s ≡ true → stoll s ≡ some z → is_negative z ≡ false
unfolding stoll
stoll-lacks s z h e = signed-lacks _ (skip_spaces s) z (lacks-skip_spaces s h) e

lacks-range_parts : (v : Bytes) → lacks 45 (range_parts v).0 ≡ true
lacks-range_parts v = elim (Option-cases (find (bytes "-") v)) [
  | inl e ↦ ground (arith, e, lacks-find v e)
  | inr (i, e) ↦ ground (arith, e, lacks-take v i e)
]

cut_at : (next size end : ℤ) → min_ℤ next size ≡ end → ltb_ℤ size end ≡ false
cut_at next size end h = ground (arith, h)

range_end-le : (s : Bytes) (size end : ℤ) → range_end s size ≡ some end → ltb_ℤ size end ≡ false
range_end-le [] size end h = ground arith
range_end-le (c ∷ s) size end h = elim (Option-cases (stoll (c ∷ s))) [
  | inl e ↦ absurd (ground (arith, h, e))
  | inr (last, e) ↦ elim (Option-cases (long_long (last +ℤ pos 1))) [
    | inl f ↦ absurd (ground (arith, h, e, f))
    | inr (next, f) ↦ cut_at next size end (ground (arith, h, e, f))
  ]
]

-- A range that can be read starts at no negative position, and does not end behind the file.
pub requested_range_bounds :
    (value : Bytes) (size start end : ℤ)
    → requested_range value size ≡ some (start, end)
    → (is_negative start ≡ false) × (ltb_ℤ size end ≡ false)
unfolding requested_range
requested_range_bounds value size start end h =
    let (first, rest) = range_parts value in
    elim (Option-cases (stoll (range_parts value).0)) [
      | inl e ↦ absurd (ground (arith, h, e))
      | inr (s, e) ↦ elim (Option-cases (range_end (range_parts value).1 size)) [
        | inl f ↦ absurd (ground (arith, h, e, f))
        | inr (t, f) ↦
            let both : (s ≡ start) × (t ≡ end) = ground (arith, h, e, f) in
            (
              rw (← both.0) (stoll-lacks (range_parts value).0 s (lacks-range_parts value) e),
              rw (← both.1) (range_end-le (range_parts value).1 size t f),
            )
      ]
    ]
