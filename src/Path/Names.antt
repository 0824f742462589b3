-- ===== src/Path/Names.antt =====
-- util.hpp, GetFileName and check_filename: the name in the path of a backup file.
use cloud_backup_system.Common.{
  ℕ, ◌≡◌, refl, true, false, ◌||◌, [], ◌∷◌, ◌++◌, arith, Bytes, bytes_eq, ◌∙◌,
}
use cloud_backup_system.Path.{
  slash, root, is_empty, ends_with_slash, has_slash, after_last_slash, no_forbidden, check_filename,
  get_file_name,
}

has_slash-append : (xs ys : Bytes) → has_slash (xs ++ ys) ≡ (has_slash xs || has_slash ys)
has_slash-append [] ys = refl
has_slash-append (x ∷ xs) ys = ground (arith, has_slash-append xs ys)

no_forbidden-has_slash : (s : Bytes) → no_forbidden s ≡ true → has_slash s ≡ false
no_forbidden-has_slash [] h = refl
no_forbidden-has_slash (c ∷ s) h = ground (arith, no_forbidden-has_slash s)

after_last_slash-append :
    (dir name : Bytes) → has_slash name ≡ false → after_last_slash (dir ++ slash ∷ name) ≡ name
after_last_slash-append [] name h = rw h
after_last_slash-append (c ∷ dir) name h =
    ground (arith, after_last_slash-append dir name h, has_slash-append dir (slash ∷ name))

ends_with_slash-append :
    (xs : Bytes) (c : ℕ) (ys : Bytes) → ends_with_slash (xs ++ c ∷ ys) ≡ ends_with_slash (c ∷ ys)
ends_with_slash-append [] c ys = refl
ends_with_slash-append (x ∷ []) c ys = refl
ends_with_slash-append (x ∷ y ∷ xs) c ys = ends_with_slash-append (y ∷ xs) c ys

ends_with_slash_inside : (s : Bytes) → has_slash s ≡ false → ends_with_slash s ≡ false
ends_with_slash_inside [] h = refl
ends_with_slash_inside (c ∷ []) h = ground arith
ends_with_slash_inside (c ∷ d ∷ s) h = ends_with_slash_inside (d ∷ s) (ground arith)

behind_slash :
    (dir : Bytes) (c : ℕ) (cs : Bytes)
    → has_slash (c ∷ cs) ≡ false
    → ends_with_slash (dir ++ slash ∷ c ∷ cs) ≡ false
behind_slash dir c cs h =
    ends_with_slash-append dir slash (c ∷ cs) ∙ ends_with_slash_inside (c ∷ cs) h

not_bare :
    (dir : Bytes) (c : ℕ) (cs : Bytes)
    → (is_empty (dir ++ slash ∷ c ∷ cs) || bytes_eq (dir ++ slash ∷ c ∷ cs) root) ≡ false
not_bare [] c cs = refl
not_bare (d ∷ []) c cs = ground arith
not_bare (d ∷ e ∷ dir) c cs = ground arith

name_of :
    (s name : Bytes)
    → (is_empty s || bytes_eq s root) ≡ false
    → ends_with_slash s ≡ false
    → after_last_slash s ≡ name
    → get_file_name s ≡ name
unfolding get_file_name
name_of s name bare slashed last = rw (bare, slashed) last

-- A name that check_filename accepts is what GetFileName gives of any path that ends in a slash and
-- the name.
pub get_file_name-check_filename :
    (dir name : Bytes) → check_filename name ≡ true → get_file_name (dir ++ slash ∷ name) ≡ name
unfolding get_file_name check_filename
get_file_name-check_filename dir [] ok = cc
get_file_name-check_filename dir (c ∷ cs) ok =
    let h : has_slash (c ∷ cs) ≡ false = no_forbidden-has_slash (c ∷ cs) (ground arith) in
    name_of (dir ++ slash ∷ c ∷ cs) (c ∷ cs) (not_bare dir c cs) (behind_slash dir c cs h)
      (after_last_slash-append dir (c ∷ cs) h)
