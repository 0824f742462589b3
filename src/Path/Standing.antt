-- ===== src/Path/Standing.antt =====
-- util.hpp, path_transform: the texts that its loop has, and the paths that it leaves as they are.
use cloud_backup_system.Common.{
  ℕ, ◌≡◌, ◌⊎◌, refl, ◌∙◌, Bool, true, false, not, ◌&&◌, Option, some, List, [], ◌∷◌, ◌++◌, Bytes,
  bytes_eq, ◌==◌, arith, Bool-cases, inl, inr, &&-eq-true,
}
use cloud_backup_system.Path.{
  Env, slash, root, has_slash, segments, prepend, add_segment, trim, complete, expand, is_path,
  apply_segment, apply_segments, transform_from,
}
use cloud_backup_system.Path.Resolved.{
  is_name, are_names, body, dir_text, path_text, onto, segments-path_text, segments-dir_text,
  any_empty-onto, ends_with_slash-path_text, ends_with_slash-dir_text, pop_back-dir_text,
  add_segment-path_text,
}

-- A text that the loop has for some names: with a slash at its end or without.
abbrev pub Stands : Bytes → List Bytes → Type 0
Stands a ns = (a ≡ path_text ns) ⊎ (a ≡ dir_text ns)

abbrev pub no_slashes : List Bytes → Bool
no_slashes [] = true
no_slashes (s ∷ ss) = not (has_slash s) && no_slashes ss

no_slashes-prepend :
    (c : ℕ) (ss : List Bytes)
    → (c == slash) ≡ false
    → no_slashes ss ≡ true
    → no_slashes (prepend c ss) ≡ true
no_slashes-prepend c [] e h = ground (arith, e)
no_slashes-prepend c (s ∷ ss) e h = ground (arith, e, h)

pub no_slashes-segments : (s : Bytes) → no_slashes (segments s) ≡ true
no_slashes-segments [] = refl
no_slashes-segments (c ∷ s) = elim (Bool-cases (c == slash)) [
  | inl e ↦ rw e (no_slashes-segments s)
  | inr e ↦ rw e (no_slashes-prepend c (segments s) e (no_slashes-segments s))
]

not_root : (x n : Bytes) → bytes_eq (x ++ (n ++ root)) [] ≡ false
not_root [] [] = refl
not_root [] (c ∷ n) = refl
not_root (c ∷ x) n = refl

pub trim-Stands :
    (a : Bytes) (ns : List Bytes) → are_names ns ≡ true → Stands a ns → trim a ≡ path_text ns
trim-Stands a [] h (inl e) = rw e refl
trim-Stands a [] h (inr e) = rw e refl
trim-Stands a (n ∷ ns) h (inl e) = rw (e, ends_with_slash-path_text n ns h) refl
trim-Stands a (n ∷ ns) h (inr e) =
    rw (e, ends_with_slash-dir_text (n ∷ ns), not_root (body ns) n) (pop_back-dir_text n ns)

module _ (home : Option Bytes) where
  expand-slash : (x : Bytes) → expand home slash x ≡ complete (segments x) (slash ∷ x)
  expand-slash [] = refl
  expand-slash (c ∷ x) = refl

  pub is_path-path_text :
      (ns : List Bytes) → are_names ns ≡ true → is_path home (path_text ns) ≡ path_text ns
  unfolding is_path
  is_path-path_text [] h = refl
  is_path-path_text (n ∷ ns) h = elim (Bool-cases (bytes_eq (body ns ++ n) [])) [
    | inl e ↦ rw e refl
    | inr e ↦
        rw
          (
            e,
            expand-slash (body ns ++ n),
            segments-path_text n ns h,
            any_empty-onto ns (n ∷ []) (&&-eq-true (is_name n) (are_names ns) h).1,
            ends_with_slash-path_text n ns h,
          )
          (ground (arith, h))
  ]

  pub is_path-dir_text :
      (ns : List Bytes) → are_names ns ≡ true → is_path home (dir_text ns) ≡ path_text ns
  unfolding is_path
  is_path-dir_text [] h = refl
  is_path-dir_text (n ∷ ns) h =
      rw
        (
          not_root (body ns) n,
          expand-slash (body (n ∷ ns)),
          segments-dir_text n ns h,
          any_empty-onto ns (n ∷ []) (&&-eq-true (is_name n) (are_names ns) h).1,
          ends_with_slash-dir_text (n ∷ ns),
        )
        (ground (arith, h, pop_back-dir_text n ns))

-- The loop over the names of a path from the root.
module _ (dir : Bytes → Option Bytes) where
  apply_segment-name :
      (a s : Bytes) → is_name s ≡ true → apply_segment dir a s ≡ some (add_segment a s)
  unfolding apply_segment
  apply_segment-name a s h = ground (arith, h)

  one_name :
      (n : Bytes) (ns ss : List Bytes)
      → is_name n ≡ true
      → are_names ns ≡ true
      → apply_segments dir (n ∷ ss) (path_text ns) ≡ apply_segments dir ss (path_text (n ∷ ns))
  unfolding apply_segments
  one_name n ns ss hn hs =
      rw (apply_segment-name (path_text ns) n hn, add_segment-path_text ns n hs) refl

  apply_segments-onto :
      (ns ss : List Bytes)
      → are_names ns ≡ true
      → apply_segments dir (onto ns ss) root ≡ apply_segments dir ss (path_text ns)
  apply_segments-onto [] ss h = refl
  apply_segments-onto (n ∷ ns) ss h =
      let (hn, hs) = &&-eq-true (is_name n) (are_names ns) h in
      apply_segments-onto ns (n ∷ ss) hs ∙ one_name n ns ss hn hs

  pub transform-path_text :
      (env : Env) (ns : List Bytes)
      → are_names ns ≡ true
      → transform_from dir env (path_text ns) ≡ some (path_text ns)
  unfolding transform_from apply_segments
  transform-path_text env [] h = refl
  transform-path_text env (n ∷ ns) h =
      let (hn, hs) = &&-eq-true (is_name n) (are_names ns) h in
      let looped : apply_segments dir (segments (body ns ++ n)) root ≡ some (path_text (n ∷ ns)) =
        rw (segments-path_text n ns h)
          (apply_segments-onto ns (n ∷ []) hs ∙ one_name n ns [] hn hs) in
      rw (looped, ends_with_slash-path_text n ns h) refl
