-- ===== src/Path/Transform.antt =====
-- util.hpp, path_transform: its loop, and the absolute path as a whole.
use cloud_backup_system.Common.{
  ℕ, suc, ◌≡◌, refl, ap, ◌∙◌, append-nil, Bool, true, false, Option, none, some, ◌>>=◌, List, [],
  ◌∷◌, Bytes, bytes, bytes_eq, ◌==◌, if◌then◌else◌, arith, Bool-cases, inl, inr,
}
use cloud_backup_system.Path.{
  Env, slash, root, has_slash, up_to_last_slash, segments, add_segment, trim, is_path,
  apply_segment, apply_segments, transform_from, path_transform,
}
use cloud_backup_system.Path.Resolved.{
  are_names, body, dir_text, path_text, parent, resolve_one, resolve, up_to_last_slash-path_text,
  add_segment-path_text, add_segment-dir_text, resolve_one-names,
}
use cloud_backup_system.Path.Standing.{
  Stands, no_slashes, no_slashes-segments, trim-Stands, is_path-path_text, is_path-dir_text,
  transform-path_text,
}

add_segment-Stands :
    (a s : Bytes) (ns : List Bytes)
    → are_names ns ≡ true
    → Stands a ns
    → add_segment a s ≡ path_text (s ∷ ns)
add_segment-Stands a s ns h (inl e) = rw e (add_segment-path_text ns s h)
add_segment-Stands a s ns h (inr e) = rw e (add_segment-dir_text ns s)

module _ (d : ℕ) (env : Env) where
  transform-Stands :
      (a : Bytes) (ns : List Bytes)
      → are_names ns ≡ true
      → Stands a ns
      → path_transform (suc d) env a ≡ some (path_text ns)
  unfolding path_transform
  transform-Stands a ns h (inl e) =
      rw (e, is_path-path_text env.home ns h) (transform-path_text _ env ns h)
  transform-Stands a ns h (inr e) =
      rw (e, is_path-dir_text env.home ns h) (transform-path_text _ env ns h)

  -- The directory that the loop goes up to.
  abbrev up : Bytes → Option Bytes
  up a = do ret ← path_transform (suc d) env a; some (up_to_last_slash ret)

  up-Stands :
      (a : Bytes) (ns : List Bytes)
      → are_names ns ≡ true
      → Stands a ns
      → up a ≡ some (dir_text (parent ns))
  up-Stands a ns h e = rw (transform-Stands a ns h e) (ap some (up_to_last_slash-path_text ns h))

  abbrev Leads : Option Bytes → List Bytes → Type 0
  Leads o ns = (a : Bytes) × ((o ≡ some a) × Stands a ns)

  apply_segment-Leads :
      (s a : Bytes) (ns : List Bytes)
      → has_slash s ≡ false
      → are_names ns ≡ true
      → Stands a ns
      → Leads (apply_segment up a s) (resolve_one s ns)
  unfolding apply_segment
  apply_segment-Leads [] a ns e h st = (
    add_segment a [],
    (refl, inr (add_segment-Stands a [] ns h st ∙ ap (λ t. slash ∷ t) (append-nil (body ns)))),
  )
  apply_segment-Leads (c ∷ s) a ns e h st = elim (Bool-cases (bytes_eq (c ∷ s) (bytes "."))) [
    | inl f ↦ rw f (a, (refl, st))
    | inr f ↦ elim (Bool-cases (bytes_eq (c ∷ s) (bytes ".."))) [
      | inl g ↦ rw (f, g) (dir_text (parent ns), (up-Stands a ns h st, inr refl))
      | inr g ↦
          rw (f, g) (add_segment a (c ∷ s), (refl, inl (add_segment-Stands a (c ∷ s) ns h st)))
    ]
  ]

  apply_segments-Leads :
      (ss : List Bytes) (a : Bytes) (ns : List Bytes)
      → no_slashes ss ≡ true
      → are_names ns ≡ true
      → Stands a ns
      → Leads (apply_segments up ss a) (resolve ss ns) × (are_names (resolve ss ns) ≡ true)
  unfolding apply_segments
  apply_segments-Leads [] a ns e h st = ((a, (refl, st)), h)
  apply_segments-Leads (s ∷ ss) a ns e h st =
      let plain : has_slash s ≡ false = ground (arith, e) in
      let (a', (went, st')) = apply_segment-Leads s a ns plain h st in
      rw went (
        apply_segments-Leads ss a' (resolve_one s ns) (ground (arith, e))
          (resolve_one-names s ns plain h) st')

  apply_segments-trim :
      (ss : List Bytes) (a : Bytes) (ns : List Bytes)
      → no_slashes ss ≡ true
      → are_names ns ≡ true
      → Stands a ns
      → ((do b ← apply_segments up ss a; some (trim b)) ≡ some (path_text (resolve ss ns)))
        × (are_names (resolve ss ns) ≡ true)
  apply_segments-trim ss a ns e h st =
      let ((b, (went, st')), names) = apply_segments-Leads ss a ns e h st in
      (rw went (ap some (trim-Stands b (resolve ss ns) names st')), names)

-- The names that a path leads to, from the directory that `cwd` names: `none` where the path is
-- empty or has an empty piece, or where it needs a home that is not known.
abbrev pub target : Option Bytes → List Bytes → Bytes → Option (List Bytes)
target home cwd path = elim (is_path home path) [
  | [] ↦ none
  | c ∷ cs ↦ some (if c == slash then resolve (segments cs) [] else resolve (segments (c ∷ cs)) cwd)
]

abbrev pub target_text : Option (List Bytes) → Bytes
target_text none = []
target_text (some ns) = path_text ns

only_names :
    (ns0 ns : List Bytes)
    → are_names ns0 ≡ true
    → ◌≡◌ {A = Option (List Bytes)} (some ns0) (some ns)
    → are_names ns ≡ true
only_names ns0 ns h f = let same : ns0 ≡ ns = ground (arith, f) in rw (← same) h

module _ (d : ℕ) (env : Env) (cwd : List Bytes) where
  chosen :
      (b : Bool) (ss0 ss1 : List Bytes)
      → no_slashes ss0 ≡ true
      → no_slashes ss1 ≡ true
      → are_names cwd ≡ true
      → env.cwd ≡ some (path_text cwd)
      → (let ns0 = if b then resolve ss0 [] else resolve ss1 cwd in
          ((if b then (do a ← apply_segments (up d env) ss0 root; some (trim a)) else elim env.cwd [
            | none ↦ some []
            | some p ↦ do a ← apply_segments (up d env) ss1 p; some (trim a)
          ])
            ≡ some (path_text ns0))
          × (are_names ns0 ≡ true))
  chosen true ss0 ss1 e0 e1 h at = apply_segments-trim d env ss0 root [] e0 refl (inl refl)
  chosen false ss0 ss1 e0 e1 h at =
      rw at (apply_segments-trim d env ss1 (path_text cwd) cwd e1 h (inl refl))

  transform_from-target :
      (ret : Bytes)
      → are_names cwd ≡ true
      → env.cwd ≡ some (path_text cwd)
      → (let o : Option (List Bytes) = elim ret [
        | [] ↦ none
        | c ∷ cs ↦
            some (if c == slash then resolve (segments cs) [] else resolve (segments (c ∷ cs)) cwd)
      ] in
          (transform_from (up d env) env ret ≡ some (target_text o))
          × ((ns : List Bytes) → o ≡ some ns → are_names ns ≡ true))
  unfolding transform_from
  transform_from-target [] h at = (refl, λ ns e. ground (arith, e))
  transform_from-target (c ∷ cs) h at =
      let (same, names) =
        chosen (c == slash) (segments cs) (segments (c ∷ cs)) (no_slashes-segments cs)
          (no_slashes-segments (c ∷ cs)) h at in
      (same, λ ns f. only_names _ ns names f)

  -- Where getcwd gives an absolute path of names, path_transform gives the absolute path of the names
  -- that the segments of the path lead to, with nesting of two calls as with any more: names without
  -- a slash, none of them empty, "." or "..". It gives the empty text for a path that is empty, has
  -- an empty piece, or needs a home that is not known.
  pub path_transform-target :
      (path : Bytes)
      → are_names cwd ≡ true
      → env.cwd ≡ some (path_text cwd)
      → (path_transform (suc (suc d)) env path ≡ some (target_text (target env.home cwd path)))
        × ((ns : List Bytes) → target env.home cwd path ≡ some ns → are_names ns ≡ true)
  unfolding path_transform
  path_transform-target path h at = transform_from-target (is_path env.home path) h at
