-- ===== src/FileUtil/Rewritten.antt =====
-- util.hpp, FileUtil: a file that is emptied, written and read again.
use cloud_backup_system.Common.{
  ℕ, ◌≤◌, ◌≡◌, true, false, some, [], ◌++◌, Bytes, arith, length, ap, ◌∙◌, sym, false, ◌∷◌, refl,
  ◌==◌, Option-cases, Bool-cases, inl, inr,
}
use cloud_backup_system.FileUtil.{
  FileSystem, get_content, append_content, clear, exists, get_file_size, read_range, uint32_max,
}

-- What is documented of the calls on a file whose bytes `text` gives: opened with `trunc` it is
-- empty, opened with `app` it is unchanged, a `write` that worked adds its bytes, `stat` gives their
-- number, and a `read` of all of them that worked gives them.
pub record FileLaws (fs : FileSystem) (f : Bytes) (text : fs.World → Bytes) : Type 0 where
  pub emptied : (w w' : fs.World) → fs.open_trunc f w ≡ some w' → text w' ≡ []
  pub opened : (w w' : fs.World) → fs.open_append f w ≡ some w' → text w' ≡ text w
  pub added :
      (s : Bytes) (w : fs.World) → (fs.write f s w).0 ≡ true → text (fs.write f s w).1 ≡ text w ++ s
  pub sized : (w : fs.World) (n : ℕ) → fs.stat f w ≡ some n → n ≡ length (text w)
  pub gives : (w : fs.World) (s : Bytes) → fs.read f 0 (length (text w)) w ≡ some s → s ≡ text w

module _ (fs : FileSystem) (f : Bytes) (text : fs.World → Bytes) (laws : FileLaws fs f text) where
  open fs use {World}

  text-clear : (w : World) → (clear fs f w).0 ≡ true → text (clear fs f w).1 ≡ []
  unfolding clear
  text-clear w h = elim (Bool-cases (exists fs f w)) [
    | inr e ↦ absurd (ground (arith, h, e))
    | inl e ↦ elim (Option-cases (fs.open_trunc f w)) [
      | inl n ↦ absurd (ground (arith, h, e, n))
      | inr (w', n) ↦ rw (e, n) (laws.emptied w w' n)
    ]
  ]

  text-append_content :
      (s : Bytes) (w : World)
      → (append_content fs f s w).0 ≡ true
      → text (append_content fs f s w).1 ≡ text w ++ s
  unfolding append_content
  text-append_content s w h = elim (Option-cases (fs.open_append f w)) [
    | inl n ↦ absurd (ground (arith, h, n))
    | inr (w', n) ↦
        let same = laws.opened w w' n in
        let ok : (fs.write f s w').0 ≡ true = ground (arith, h, n) in
        let last : append_content fs f s w ≡ fs.write f s w' = ground (arith, n) in
        rw (last, ← same) (laws.added s w' ok)
  ]

  -- After Clear and AppendContent that worked the file has the bytes that were appended.
  pub text-rewritten :
      (s : Bytes) (w : World)
      → (clear fs f w).0 ≡ true
      → (append_content fs f s (clear fs f w).1).0 ≡ true
      → text (append_content fs f s (clear fs f w).1).1 ≡ s
  text-rewritten s w emptied added =
      text-append_content s (clear fs f w).1 added ∙ ap (λ t. t ++ s) (text-clear w emptied)

  length-zero : (s : Bytes) → length s ≡ 0 → s ≡ []
  length-zero [] h = refl
  length-zero (c ∷ s) h = absurd (omega (arith, h))

  read_range-all :
      (n : ℕ) (w : World)
      → n ≤ uint32_max
      → (n == 0) ≡ false
      → read_range fs f 0 uint32_max n w ≡ fs.read f 0 n w
  unfolding read_range
  read_range-all n w small e = ground (arith, e)

  read_range-text :
      (s : Bytes) (w : World)
      → length (text w) ≤ uint32_max
      → read_range fs f 0 uint32_max (length (text w)) w ≡ some s
      → s ≡ text w
  unfolding read_range
  read_range-text s w small h = elim (Bool-cases (length (text w) == 0)) [
    | inl e ↦
        let none_there : text w ≡ [] = length-zero (text w) (ground (arith, e)) in
        let same : s ≡ [] = ground (arith, h, e) in same ∙ sym none_there
    | inr e ↦
        let all : read_range fs f 0 uint32_max (length (text w)) w
            ≡ fs.read f 0 (length (text w)) w =
          read_range-all (length (text w)) w small e in
        laws.gives w s (sym all ∙ h)
  ]

  -- GetContent of a file of at most 2 ^ 32 - 1 bytes gives nothing or all of it.
  pub get_content-text :
      (s : Bytes) (w : World)
      → length (text w) ≤ uint32_max
      → get_content fs f 0 uint32_max w ≡ some s
      → s ≡ text w
  unfolding get_content get_file_size
  get_content-text s w small h = elim (Bool-cases (fs.open_read f w)) [
    | inr e ↦ absurd (ground (arith, h, e))
    | inl e ↦ elim (Option-cases (fs.stat f w)) [
      | inl n ↦ absurd (ground (arith, h, e, n))
      | inr (size, n) ↦
          let counted = laws.sized w size n in
          let all : read_range fs f 0 uint32_max size w ≡ some s = ground (arith, h, e, n) in
          read_range-text s w small (rw counted at all)
    ]
  ]
