-- ===== src/FileUtil.antt =====
-- util.hpp, lines 26 to 211: the file operations of FileUtil, over the calls of the operating system
-- and of the standard library that they make. A FileUtil is its path, as the constructor left it.
pub mod Rewritten
use cloud_backup_system.Common.{
  ℕ, ◌-◌, Bool, true, false, not, ◌&&◌, Option, none, some, List, [], ◌∷◌, Bytes, ℤ, pos, negsuc,
  ltb, leb, ◌==◌, if◌then◌else◌,
}
use cloud_backup_system.Path.{Env, file_path, is_empty}

-- The state of the disk, and the calls. `stat` gives `st_size`, `read` the bytes from a position on
-- if all of them could be read; `none` is a failure.
pub record FileSystem : Type 1 where
  pub World : Type 0
  pub access : Bytes → World → Bool
  pub stat : Bytes → World → Option ℕ
  pub open_read : Bytes → World → Bool
  pub read : Bytes → ℕ → ℕ → World → Option Bytes
  pub open_append : Bytes → World → Option World
  pub write : Bytes → Bytes → World → Bool × World
  pub open_trunc : Bytes → World → Option World
  pub create_directories : Bytes → World → Bool × World
  pub is_directory : Bytes → World → Bool
  pub is_regular_file : Bytes → World → Bool
  pub entries : Bytes → World → List Bytes
  pub remove_file : Bytes → World → Bool × World

-- `len` when the caller gives none.
abbrev pub uint32_max : ℕ
uint32_max = 0xffff_ffff

module _ (fs : FileSystem) where
  open fs use {World, access, stat, open_read, read, open_append, write, open_trunc}
  open fs use {create_directories, is_directory, is_regular_file, entries, remove_file}

  unfoldable pub get_file_size : Bytes → World → ℤ
  get_file_size f w = elim (stat f w) [ none ↦ negsuc 0 | some n ↦ pos n ]

  -- The part of `GetContent` behind the test of the size.
  unfoldable pub read_range : Bytes → ℕ → ℕ → ℕ → World → Option Bytes
  read_range f start len size w =
      if leb size start
      then some []
      else let n : ℕ = if ltb len (size - start) then len else size - start in
        if n == 0 then some [] else read f start n w

  -- `none` is `false`: the buffer stays as it was.
  unfoldable pub get_content : Bytes → ℕ → ℕ → World → Option Bytes
  unfolding get_file_size read_range
  get_content f start len w =
      if open_read f w
      then elim (get_file_size f w) [ negsuc n ↦ none | pos size ↦ read_range f start len size w ]
      else none

  unfoldable pub append_content : Bytes → Bytes → World → Bool × World
  append_content f buffer w = elim (open_append f w) [
    | none ↦ (false, w)
    | some w' ↦ write f buffer w'
  ]

  unfoldable pub exists : Bytes → World → Bool
  exists f w = not (is_empty f) && access f w

  unfoldable pub clear : Bytes → World → Bool × World
  unfolding exists
  clear f w =
      if exists f w
      then elim (open_trunc f w) [ none ↦ (false, w) | some w' ↦ (true, w') ]
      else (false, w)

  unfoldable pub make_directories : Bytes → World → Bool × World
  unfolding exists
  make_directories f w = if exists f w then (true, w) else create_directories f w

  -- `FileUtil(file.path().string())` for each entry that is a regular file.
  abbrev regular_files : Env → List Bytes → World → List Bytes
  regular_files env [] w = []
  regular_files env (p ∷ ps) w =
      let rest = regular_files env ps w in
      if is_regular_file p w then file_path env p ∷ rest else rest

  -- `none` is `false`.
  unfoldable pub scan_directory : Env → Bytes → World → Option (List Bytes)
  unfolding exists file_path
  scan_directory env f w =
      if exists f w && is_directory f w then some (regular_files env (entries f w) w) else none

  unfoldable pub remove_regular_file : Bytes → World → Bool × World
  unfolding exists
  remove_regular_file f w =
      if exists f w && is_regular_file f w then remove_file f w else (false, w)
