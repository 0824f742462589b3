-- ===== src/DataManager/Storage.antt =====
-- The part of DataManager that lasts: the constructor, LoadFromFile, VerifyFileLegality, and one
-- round of FileStorageThread. Json is a parameter: an array of the files' information to text, and
-- text back to the fields that `asString` and `asInt64` give for each of its items.
pub mod Load
pub mod Construct
pub mod Persist
pub mod Verify
pub mod Tests
use cloud_backup_system.Common.{
  ◌+◌, Bool, true, false, not, ◌||◌, Option, none, some, ◌>>=◌, List, [], ◌∷◌, Bytes, bytes,
  bytes_eq, is_negative, if◌then◌else◌, is_some,
}
use cloud_backup_system.Node.{BackupInfoNode, Ptr, null, Heap}
use cloud_backup_system.Path.{file_path, get_file_name, is_empty}
use cloud_backup_system.FileUtil.{
  FileSystem, exists, clear, append_content, remove_regular_file, get_content, scan_directory,
  uint32_max,
}
use cloud_backup_system.Lru.{init}
use cloud_backup_system.DataManager.{DataManager, Settings, lookup, erase, add_node, is_valid_file}

pub record Json : Type 0 where
  pub serialize : List BackupInfoNode → Option Bytes
  pub deserialize : Bytes → Option (List BackupInfoNode)

-- An item without a name or with a negative size is passed over.
abbrev pub is_sound : BackupInfoNode → Bool
is_sound info = not (is_empty info.filename || is_negative info.size)

pub load_item : BackupInfoNode → DataManager → DataManager
load_item info d = if is_sound info then add_node info d else d

pub load_items : List BackupInfoNode → DataManager → DataManager
load_items [] d = d
load_items (i ∷ is) d = load_items is (load_item i d)

-- The entries that one round of the storing thread writes.
abbrev pub valid_infos : DataManager → List (Bytes × Ptr) → List BackupInfoNode
valid_infos d [] = []
valid_infos d ((name, p) ∷ m) =
    let rest = valid_infos d m in if is_valid_file d name then (d.heap p).info ∷ rest else rest

abbrev pub has_name : Bytes → List Bytes → Bool
has_name k [] = false
has_name k (j ∷ js) = bytes_eq j k || has_name k js

-- The names of the table that are not among `names`, and their removal.
abbrev pub missing : List Bytes → List (Bytes × Ptr) → List Bytes
missing names [] = []
missing names ((name, p) ∷ m) =
    let rest = missing names m in if has_name name names then rest else name ∷ rest

pub erase_names : List Bytes → DataManager → DataManager
erase_names [] d = d
erase_names (k ∷ ks) d = erase_names ks (record d { hash = erase k d.hash; is_dirty = true })

-- The manager before it has read its file; `none` is a fault.
pub empty_manager : Settings → Ptr → Heap → Option DataManager
empty_manager c guard h = do
  (l, h') ← init guard c.lru_file_capacity h
  some (record { hash = []; heap = h'; list = l; is_dirty = false; next_node = guard + 1 })

module _ (fs : FileSystem) where
  open fs use {World}

  -- The first loop of VerifyFileLegality: a file that no entry names is removed; the names of the
  -- others are kept.
  pub sift_files : DataManager → List Bytes → World → List Bytes × World
  sift_files d [] w = ([], w)
  sift_files d (f ∷ fs') w =
      let known = is_some (lookup (get_file_name f) d.hash) in
      let w' = if known then w else (remove_regular_file fs f w).1 in
      let (names, w2) = sift_files d fs' w' in
      ((if known then get_file_name f ∷ names else names), w2)

module _ (fs : FileSystem) (c : Settings) where
  open fs use {World}

  pub verify_file_legality : DataManager → World → DataManager × World
  verify_file_legality d w = elim (scan_directory fs c.env (file_path c.env c.backup_file_dir) w) [
    | none ↦ (d, w)
    | some files ↦
        let (names, w') = sift_files fs d files w in (erase_names (missing names d.hash) d, w')
  ]

module _ (fs : FileSystem) (json : Json) (c : Settings) where
  open fs use {World}

  -- LoadFromFile; `none` is an exit of the program.
  pub load_from_file : Bytes → DataManager → World → Option DataManager
  load_from_file file d w = do
    content ← get_content fs file 0 uint32_max w
    if is_empty content
        then some d
        else do items ← json.deserialize content; some (load_items items d)

  -- The constructor up to the start of the thread; `none` is an exit of the program or a fault.
  pub construct : Ptr → Heap → World → Option (DataManager × World)
  unfolding exists append_content
  construct guard h w = do
    let file = file_path c.env c.data_manager_filepath
    let (made, w') = if exists fs file w then (true, w) else append_content fs file (bytes "null") w
    d ← empty_manager c guard h
    d' ← if made then load_from_file file d w' else none
    some (verify_file_legality fs c d' w')

  -- One round of FileStorageThread once the table is marked. The mark is gone also where the file
  -- could not be written.
  unfoldable pub store_round : DataManager → World → DataManager × World
  store_round d w =
      let d' = record d { is_dirty = false } in
      let file = file_path c.env c.data_manager_filepath in
      elim (json.serialize (valid_infos d d.hash)) [
        | none ↦ (d', w)
        | some text ↦
            let (cleared, w') = clear fs file w in
            (d', if cleared then (append_content fs file text w').1 else w')
      ]
