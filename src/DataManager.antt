-- ===== src/DataManager.antt =====
-- data_manager.hpp, lines 33 to 502: the table of the files in the backup. Each operation holds the
-- manager's lock from its first read to its last write, so it is one step here. The condition
-- variable and the locks of the single nodes carry no data. The table `_hash` is an association
-- list; a registered file that is not uploaded yet has the null pointer.
mod Table
pub mod Cache
pub mod Inv
pub mod Reads
pub mod Writes
pub mod Insert
pub mod Register
pub mod Delete
pub mod Storage
pub mod Tests
pub use Table.*
use cloud_backup_system.Common.{
  ℕ, ◌+◌, ◌-◌, ◌%◌, ◌^◌, Bool, true, false, not, ◌&&◌, ◌||◌, Option, none, some, ◌>>=◌, List, [],
  ◌∷◌, ◌++◌, Bytes, bytes, bytes_eq, ℤ, pos, negsuc, is_negative, ltb, ◌==◌, if◌then◌else◌, is_some,
  length, take,
}
use cloud_backup_system.Node.{BackupInfoNode, DataManagerNode, Ptr, null, Heap, update}
use cloud_backup_system.Path.{Env, file_path, check_filename, get_file_name, ends_with_slash, root}
use cloud_backup_system.FileUtil.{
  FileSystem, exists, clear, append_content, remove_regular_file, get_content, scan_directory,
  uint32_max,
}
use cloud_backup_system.Lru.{DataManagerList, init, move_to_head, push_to_head, remove, unlinked}
use cloud_backup_system.Lru

-- The entries of the configuration that the manager reads.
pub record Settings : Type 0 where
  pub env : Env
  pub backup_file_dir : Bytes
  pub data_manager_filepath : Bytes
  pub lru_file_capacity : ℕ
  pub lru_file_content_size : ℕ

-- `next_node` is the address of the next node to be made.
pub record DataManager : Type 0 where
  pub hash : List (Bytes × Ptr)
  pub heap : Heap
  pub list : DataManagerList
  pub is_dirty : Bool
  pub next_node : Ptr

-- The path of a backup file, as each operation builds it.
abbrev pub target_file : Settings → Bytes → Bytes
target_file c name =
    let dir = c.backup_file_dir in
    file_path c.env ((if ends_with_slash dir then dir else dir ++ root) ++ name)

abbrev pub is_valid_file : DataManager → Bytes → Bool
is_valid_file d name = elim (lookup name d.hash) [ none ↦ false | some p ↦ not (p == null) ]

-- `_hash[name]` of a valid file.
abbrev pub node_of : DataManager → Bytes → Ptr
node_of d name = elim (lookup name d.hash) [ none ↦ null | some p ↦ p ]

-- A node with the information of a file, made at the next address.
unfoldable pub add_node : BackupInfoNode → DataManager → DataManager
add_node info d = record d {
  hash = insert info.filename d.next_node d.hash;
  heap =
      update d.heap d.next_node
        (record { info = info; file_pre_content = []; next = null; prev = null });
  next_node = d.next_node + 1;
}

-- Insert. `now` is what `time(nullptr)` returns.
unfoldable pub insert_file : Bytes → ℤ → ℤ → DataManager → Bool × DataManager
unfolding add_node
insert_file name size now d = elim (lookup name d.hash) [
  | none ↦ (false, d)
  | some p ↦
      if p == null
      then (
        true,
        record (add_node (record { filename = name; size = size; time = now }) d) {
          is_dirty = true;
        },
      )
      else (false, d)
]

unfoldable pub get_file_info_node : Bytes → DataManager → Ptr
get_file_info_node name d = if is_valid_file d name then node_of d name else null

-- The information of the uploaded files among the entries.
abbrev pub infos_of : Heap → List (Bytes × Ptr) → List BackupInfoNode
infos_of h [] = []
infos_of h ((name, p) ∷ rest) =
    let infos = infos_of h rest in if p == null then infos else (h p).info ∷ infos

unfoldable pub get_all_backup_info : DataManager → List BackupInfoNode
get_all_backup_info d = infos_of d.heap d.hash

-- The value of an `int64_t` as an `uint64_t`.
abbrev pub to_u64 : ℤ → ℕ
to_u64 (pos n) = n % 2 ^ 64
to_u64 (negsuc n) = (2 ^ 64 - 1 - n) % 2 ^ 64

pub get_file_size : Bytes → DataManager → ℕ
get_file_size name d =
    if is_valid_file d name then to_u64 (d.heap (node_of d name)).info.size else 2 ^ 64 - 1

-- GetFilePreContent; `none` is a fault.
pub get_file_pre_content : Bytes → DataManager → Option (Bytes × DataManager)
get_file_pre_content name d =
    if not (is_valid_file d name) || unlinked (node_of d name) d.heap then some ([], d) else do
      (done, h) ← move_to_head d.list (node_of d name) d.heap
      some ((if done then (h (node_of d name)).file_pre_content else []), record d { heap = h })

abbrev pub shorten : ℕ → Bytes → Bytes
shorten limit content = if ltb limit (length content) then take limit content else content

pub put_file_pre_content : Settings → Bytes → Bytes → DataManager → Option (Bool × DataManager)
put_file_pre_content c name content d =
    if not (is_valid_file d name)
    then some (false, d)
    else if unlinked (node_of d name) d.heap
    then (do
      (done, l, h) ←
          push_to_head d.list (node_of d name) (shorten c.lru_file_content_size content) d.heap
      some (done, record d { list = l; heap = h }))
    else do
      (done, h) ← move_to_head d.list (node_of d name) d.heap
      some (done, record d { heap = h })

module _ (fs : FileSystem) where
  open fs use {World}

  -- The file of a name that is about to be registered is emptied if there is one, and made if there
  -- is none.
  unfoldable pub prepare_file : Bytes → World → Bool × World
  prepare_file path w =
      let (emptied, w') = if exists fs path w then clear fs path w else (true, w) in
      if not emptied
      then (false, w')
      else if exists fs path w'
      then (true, w')
      else append_content fs path [] w'

  -- The file of a name is removed if there is one; `false` if that failed.
  unfoldable pub remove_target : Bytes → World → Bool × World
  remove_target path w = if exists fs path w then remove_regular_file fs path w else (true, w)

module _ (fs : FileSystem) (c : Settings) where
  open fs use {World}

  unfoldable pub register : Bytes → DataManager → World → Bool × DataManager × World
  register name d w =
      if is_some (lookup name d.hash) || not (check_filename name)
      then (false, d, w)
      else let (done, w') = prepare_file fs (target_file c name) w in
        if done then (true, record d { hash = insert name null d.hash }, w') else (false, d, w')

  unfoldable pub deregister : Bytes → DataManager → World → Bool × DataManager × World
  deregister name d w =
      let (done, w') = remove_target fs (target_file c name) w in
      (done, record d { hash = erase name d.hash }, w')

  -- Delete behind `_list.Remove`.
  forget : Bytes → DataManager → World → Bool × DataManager × World
  forget name d w =
      let (done, w') = remove_target fs (target_file c name) w in
      (done, record d { hash = erase name d.hash; is_dirty = true }, w')

  -- Delete; `none` is a fault.
  pub delete_file : Bytes → DataManager → World → Option (Bool × DataManager × World)
  unfolding forget
  delete_file name d w = if not (is_valid_file d name) then some (false, d, w) else do
    (done, l, h) ← remove d.list (node_of d name) d.heap
    some (
        let d' = record d { list = l; heap = h } in
        if done then forget name d' w else (false, d', w))
