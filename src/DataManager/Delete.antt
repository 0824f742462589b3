-- ===== src/DataManager/Delete.antt =====
-- data_manager.hpp, Delete: a file in the table, in the cache and on the disk.
use cloud_backup_system.Common.{◌≡◌, true, false, some, List, Bytes, bytes_eq, if◌then◌else◌, ◌&&◌}
use cloud_backup_system.Node.{Ptr, Heap}
use cloud_backup_system.Lru.{DataManagerList}
use cloud_backup_system.Lru.Chain.{mem}
use cloud_backup_system.Lru.Inv.{IsLru, erase}
use cloud_backup_system.DataManager.{
  DataManager, Settings, is_valid_file, get_file_pre_content, put_file_pre_content, shorten,
}
use cloud_backup_system.DataManager.Cache.{drop_name, view}
use cloud_backup_system.DataManager.Inv.{Inv, status}
use cloud_backup_system.FileUtil.{FileSystem}
use cloud_backup_system.Lru.{remove}
use cloud_backup_system.DataManager.{delete_file, forget, remove_target, target_file}
use cloud_backup_system.DataManager
use cloud_backup_system.DataManager.Inv.{absent}

-- The outcome of `_list.Remove` on a node that may be in the list or not.
record Unlisted (d : DataManager) (xs : List Ptr) (p : Ptr) : Type 0 where
  list : DataManagerList
  heap : Heap
  runs : remove d.list p d.heap ≡ some (true, list, heap)
  valid : IsLru list heap (erase p xs)
  infos : (q : Ptr) → (heap q).info ≡ (d.heap q).info
  contents :
      (q : Ptr)
      → mem q (erase p xs) ≡ true
      → (heap q).file_pre_content ≡ (d.heap q).file_pre_content
  guard : list.guard ≡ d.list.guard

module _ (fs : FileSystem) (c : Settings) (d : DataManager) (xs : List Ptr) (name : Bytes) where
  open fs use {World}

  -- The outcome of `Delete`.
  pub record Deleted (w : World) : Type 0 where
    pub state : DataManager
    pub nodes : List Ptr
    pub runs :
        delete_file fs c name d w
        ≡ some (
            if is_valid_file d name
            then (let (removed, w') = remove_target fs (target_file c name) w in
                (removed, state, w'))
            else (false, state, w))
    pub valid : Inv state nodes
    pub statuses :
        (g : Bytes)
        → status state g ≡ (if is_valid_file d name && bytes_eq name g then absent else status d g)
    pub cache :
        view state.heap nodes
        ≡ (if is_valid_file d name then drop_name name (view d.heap xs) else view d.heap xs)
    pub dirty : state.is_dirty ≡ (if is_valid_file d name then true else d.is_dirty)
