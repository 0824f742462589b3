-- ===== src/DataManager/Storage/Construct.antt =====
-- data_manager.hpp, the constructor of DataManager up to the start of its thread.
use cloud_backup_system.Common.{
  ◌≡◌, Bool, true, Option, some, List, [], Bytes, bytes, if◌then◌else◌,
}
use cloud_backup_system.Node.{BackupInfoNode, Ptr, Heap}
use cloud_backup_system.Path.{file_path, is_empty}
use cloud_backup_system.FileUtil.{FileSystem, exists, append_content}
use cloud_backup_system.DataManager.{DataManager, Settings}
use cloud_backup_system.DataManager.Inv.{Inv, absent, status}
use cloud_backup_system.DataManager.Storage.{Json, has_name, construct}
use cloud_backup_system.DataManager.Storage.Load.{loaded}
use cloud_backup_system.DataManager.Storage.Verify.{file_names}

module _ (fs : FileSystem) (json : Json) (c : Settings) where
  open fs use {World}

  abbrev storage : Bytes
  storage = file_path c.env c.data_manager_filepath

  -- The file of the table is there, or is made: whether it could be, and the disk then.
  abbrev pub prepared : World → Bool × World
  prepared w = if exists fs storage w then (true, w) else append_content fs storage (bytes "null") w

  -- The items of a file with this text.
  abbrev pub items_in : Bytes → Option (List BackupInfoNode)
  items_in content = if is_empty content then some [] else json.deserialize content

  -- The outcome of the constructor, from the items of the file and the files in the backup.
  pub record Constructed (guard : Ptr) (h : Heap) (w : World) (items : List BackupInfoNode)
      (files : List Bytes) : Type 0 where
    pub state : DataManager
    pub disk : World
    pub runs : construct fs json c guard h w ≡ some (state, disk)
    pub valid : Inv state []
    pub statuses :
        (g : Bytes)
        → status state g ≡ (if has_name g (file_names files) then loaded g items absent else absent)
