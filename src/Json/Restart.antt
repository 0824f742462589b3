-- ===== src/Json/Restart.antt =====
-- data_manager.hpp, FileStorageThread and LoadFromFile, through JsonUtil and FileUtil of util.hpp: a
-- store of the table and a start from it.
use cloud_backup_system.Common.{
  ◌≡◌, ◌≤◌, true, false, some, [], Bytes, length, is_some, List, refl, arith, Option-cases, inl,
  inr,
}
use cloud_backup_system.Node.{Ptr}
use cloud_backup_system.Path.{file_path, is_empty}
use cloud_backup_system.FileUtil.{FileSystem, get_content, append_content, clear, uint32_max}
use cloud_backup_system.FileUtil.Rewritten.{FileLaws, text-rewritten, get_content-text}
use cloud_backup_system.DataManager.{DataManager, Settings}
use cloud_backup_system.DataManager.Inv.{Inv}
use cloud_backup_system.DataManager.Storage.{valid_infos, store_round}
use cloud_backup_system.DataManager.Storage.Persist.{Restored, restart_restores}
use cloud_backup_system.Json.{JsonCpp, append_items, serialize_infos, storage_json}
use cloud_backup_system.Json.Laws.{JsonLaws, all_int64}
use cloud_backup_system.Json.Both.{deserialize_infos-serialize_infos}

module _ (json : JsonCpp) (fs : FileSystem) (c : Settings) where
  open fs use {World}

  abbrev file : Bytes
  file = file_path c.env c.data_manager_filepath

  world-store_round :
      (d : DataManager) (w : World) (text : Bytes)
      → serialize_infos json (valid_infos d d.hash) ≡ some text
      → (clear fs file w).0 ≡ true
      → (store_round fs (storage_json json) c d w).1
        ≡ (append_content fs file text (clear fs file w).1).1
  unfolding store_round
  world-store_round d w text out emptied = ground (arith, out, emptied)

  module _ (laws : JsonLaws json) (text_of : World → Bytes) (calls : FileLaws fs file text_of) where
    reads-store_round :
        (d : DataManager) (w : World) (text : Bytes)
        → serialize_infos json (valid_infos d d.hash) ≡ some text
        → length text ≤ uint32_max
        → (clear fs file w).0 ≡ true
        → (append_content fs file text (clear fs file w).1).0 ≡ true
        → is_some (get_content fs file 0 uint32_max (store_round fs (storage_json json) c d w).1)
          ≡ true
        → get_content fs file 0 uint32_max (store_round fs (storage_json json) c d w).1 ≡ some text
    reads-store_round d w text out small emptied added readable =
        let w' = (store_round fs (storage_json json) c d w).1 in
        let holds : text_of w' ≡ text =
          rw (world-store_round d w text out emptied)
            (text-rewritten fs file text_of calls text w emptied added) in
        elim (Option-cases (get_content fs file 0 uint32_max w')) [
          | inl e ↦ absurd (ground (arith, readable, e))
          | inr (s, e) ↦
              let same : s ≡ text_of w' =
                get_content-text fs file text_of calls s w' (rw holds small) e in
              rw (e, same, holds) refl
        ]

    -- If JsonCpp keeps the members and items of a value and reads back what it wrote in UTF-8, if
    -- emptying the file, appending to it and reading it do what is documented, if a manager and a
    -- fresh one are well formed and the fresh one's table and cache are empty, and if the numbers in
    -- the table are of 64 bits, then a round of the storing thread in which Serialize gives a text
    -- that is not empty and has at most 2 ^ 32 - 1 bytes, and Clear and AppendContent work, is one
    -- after which a start that can read the file loads every uploaded file with its size and time,
    -- and nothing else: a name that was only registered is absent, and so is a file whose name is
    -- empty or whose size is negative. The loaded manager is well formed.
    pub serialized_restart :
        (d fresh : DataManager) (xs : List Ptr) (w : World) (text : Bytes)
        → Inv d xs
        → Inv fresh []
        → fresh.hash ≡ []
        → all_int64 (valid_infos d d.hash) ≡ true
        → json.IsUtf8 (append_items json (valid_infos d d.hash) json.null_value)
        → serialize_infos json (valid_infos d d.hash) ≡ some text
        → is_empty text ≡ false
        → length text ≤ uint32_max
        → (clear fs file w).0 ≡ true
        → (append_content fs file text (clear fs file w).1).0 ≡ true
        → is_some (get_content fs file 0 uint32_max (store_round fs (storage_json json) c d w).1)
          ≡ true
        → Restored fs (storage_json json) c d fresh (store_round fs (storage_json json) c d w).1
    serialized_restart d fresh xs w text v vf none_yet fits u out full small emptied added
          readable =
        let back =
          deserialize_infos-serialize_infos json laws (valid_infos d d.hash) text fits u out in
        restart_restores fs (storage_json json) c d fresh xs w text v vf none_yet out back full
          (reads-store_round d w text out small emptied added readable)
