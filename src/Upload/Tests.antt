-- ===== src/Upload/Tests.antt =====
-- An upload of one file of five bytes.
use cloud_backup_system.Common.{
  ◌≡◌, refl, Bool, Option, none, some, [], ◌∷◌, ◌++◌, Bytes, bytes, ℤ, pos,
}
use cloud_backup_system.DataManager.Cache.{view}
use cloud_backup_system.DataManager.Tests.{Disk, disk, settings, files, manager, manager-Inv}
use cloud_backup_system.DataManager.{lookup, register, insert_file, prepare_file}
use cloud_backup_system.Path.{
  file_path, path_transform, is_path, apply_segments, apply_segment, add_segment, check_filename,
}
use cloud_backup_system.FileUtil.{exists, clear, append_content, get_file_size}
use cloud_backup_system.Upload.Dropped.{Interrupted, process_upload_body-Interrupted}
use cloud_backup_system.Upload.{
  HttpMessageInfo, cleared, Parse, process_upload_body, upload_loop, round, sep, find,
  head_filename, open_file, read_head, read_content, settle, fail_file, finish_file,
}
use cloud_backup_system.Upload.Loop.{Processed, process_upload_body-Processed}

abbrev request : HttpMessageInfo
request = record cleared {
  request_body =
      bytes "--B"
      ++ sep
      ++ bytes "x: filename=\"f\""
      ++ sep
      ++ sep
      ++ bytes "hello"
      ++ sep
      ++ bytes "--B--"
      ++ sep;
  body_boundary = bytes "--B";
}

abbrev start : Parse disk
start = record { info = request; manager = manager; world = files }

abbrev clock : Disk → ℤ
clock w = pos 9

process_upload_body_example :
    Processed disk settings clock (2 ∷ []) (view manager.heap (2 ∷ [])) start
process_upload_body_example =
    process_upload_body-Processed disk settings clock (2 ∷ []) (view manager.heap (2 ∷ [])) start
      (record { valid = manager-Inv; held = refl; done = refl; cache = refl })

process_upload_body-Interrupted_example :
    Interrupted disk settings clock (2 ∷ []) (view manager.heap (2 ∷ [])) start
process_upload_body-Interrupted_example =
    process_upload_body-Interrupted disk settings clock (2 ∷ []) (view manager.heap (2 ∷ [])) start
      (record { valid = manager-Inv; held = refl; done = refl; cache = refl })

-- What the disk has at a path after a call.
abbrev written : Bytes → Option (Bool × Parse disk) → Option Bytes
written f none = none
written f (some (b, p)) = lookup f p.world

-- The file has the bytes between the boundaries.
uploaded_test :
    written (bytes "/b/f") (process_upload_body disk settings clock start) ≡ some (bytes "hello")
unfolding process_upload_body upload_loop round find head_filename open_file read_head read_content
    settle fail_file finish_file file_path path_transform is_path apply_segments apply_segment
    add_segment check_filename exists clear append_content get_file_size prepare_file register
    insert_file
uploaded_test = refl
