-- ===== src/Request/Tests.antt =====
-- Requests that upload, download and delete.
use cloud_backup_system.Common.{
  List, arith, ap, ◌∙◌, ◌≡◌, refl, false, [], ◌∷◌, ◌++◌, Bytes, bytes, ℤ, pos, is_some,
}
use cloud_backup_system.DataManager.{insert}
use cloud_backup_system.DataManager.Inv.{status}
use cloud_backup_system.FileUtil.{append_content}
use cloud_backup_system.Path.{
  file_path, path_transform, is_path, apply_segments, apply_segment, add_segment,
}
use cloud_backup_system.DataManager.Cache.{view}
use cloud_backup_system.DataManager.Tests.{
  text_at, text_at-insert, Disk, disk, settings, files, manager, manager-Inv,
}
use cloud_backup_system.Upload.{HttpMessageInfo, cleared, Parse, sep, find}
use cloud_backup_system.Request.{on_headers_complete}
use cloud_backup_system.Request.Headers.{on_headers_complete_faults}
use cloud_backup_system.Request.Stream.{Uploaded, upload_streams}
use cloud_backup_system.Upload.Flow.{Appends}

-- A download of nothing throws.
abbrev bare : HttpMessageInfo
bare = record cleared { request_method = bytes "GET"; request_url_prefix = bytes "/download" }

on_headers_complete_faults_example : is_some (on_headers_complete bare) ≡ false
on_headers_complete_faults_example = on_headers_complete_faults bare

abbrev uploading : HttpMessageInfo
uploading = record cleared {
  request_method = bytes "POST";
  request_url_prefix = bytes "/upload";
  body_boundary = bytes "--B";
}

abbrev piece : Bytes
piece = bytes "--B" ++ sep ++ bytes "x: filename=\"f\"" ++ sep ++ sep ++ bytes "hel"

abbrev clock : Disk → ℤ
clock w = pos 9

abbrev deleting : Parse disk
deleting = record {
  info = record cleared { cur_delete_file = bytes "x" };
  manager = manager;
  world = files;
}

-- An upload of `z`, whose head has been read.
abbrev receiving : Parse disk
receiving = record {
  info = record uploading { cur_upload_file = bytes "z" };
  manager = manager;
  world = files;
}

abbrev z_text : Disk → Bytes
z_text w = text_at (bytes "/b/z") w

z_text-Appends : Appends disk (bytes "/b/z") z_text
unfolding append_content
z_text-Appends = record {
  lands = λ s w. refl;
  adds = λ s w.
      let f = bytes "/b/z" in
      let w' = insert f (text_at f w) w in
      text_at-insert f (text_at f w' ++ s) w' ∙ ap (λ t. t ++ s) (text_at-insert f (text_at f w) w);
}

-- Cut in the middle of the line break and of the boundary.
abbrev cuts : List Bytes
cuts = bytes "hel" ∷ (bytes "lo" ++ 13 ∷ []) ∷ (10 ∷ bytes "--") ∷ bytes "B--" ∷ sep ∷ []

upload_streams_example :
    Uploaded disk settings clock
      (2 ∷ [])
      (view manager.heap (2 ∷ []))
      z_text
      (bytes "hello")
      cuts
      receiving
unfolding file_path path_transform is_path apply_segments apply_segment add_segment find status
upload_streams_example =
    upload_streams disk settings clock (2 ∷ []) (view manager.heap (2 ∷ [])) z_text (bytes "hello")
      (bytes "--" ++ sep) cuts receiving
      (record { valid = manager-Inv; held = refl; done = refl; cache = refl }) refl refl refl refl
      refl z_text-Appends refl refl (omega arith) refl
