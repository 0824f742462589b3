-- ===== src/Reply.antt =====
-- HTTPconnection.hpp, lines 422 to 438 and 496 to 568: the answers to the page of files, to an upload
-- and to the list of files. JsonCpp is a parameter: the texts of the two objects that the answers
-- are made of.
use cloud_backup_system.Common.{
  Option, none, some, ◌>>=◌, List, Bytes, bytes, bytes_eq, if◌then◌else◌, length, to_string,
}
use cloud_backup_system.Node.{BackupInfoNode}
use cloud_backup_system.Path.{Env, file_path}
use cloud_backup_system.FileUtil.{FileSystem, get_content, uint32_max}
use cloud_backup_system.DataManager.{DataManager, get_all_backup_info}
use cloud_backup_system.Upload.{HttpMessageInfo}
use cloud_backup_system.Request.{answer, not_found, upload_status}
use cloud_backup_system.Download.{put_header}

-- The texts with the names that were stored and that failed, and with the information of files;
-- `none` is a failure of the library.
pub record AnswerJson : Type 0 where
  pub upload_report : List Bytes → List Bytes → Option Bytes
  pub file_list : List BackupInfoNode → Option Bytes

-- A body of a type with its length.
abbrev pub with_body : Bytes → Bytes → HttpMessageInfo → HttpMessageInfo
with_body type body m =
    record (put_header (bytes "Content-Length") (to_string (length body))
      (put_header (bytes "Content-Type") type m)) { response_body = body }

abbrev pub showlist_page : Bytes
showlist_page = bytes "./wwwroot/default.html"

module _ (fs : FileSystem) (env : Env) where
  open fs use {World}

  -- `none` where the page cannot be read.
  unfoldable pub process_showlist_request : World → HttpMessageInfo → Option HttpMessageInfo
  process_showlist_request w m = do
    page ← get_content fs (file_path env showlist_page) 0 uint32_max w
    some (with_body (bytes "text/html") page (answer (bytes "200") (bytes "OK") m))

module _ (json : AnswerJson) where
  open json use {upload_report, file_list}

  unfoldable pub process_upload_request : HttpMessageInfo → HttpMessageInfo
  process_upload_request m =
      let m' = upload_status m in
      elim (upload_report m.upload_success_files m.upload_fail_files) [
        | none ↦ m'
        | some body ↦ with_body (bytes "application/json") body m'
      ]

  unfoldable pub process_api_request : DataManager → HttpMessageInfo → HttpMessageInfo
  process_api_request d m =
      if bytes_eq m.request_url_path (bytes "/GetBackupFiles")
      then elim (file_list (get_all_backup_info d)) [
        | none ↦ not_found m
        | some body ↦
            with_body (bytes "application/json") body (answer (bytes "200") (bytes "OK") m)
      ]
      else not_found m
