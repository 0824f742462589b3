-- ===== src/Connection/Answers.antt =====
-- HTTPconnection.hpp, on_message_complete: every request that is complete gets one answer.
use cloud_backup_system.Common.{
  ◌≡◌, Bool, true, not, ◌||◌, some, List, ◌++◌, Bytes, bytes, ℤ, is_some,
}
use cloud_backup_system.Node.{Ptr}
use cloud_backup_system.Path.{Env, is_empty}
use cloud_backup_system.FileUtil.{FileSystem}
use cloud_backup_system.DataManager.{DataManager}
use cloud_backup_system.DataManager.Inv.{Inv}
use cloud_backup_system.Config.{Config}
use cloud_backup_system.Request.{asks, response_seralize}
use cloud_backup_system.Download.{process_download_request}
use cloud_backup_system.Reply.{AnswerJson}
use cloud_backup_system.Connection.{Session, answer_request, on_message_complete}
use cloud_backup_system.Connection.Steps.{asked_close}

module _ (fs : FileSystem) (env : Env) (c : Config) (now : fs.World → ℤ) (json : AnswerJson)
    (id : Bytes) where
  -- A session has an answer, or was asked to be closed.
  abbrev pub is_settled : Session fs → Bool
  is_settled s = not (is_empty s.parse.info.response_status) || asked_close s.pipe

  -- The outcome of a branch of on_message_complete.
  record Branch (s : Session fs) : Type 0 where
    state : Session fs
    runs : answer_request fs env c now json id s ≡ some state
    buffer : state.response_buffer ≡ s.response_buffer
    settled : is_settled state ≡ true

  -- The outcome of a request that is complete.
  pub record Replied (s : Session fs) : Type 0 where
    pub state : Session fs
    pub runs : on_message_complete fs env c now json id s ≡ some state
    pub answered : state.response_buffer ≡ s.response_buffer ++ response_seralize state.parse.info
    pub settled : is_settled state ≡ true

  module _ (s : Session fs) (xs : List Ptr) (v : Inv s.parse.manager xs)
      (readable : is_some (process_download_request s.parse.manager s.parse.info) ≡ true) where
    -- The tests of the branches, in their order.
    abbrev is_page : Bool
    is_page =
        asks (bytes "GET") (bytes "/") s.parse.info
        || asks (bytes "GET") (bytes "/showlist") s.parse.info

    abbrev is_download : Bool
    is_download = asks (bytes "GET") (bytes "/download") s.parse.info

    abbrev is_delete : Bool
    is_delete = asks (bytes "DELETE") (bytes "/delete") s.parse.info
