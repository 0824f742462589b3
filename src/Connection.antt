-- ===== src/Connection.antt =====
-- HTTPconnection.hpp, lines 24 to 57, 134 to 195, 308 to 336 and 570 to 579: a connection between the thread that reads
-- and writes its socket and the threads of the pool. llhttp is a parameter: a piece of a stream to
-- the callbacks that it makes, in their order, and its result.
pub mod Tasks
pub mod Steps
pub mod Orderly
pub mod Handling
pub mod Reachable
pub mod Delivery
pub mod Sending
pub mod Answers
pub mod Tests
use cloud_backup_system.Common.{
  ℕ, ◌+◌, ◌-◌, Bool, true, false, not, ◌||◌, ◌&&◌, Option, none, some, ◌>>=◌, List, [], ◌∷◌, ◌++◌,
  Bytes, bytes, ℤ, pos, ◌+ℤ◌, ◌-ℤ◌, min_ℤ, ltb_ℤ, ltb, ◌==◌, if◌then◌else◌, take, drop, length,
  is_some,
}
use cloud_backup_system.Node.{Ptr, null}
use cloud_backup_system.Path.{Env, is_empty}
use cloud_backup_system.FileUtil.{FileSystem, get_content}
use cloud_backup_system.DataManager.{
  DataManager, to_u64, target_file, get_file_pre_content, put_file_pre_content,
}
use cloud_backup_system.Config.{Config, settings_of}
use cloud_backup_system.Upload.{HttpMessageInfo, Parse}
use cloud_backup_system.Request.{
  on_message_begin, on_method, on_url, on_url_complete, on_version, on_header_field,
  on_header_value, on_header_value_complete, on_headers_complete, on_body, asks, not_found,
  process_delete_request, response_seralize,
}
use cloud_backup_system.Download.{Task, handle, send, process_download_request}
use cloud_backup_system.Reply.{
  AnswerJson, process_showlist_request, process_upload_request, process_api_request,
}

-- The callbacks.
pub data Event : Type 0 where
  message_begin : Event
  method : Bytes → Event
  url : Bytes → Event
  url_complete : Event
  version : Bytes → Event
  header_field : Bytes → Event
  header_value : Bytes → Event
  header_value_complete : Event
  headers_complete : Event
  body : Bytes → Event
  message_complete : Event

-- `HPE_OK`, `HPE_PAUSED` with the position of the pause, or another code.
pub data Verdict : Type 0 where
  ok : Verdict
  paused : ℕ → Verdict
  failed : Verdict

-- The parser is resumed where it paused.
pub record Llhttp : Type 1 where
  pub Parser : Type 0
  pub execute : Bytes → Parser → List Event × Verdict × Parser

-- What the callbacks and the tasks change; a pipe is the messages that were written to it.
pub record Session (fs : FileSystem) : Type 0 where
  pub parse : Parse fs
  pub response_buffer : Bytes
  pub pipe : List Bytes
  pub sub_task : Option Task

-- A task that is in the queue of the pool or about to be called; `handler` between its two critical
-- sections, with `handle_size`; or a task that is to look whether `_sub_task` is bound, which it does
-- without a lock.
pub data Work : Type 0 where
  task : Task → Work
  parsed : ℕ → Work
  looking : Work

pub record Connection (fs : FileSystem) (ll : Llhttp) : Type 0 where
  pub session : Session fs
  pub is_closed : Bool
  pub is_processing : Bool
  pub request_buffer : Bytes
  pub parser : ll.Parser
  pub work : List Work

-- A message to the main thread about the connection of an identifier.
abbrev pub message : ℕ → Bytes → Bytes
message op id = op ∷ id ++ b',' ∷ []

module _ (fs : FileSystem) (id : Bytes) where
  abbrev pub notify : ℕ → Session fs → Session fs
  notify op s = record s { pipe = s.pipe ++ message op id ∷ [] }

  unfoldable pub notify_close_curent_connection : Session fs → Session fs
  notify_close_curent_connection s = notify b'c' s

  unfoldable pub notify_new_message_need_send : Session fs → Session fs
  notify_new_message_need_send s = notify b'w' s

module _ (fs : FileSystem) (env : Env) (c : Config) (now : fs.World → ℤ) (json : AnswerJson)
    (id : Bytes) where
  open fs use {World}

  abbrev pub with_info : HttpMessageInfo → Session fs → Session fs
  with_info m s = record s { parse = record s.parse { info = m } }

  -- The branches of on_message_complete for a request that has no answer yet; `none` is a fault.
  unfoldable pub answer_request : Session fs → Option (Session fs)
  unfolding notify_close_curent_connection
  answer_request s =
      let m = s.parse.info in
      if asks (bytes "GET") (bytes "/") m || asks (bytes "GET") (bytes "/showlist") m
      then elim (process_showlist_request fs env s.parse.world m) [
        | none ↦ some (notify_close_curent_connection fs id s)
        | some m' ↦ some (with_info m' s)
      ]
      else if asks (bytes "GET") (bytes "/download") m
      then (do
        (m', t) ← process_download_request s.parse.manager m
        some (record (with_info m' s) { sub_task = if is_some t then t else s.sub_task }))
      else if asks (bytes "DELETE") (bytes "/delete") m
      then (do
        p ← process_delete_request fs (settings_of env c) now s.parse
        some (record s { parse = p }))
      else if asks (bytes "POST") (bytes "/upload") m
      then some (with_info (process_upload_request json m) s)
      else if asks (bytes "GET") (bytes "/api") m
      then some (with_info (process_api_request json s.parse.manager m) s)
      else some (with_info (not_found m) s)

  unfoldable pub on_message_complete : Session fs → Option (Session fs)
  unfolding answer_request notify_new_message_need_send
  on_message_complete s = do
    s' ← if is_empty s.parse.info.response_status then answer_request s else some s
    some (
        notify_new_message_need_send fs id
          (record s' { response_buffer = s'.response_buffer ++ response_seralize s'.parse.info }))

  unfoldable pub run_event : Event → Session fs → Option (Session fs)
  run_event message_begin s = some (with_info (on_message_begin s.parse.info) s)
  run_event (method at) s = some (with_info (on_method at s.parse.info) s)
  run_event (url at) s = some (with_info (on_url at s.parse.info) s)
  run_event url_complete s = some (with_info (on_url_complete s.parse.info) s)
  run_event (version at) s = some (with_info (on_version at s.parse.info) s)
  run_event (header_field at) s = some (with_info (on_header_field at s.parse.info) s)
  run_event (header_value at) s = some (with_info (on_header_value at s.parse.info) s)
  run_event header_value_complete s = some (with_info (on_header_value_complete s.parse.info) s)
  run_event headers_complete s = do m ← on_headers_complete s.parse.info; some (with_info m s)
  run_event (body at) s = do
    p ← on_body fs (settings_of env c) now at s.parse
    some (record s { parse = p })
  run_event message_complete s = on_message_complete s

  unfoldable pub run_events : List Event → Session fs → Option (Session fs)
  unfolding run_event
  run_events [] s = some s
  run_events (e ∷ es) s = do s' ← run_event e s; run_events es s'
