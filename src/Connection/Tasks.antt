-- ===== src/Connection/Tasks.antt =====
-- HTTPconnection.hpp, handler and sendFile, and the part of cloud_backup_server.hpp that hands bytes to
-- a connection. A task that the pool does not take is called at once: in both cases it is the next
-- work of the connection. `handler` has two critical sections, and both tasks look at `_sub_task`
-- behind the last one.
use cloud_backup_system.Common.{
  ℕ, zero, suc, Bool, true, false, not, Option, none, some, ◌>>=◌, [], ◌∷◌, ◌++◌, Bytes, ℤ, pos,
  negsuc, ◌+ℤ◌, ◌-ℤ◌, min_ℤ, ltb_ℤ, ltb, ◌==◌, if◌then◌else◌, take, drop, length, is_some,
}
use cloud_backup_system.Node.{Ptr, null}
use cloud_backup_system.Path.{Env, is_empty}
use cloud_backup_system.FileUtil.{FileSystem, get_content}
use cloud_backup_system.DataManager.{
  DataManager, to_u64, target_file, get_file_pre_content, put_file_pre_content,
}
use cloud_backup_system.Config.{Config, settings_of}
use cloud_backup_system.Download.{Task, handle, send}
use cloud_backup_system.Reply.{AnswerJson}
use cloud_backup_system.Connection.{
  ok, paused, failed, Llhttp, Session, Connection, task, parsed, looking,
  notify_close_curent_connection, notify_new_message_need_send, run_events,
}

abbrev pub is_zero : ℤ → Bool
is_zero (pos zero) = true
is_zero (pos (suc n)) = false
is_zero (negsuc n) = false

module _ (fs : FileSystem) (env : Env) (c : Config) where
  open fs use {World}

  abbrev pub file_of : DataManager → Ptr → Bytes
  file_of d p = (d.heap p).info.filename

  -- The bytes in the cache at the start of a file.
  unfoldable pub cached_piece : Ptr → ℤ → DataManager → Option (Bytes × DataManager)
  cached_piece p start d =
      if is_zero start then get_file_pre_content (file_of d p) d else some ([], d)

  -- The bytes on the disk, put into the cache at the start of a file. The inner `none` is an error.
  unfoldable pub read_piece :
      Ptr → ℤ → ℤ → DataManager → World → Option (Option Bytes × DataManager)
  read_piece p start end d w =
      let size = min_ℤ c.max_file_read_size (end -ℤ start) in
      let file = target_file (settings_of env c) (file_of d p) in
      elim (get_content fs file (to_u64 start) (to_u64 size) w) [
        | none ↦ some (none, d)
        | some content ↦
            if is_zero start
            then (do
              (done, d') ← put_file_pre_content (settings_of env c) (file_of d p) content d
              some (if done then some content else none, d'))
            else some (some content, d)
      ]

  unfoldable pub next_piece :
      Ptr → ℤ → ℤ → DataManager → World → Option (Option Bytes × DataManager)
  unfolding cached_piece read_piece
  next_piece p start end d w = do
    (cached, d') ← cached_piece p start d
    if is_empty cached then read_piece p start end d' w else some (some cached, d')

  module _ (id : Bytes) where
    -- The body of sendFile up to its last critical section; `false` where it returns before that.
    unfoldable pub send_piece : Ptr → ℤ → ℤ → Session fs → Option (Bool × Session fs)
    unfolding next_piece notify_close_curent_connection notify_new_message_need_send
    send_piece p start end s =
        if p == null
        then some (false, notify_close_curent_connection fs id s)
        else if not (ltb_ℤ start end)
        then some (true, s)
        else do
          (content, d) ← next_piece p start end s.parse.manager s.parse.world
          let s' : Session fs = record s { parse = record s.parse { manager = d } }
          some (elim content [
            | none ↦ (false, notify_close_curent_connection fs id s')
            | some text ↦
                let sent =
                  notify_new_message_need_send fs id
                    (record s' { response_buffer = s'.response_buffer ++ text }) in
                let start' = start +ℤ pos (length text) in
                (
                  true,
                  if ltb_ℤ start' end
                      then record sent { sub_task = some (send p start' end) }
                      else sent,
                )
          ])

module _ (fs : FileSystem) (ll : Llhttp) where
  -- The bytes that the main thread has read from the socket.
  unfoldable pub receive : Bytes → Connection fs ll → Connection fs ll
  receive at k =
      let k' = record k { request_buffer = k.request_buffer ++ at } in
      if k.is_processing
      then k'
      else record k' { is_processing = true; work = task handle ∷ k.work }

  -- The last critical section of a task that has bound no other one.
  unfoldable pub settle : Connection fs ll → Connection fs ll
  settle k =
      if is_some k.session.sub_task
      then k
      else if is_empty k.request_buffer
      then record k { is_processing = false }
      else record k { session = record k.session { sub_task = some handle } }

  -- The look at `_sub_task`.
  unfoldable pub hand_over : Connection fs ll → Connection fs ll
  hand_over k = elim k.session.sub_task [ none ↦ k | some t ↦ record k { work = task t ∷ k.work } ]

  unfoldable pub leave_section : Connection fs ll → Connection fs ll
  unfolding settle
  leave_section k = let k' : Connection fs ll = settle k in record k' { work = looking ∷ k'.work }

  -- The second critical section of `handler`.
  unfoldable pub handler_end : ℕ → Connection fs ll → Connection fs ll
  unfolding leave_section
  handler_end size k = leave_section (record k { request_buffer = drop size k.request_buffer })

  module _ (env : Env) (c : Config) (now : fs.World → ℤ) (json : AnswerJson) (id : Bytes) where
    -- `handler` up to its second critical section; `none` is an exception or a fault.
    unfoldable pub handler_begin : Connection fs ll → Option (Connection fs ll)
    unfolding run_events notify_close_curent_connection
    handler_begin k = if k.is_closed then some k else do
      let size : ℕ = length k.request_buffer
      let limit : ℕ = c.per_handle_request_size
      let handle_size : ℕ = if ltb limit size then limit else size
      let (events, verdict, parser) = ll.execute (take handle_size k.request_buffer) k.parser
      s ← run_events fs env c now json id events (record k.session { sub_task = none })
      let k' : Connection fs ll = record k { session = s; parser = parser }
      some (elim verdict [
        | failed ↦ record k' { session = notify_close_curent_connection fs id s }
        | ok ↦ record k' { work = parsed handle_size ∷ k.work }
        | paused at ↦ record k' { work = parsed at ∷ k.work }
      ])

    -- Up to the look at `_sub_task`.
    unfoldable pub send_file : Ptr → ℤ → ℤ → Connection fs ll → Option (Connection fs ll)
    unfolding send_piece leave_section
    send_file p start end k = if k.is_closed then some k else do
      (going, s) ← send_piece fs env c id p start end (record k.session { sub_task = none })
      let k' : Connection fs ll = record k { session = s }
      some (if going then leave_section k' else k')

    unfoldable pub run_task : Task → Connection fs ll → Option (Connection fs ll)
    unfolding handler_begin send_file
    run_task handle k = handler_begin k
    run_task (send p start end) k = send_file p start end k
