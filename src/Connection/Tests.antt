-- ===== src/Connection/Tests.antt =====
-- A connection that gets a request for a page that there is none of.
use cloud_backup_system.Common.{
  ◌>>=◌, ◌≡◌, ℕ, ◌≤◌, refl, false, none, some, Option, List, [], ◌∷◌, ◌++◌, Bytes, bytes, ℤ, pos,
  length, arith, take,
}
use cloud_backup_system.DataManager.Tests.{
  Disk, disk, settings, files, manager, manager-Inv, drop_bytes-drop,
}
use cloud_backup_system.Config.Tests.{config}
use cloud_backup_system.Upload.{cleared, find}
use cloud_backup_system.Request.{
  on_message_begin, on_method, on_url, on_url_complete, on_headers_complete,
}
use cloud_backup_system.Download.{handle, send}
use cloud_backup_system.Reply.{AnswerJson}
use cloud_backup_system.Connection.{
  Llhttp, Connection, Session, message_begin, method, url, url_complete, headers_complete,
  message_complete, paused, Work, task, looking, run_events, on_message_complete, answer_request,
}
use cloud_backup_system.Connection.Tasks.{receive, run_task, handler_begin, handler_end, hand_over}
use cloud_backup_system.Connection.Steps.{Reach, fresh, received, ran, ended}
use cloud_backup_system.Connection.Delivery.{Holds, Delivered}
use cloud_backup_system.Connection.Sending.{deliver_part}
use cloud_backup_system.DataManager.Cache
use cloud_backup_system.DataManager.Cache.{view}
use cloud_backup_system.DataManager.{target_file}
use cloud_backup_system.Config.{Config, settings_of}
use cloud_backup_system.Path.{
  file_path, path_transform, is_path, apply_segments, apply_segment, add_segment,
}
use cloud_backup_system.Connection.Reachable.{one_at_a_time, no_lost_request, parsed_in_order}

-- Each piece is one request.
abbrev pub pieces : Llhttp
pieces = record {
  Parser = Bytes;
  execute = λ s q. (
    (message_begin
        ∷ method (bytes "GET")
        ∷ url (bytes "/none")
        ∷ url_complete
        ∷ headers_complete
        ∷ message_complete
        ∷ []),
    paused (length s),
    q,
  );
}

pieces_pause : (s q : Bytes) (at : ℕ) → (pieces.execute s q).1 ≡ paused at → at ≤ length s
pieces_pause s q at e = ground arith

abbrev pub clock : Disk → ℤ
clock w = pos 9

abbrev pub no_json : AnswerJson
no_json = record { upload_report = λ a b. none; file_list = λ l. none }

abbrev pub new_connection : Connection disk pieces
new_connection = record {
  session = record {
    parse = record { info = cleared; manager = manager; world = files };
    response_buffer = [];
    pipe = [];
    sub_task = none;
  };
  is_closed = false;
  is_processing = false;
  request_buffer = [];
  parser = [];
  work = [];
}

abbrev waiting : Connection disk pieces
waiting = receive disk pieces (bytes "G") new_connection

waiting-Reach :
    Reach disk pieces config settings.env clock no_json (bytes "4_1") (bytes "G") [] waiting
waiting-Reach =
    received (bytes "G") (fresh (record { idle = refl; unread = refl; rests = refl })) refl

no_lost_request_example : length waiting.work ≡ 1
unfolding receive
no_lost_request_example =
    no_lost_request disk pieces config pieces_pause settings.env clock no_json (bytes "4_1")
      (bytes "G") [] waiting waiting-Reach refl refl

one_at_a_time_example : length waiting.work ≤ 1
one_at_a_time_example =
    one_at_a_time disk pieces config pieces_pause settings.env clock no_json (bytes "4_1")
      (bytes "G") [] waiting waiting-Reach

between : Connection disk pieces
unfolding run_task
between =
    elim (run_task disk pieces settings.env config clock no_json (bytes "4_1") handle
      (record waiting { work = [] })) [ none ↦ waiting | some k ↦ k ]

served : Connection disk pieces
unfolding handler_end between
served = handler_end disk pieces 1 (record between { work = [] })

-- The request has been answered.
parsed_in_order_example : bytes "G" ≡ bytes "G" ++ served.request_buffer
unfolding served between run_task handler_begin handler_end run_events on_message_complete
    answer_request receive on_message_begin on_method on_url on_url_complete on_headers_complete
    find
parsed_in_order_example =
    parsed_in_order disk pieces config pieces_pause settings.env clock no_json (bytes "4_1")
      (bytes "G") (bytes "G") served (ended [] [] 1 (ran [] [] handle waiting-Reach refl refl) refl)
      (λ n e. ground (arith, e))

-- Two threads look at one bound task: bytes come in after a `handler` has marked the connection as
-- idle and before it looks at `_sub_task`; the second `handler` binds a task, and both push it.
raced : Option (Connection disk pieces)
unfolding run_task receive handler_end served hand_over
raced = do
  let again : Connection disk pieces = receive disk pieces (bytes "123456789") served
  begun ←
      run_task disk pieces settings.env config clock no_json (bytes "4_1") handle
        (record again { work = looking ∷ [] })
  let ended' : Connection disk pieces =
      handler_end disk pieces 8 (record begun { work = looking ∷ [] })
  let looked : Connection disk pieces =
      hand_over disk pieces (record ended' { work = looking ∷ [] })
  some (hand_over disk pieces (record looked { work = task handle ∷ [] }))

abbrev works : Option (Connection disk pieces) → List Work
works none = []
works (some k) = k.work

race : works raced ≡ task handle ∷ task handle ∷ []
unfolding raced served between run_task handler_begin handler_end run_events on_message_complete
    answer_request receive on_message_begin on_method on_url on_url_complete on_headers_complete
    find hand_over
race = refl

-- A download of `x`, which is in the cache, where a byte is read at a time.
abbrev slow : Config
slow = record config { max_file_read_size = pos 1 }

abbrev sending : Session disk
sending = record new_connection.session { sub_task = some (send 2 (pos 0) (pos 2)) }

x_file-Holds :
    Holds disk (target_file (settings_of settings.env slow) (bytes "x")) (bytes "xx") files
unfolding file_path path_transform is_path apply_segments apply_segment add_segment
x_file-Holds = record {
  opens = refl;
  size = refl;
  reads = λ start n fits. rw (drop_bytes-drop start (bytes "xx")) refl;
}

x_cached :
    (content : Bytes)
    → Cache.find (bytes "x") (view manager.heap (2 ∷ [])) ≡ some content
    → (content ≡ take (length content) (bytes "xx")) × (length content ≤ 2)
x_cached content e =
    let same : bytes "xx" ≡ content = ground arith in rw (← same) (refl, omega arith)

deliver_part_example : Delivered disk settings.env slow (bytes "4_1") sending 4 (bytes "xx")
deliver_part_example =
    deliver_part disk settings.env slow (bytes "4_1") (bytes "x") (bytes "xx") files 1 x_file-Holds
      (omega arith) (omega arith) refl 2 0 2 sending (2 ∷ []) manager-Inv refl (omega arith) refl
      refl (omega arith) (omega arith) x_cached

-- A download of `x` with a range is complete.
abbrev asked_for : Session disk
asked_for = record new_connection.session {
  parse = record {
    info = record cleared {
      request_method = bytes "GET";
      request_url_prefix = bytes "/download";
      request_headers = (bytes "if-range", bytes "other") ∷ (bytes "range", bytes "bytes=1-1") ∷ [];
      cur_download_file = bytes "x";
    };
    manager = manager;
    world = files;
  };
}
