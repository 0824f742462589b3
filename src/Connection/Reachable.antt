-- ===== src/Connection/Reachable.antt =====
-- HTTPconnection.hpp and cloud_backup_server.hpp: connections that steps of the threads lead to.
use cloud_backup_system.Common.{
  ◌≡◌, ◌≢◌, ℕ, ◌≤◌, refl, Bool, true, false, some, List, [], ◌∷◌, ◌++◌, Bytes, ℤ, length, arith,
  is_some, append-nil,
}
use cloud_backup_system.Path.{Env, is_empty}
use cloud_backup_system.FileUtil.{FileSystem}
use cloud_backup_system.Config.{Config}
use cloud_backup_system.Download.{Task, handle, send}
use cloud_backup_system.Reply.{AnswerJson}
use cloud_backup_system.Connection.{paused, Llhttp, Connection, Work, task, parsed, looking}
use cloud_backup_system.Connection.Tasks.{run_task}
use cloud_backup_system.Connection.Steps.{
  is_leaving, eaten, Reach, fresh, received, ran, ended, looked, closed, replied, elsewhere,
}
use cloud_backup_system.Connection.Orderly.{
  SoundWork, Sound, only_task, receive-Sound, handler_end-Sound, hand_over-Sound,
}
use cloud_backup_system.Connection.Handling.{handler_begin-Sound, send_file-Sound}

leaving_more :
    (ws : List Work) (bound busy leaving : Bool) (left r p : Bytes)
    → SoundWork ws bound busy leaving left r p
    → SoundWork ws bound busy true left r p
leaving_more [] bound busy leaving left r p (a, b, c) = (ground arith, b, c)
leaving_more (task t ∷ []) bound busy leaving left r p h = h
leaving_more (parsed n ∷ []) bound busy leaving left r p h = h
leaving_more (looking ∷ []) bound busy leaving left r p h = h
leaving_more (w ∷ v ∷ ws) bound busy leaving left r p h = h

length-Sound :
    (ws : List Work) (bound busy leaving : Bool) (left r p : Bytes)
    → SoundWork ws bound busy leaving left r p
    → length ws ≤ 1
length-Sound [] bound busy leaving left r p h = omega arith
length-Sound (w ∷ []) bound busy leaving left r p h = omega arith
length-Sound (w ∷ v ∷ ws) bound busy leaving left r p h = absurd (ground arith)

length-waiting :
    (ws : List Work) (bound busy leaving : Bool) (left r p : Bytes)
    → SoundWork ws bound busy leaving left r p
    → is_empty left ≡ false
    → leaving ≡ false
    → length ws ≡ 1
length-waiting [] bound busy leaving left r p (a, b, c) e l = absurd (ground arith)
length-waiting (w ∷ []) bound busy leaving left r p h e l = refl
length-waiting (w ∷ v ∷ ws) bound busy leaving left r p h e l = absurd (ground arith)

in_order :
    (ws : List Work) (bound busy leaving : Bool) (left r p : Bytes)
    → SoundWork ws bound busy leaving left r p
    → ((n : ℕ) → ws ≢ parsed n ∷ [])
    → r ≡ p ++ left
in_order [] bound busy leaving left r p (a, b, c) none_between = c
in_order (task t ∷ []) bound busy leaving left r p (a, c) none_between = c
in_order (parsed n ∷ []) bound busy leaving left r p h none_between = absurd (none_between n refl)
in_order (looking ∷ []) bound busy leaving left r p (a, b, c) none_between = c
in_order (w ∷ v ∷ ws) bound busy leaving left r p h none_between = absurd (ground arith)

module _ (fs : FileSystem) (ll : Llhttp) (c : Config)
    (pauses : (s : Bytes) (q : ll.Parser) (at : ℕ) → (ll.execute s q).1 ≡ paused at → at ≤ length s)
    (env : Env) (now : fs.World → ℤ) (json : AnswerJson) (id : Bytes) where
  eaten_same :
      (t : Task) (k : Connection fs ll) (ws : List Work)
      → eaten fs ll c t (record k { work = ws }) ≡ eaten fs ll c t k
  eaten_same handle k ws = refl
  eaten_same (send q start end) k ws = refl

  run_task-Sound :
      (t : Task) (r p : Bytes) (k k' : Connection fs ll)
      → k.work ≡ []
      → k.is_processing ≡ true
      → r ≡ p ++ k.request_buffer
      → run_task fs ll env c now json id t k ≡ some k'
      → Sound fs ll r (p ++ eaten fs ll c t k) k'
  unfolding run_task
  run_task-Sound handle r p k k' e busy whole runs =
      handler_begin-Sound fs ll c pauses env now json id r p k k' e busy whole runs
  run_task-Sound (send q start end) r p k k' e busy whole runs =
      rw (append-nil p)
        (send_file-Sound fs ll c pauses env now json id q start end r p k k' e busy whole runs)

  Reach-Sound :
      {r p : Bytes} {k : Connection fs ll} → Reach fs ll c env now json id r p k → Sound fs ll r p k
  Reach-Sound (fresh {k} f) = rw (f.rests, f.idle, f.unread) (refl, refl, refl)
  Reach-Sound (received {r} {p} {k} at h quiet) = receive-Sound fs ll at r p k (Reach-Sound h) quiet
  Reach-Sound (ran {r} {p} {k} {k'} xs ys t h e runs) =
      let v = Reach-Sound h in
      let (lone, rest) =
        only_task fs ll xs ys k.work (task t) (is_some k.session.sub_task) k.is_processing
          (is_leaving fs ll k) k.request_buffer r p e v in
      let (busy, whole) : SoundWork (task t ∷ []) (is_some k.session.sub_task) k.is_processing
          (is_leaving fs ll k) k.request_buffer r p =
        rw lone at v in
      rw (eaten_same t k (xs ++ ys)) at
        (run_task-Sound t r p (record k { work = xs ++ ys }) k' rest busy whole runs)
  Reach-Sound (ended {r} {p} {k} xs ys n h e) =
      let v = Reach-Sound h in
      let (lone, rest) =
        only_task fs ll xs ys k.work (parsed n) (is_some k.session.sub_task) k.is_processing
          (is_leaving fs ll k) k.request_buffer r p e v in
      let v' : SoundWork (parsed n ∷ []) (is_some k.session.sub_task) k.is_processing
          (is_leaving fs ll k) k.request_buffer r p =
        rw lone at v in
      rw rest (handler_end-Sound fs ll n r p k v')
  Reach-Sound (looked {r} {p} {k} xs ys h e) =
      let v = Reach-Sound h in
      let (lone, rest) =
        only_task fs ll xs ys k.work looking (is_some k.session.sub_task) k.is_processing
          (is_leaving fs ll k) k.request_buffer r p e v in
      let v' : SoundWork (looking ∷ []) (is_some k.session.sub_task) k.is_processing
          (is_leaving fs ll k) k.request_buffer r p =
        rw lone at v in
      rw rest (hand_over-Sound fs ll r p k v')
  Reach-Sound (closed {r} {p} {k} h) =
      leaving_more k.work (is_some k.session.sub_task) k.is_processing (is_leaving fs ll k)
        k.request_buffer r p (Reach-Sound h)
  Reach-Sound (replied n h) = Reach-Sound h
  Reach-Sound (elsewhere d w h) = Reach-Sound h

  -- If llhttp pauses inside the bytes that it was given, then after any steps in which the main thread
  -- starts no `handler` while another thread is about to look at `_sub_task`, a connection has at
  -- most one work: one task in the queue or about to be called, or one task that runs.
  pub one_at_a_time :
      (r p : Bytes) (k : Connection fs ll) → Reach fs ll c env now json id r p k → length k.work ≤ 1
  one_at_a_time r p k h =
      length-Sound k.work (is_some k.session.sub_task) k.is_processing (is_leaving fs ll k)
        k.request_buffer r p (Reach-Sound h)

  -- If llhttp pauses inside the bytes that it was given, then after any steps in which the main thread
  -- starts no `handler` while another thread is about to look at `_sub_task`, a connection with
  -- bytes that are not parsed has exactly one work, unless it is closed or was asked to be closed.
  pub no_lost_request :
      (r p : Bytes) (k : Connection fs ll)
      → Reach fs ll c env now json id r p k
      → is_empty k.request_buffer ≡ false
      → is_leaving fs ll k ≡ false
      → length k.work ≡ 1
  no_lost_request r p k h waiting staying =
      length-waiting k.work (is_some k.session.sub_task) k.is_processing (is_leaving fs ll k)
        k.request_buffer r p (Reach-Sound h) waiting staying

  -- If llhttp pauses inside the bytes that it was given, then after any steps in which the main thread
  -- starts no `handler` while another thread is about to look at `_sub_task`, the bytes that came
  -- are the bytes that the parser took, followed by those in the buffer, unless a `handler` is
  -- between its critical sections.
  pub parsed_in_order :
      (r p : Bytes) (k : Connection fs ll)
      → Reach fs ll c env now json id r p k
      → ((n : ℕ) → k.work ≢ parsed n ∷ [])
      → r ≡ p ++ k.request_buffer
  parsed_in_order r p k h none_between =
      in_order k.work (is_some k.session.sub_task) k.is_processing (is_leaving fs ll k)
        k.request_buffer r p (Reach-Sound h) none_between
