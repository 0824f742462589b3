-- ===== src/Connection/Steps.antt =====
-- HTTPconnection.hpp and cloud_backup_server.hpp: the interleavings of the threads at one connection. The
-- main thread hands it bytes, takes bytes of its answers and closes it; a thread of the pool takes
-- up one of its works; other connections change the manager and the disk.
use cloud_backup_system.Common.{
  arith, refl, ◌≡◌, ℕ, Bool, true, false, ◌||◌, not, some, List, [], ◌∷◌, ◌++◌, Bytes, ℤ, ltb,
  if◌then◌else◌, take, drop, length, ◌==◌,
}
use cloud_backup_system.Path.{Env}
use cloud_backup_system.FileUtil.{FileSystem}
use cloud_backup_system.DataManager.{DataManager}
use cloud_backup_system.Config.{Config}
use cloud_backup_system.Download.{Task, handle, send}
use cloud_backup_system.Reply.{AnswerJson}
use cloud_backup_system.Connection.{
  message, Verdict, ok, paused, failed, Llhttp, Connection, Work, task, parsed, looking,
}
use cloud_backup_system.Connection.Tasks.{receive, handler_end, hand_over, run_task}

-- Whether the main thread was asked to close the connection.
abbrev pub asked_close : List Bytes → Bool
asked_close [] = false
asked_close ([] ∷ ms) = asked_close ms
asked_close ((op ∷ m) ∷ ms) = if op == b'c' then true else asked_close ms

pub asked_close-notify :
    (id : Bytes) (ms : List Bytes) → asked_close (ms ++ message b'c' id ∷ []) ≡ true
asked_close-notify id [] = refl
asked_close-notify id ([] ∷ ms) = asked_close-notify id ms
asked_close-notify id ((op ∷ m) ∷ ms) = ground (arith, asked_close-notify id ms)

pub asked_close-append :
    (ms ns : List Bytes) → asked_close ms ≡ true → asked_close (ms ++ ns) ≡ true
asked_close-append [] ns h = cc
asked_close-append ([] ∷ ms) ns h = asked_close-append ms ns h
asked_close-append ((op ∷ m) ∷ ms) ns h = ground (arith, asked_close-append ms ns)

module _ (fs : FileSystem) (ll : Llhttp) where
  -- The connection is closed, or will be.
  abbrev pub is_leaving : Connection fs ll → Bool
  is_leaving k = k.is_closed || asked_close k.session.pipe

  -- A thread is about to look at `_sub_task`.
  abbrev pub has_look : List Work → Bool
  has_look [] = false
  has_look (task t ∷ ws) = has_look ws
  has_look (parsed n ∷ ws) = has_look ws
  has_look (looking ∷ ws) = true

  pub record IsFresh (k : Connection fs ll) : Type 0 where
    pub idle : k.is_processing ≡ false
    pub unread : k.request_buffer ≡ []
    pub rests : k.work ≡ []

  module _ (c : Config) where
    -- The bytes of the stream that llhttp takes in a call, given all that a call may get.
    abbrev pub eaten_by : Verdict → Bytes → Bytes
    eaten_by ok s = s
    eaten_by (paused at) s = take at s
    eaten_by failed s = []

    abbrev pub given : Connection fs ll → Bytes
    given k =
        let size : ℕ = length k.request_buffer in
        let limit : ℕ = c.per_handle_request_size in
        take (if ltb limit size then limit else size) k.request_buffer

    abbrev pub eaten : Task → Connection fs ll → Bytes
    eaten (send p start end) k = []
    eaten handle k =
        if k.is_closed then [] else eaten_by (ll.execute (given k) k.parser).1 (given k)

    module _ (env : Env) (now : fs.World → ℤ) (json : AnswerJson) (id : Bytes) where
      -- The bytes that came from the socket, those that the parser took, and the connection. The runs
      -- are those in which the main thread does not start a `handler` while another thread is about
      -- to look at `_sub_task`.
      pub data Reach : Bytes → Bytes → Connection fs ll → Type 0 where
        fresh : {k : Connection fs ll} → IsFresh k → Reach [] [] k
        received :
            {r p : Bytes} {k : Connection fs ll} (at : Bytes)
            → Reach r p k
            → (k.is_processing || not (has_look k.work)) ≡ true
            → Reach (r ++ at) p (receive fs ll at k)
        ran :
            {r p : Bytes} {k k' : Connection fs ll} (xs ys : List Work) (t : Task)
            → Reach r p k
            → k.work ≡ xs ++ task t ∷ ys
            → run_task fs ll env c now json id t (record k { work = xs ++ ys }) ≡ some k'
            → Reach r (p ++ eaten t k) k'
        ended :
            {r p : Bytes} {k : Connection fs ll} (xs ys : List Work) (n : ℕ)
            → Reach r p k
            → k.work ≡ xs ++ parsed n ∷ ys
            → Reach r p (handler_end fs ll n (record k { work = xs ++ ys }))
        looked :
            {r p : Bytes} {k : Connection fs ll} (xs ys : List Work)
            → Reach r p k
            → k.work ≡ xs ++ looking ∷ ys
            → Reach r p (hand_over fs ll (record k { work = xs ++ ys }))
        closed :
            {r p : Bytes} {k : Connection fs ll}
            → Reach r p k
            → Reach r p (record k { is_closed = true })
        replied :
            {r p : Bytes} {k : Connection fs ll} (n : ℕ)
            → Reach r p k
            → Reach r p (record k {
              session = record k.session { response_buffer = drop n k.session.response_buffer };
            })
        elsewhere :
            {r p : Bytes} {k : Connection fs ll} (d : DataManager) (w : fs.World)
            → Reach r p k
            → Reach r p (record k {
              session = record k.session {
                parse = record k.session.parse { manager = d; world = w };
              };
            })
