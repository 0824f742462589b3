-- ===== src/Server/Loop.antt =====
-- cloud_backup_server.hpp, Dispatcher, and util.hpp, EpollBlockWait: the loop around a round of events.
use cloud_backup_system.Common.{
  ℕ, ◌≡◌, refl, sym, ◌∙◌, true, false, Option, none, some, ◌>>=◌, List, [], ◌∷◌, ◌++◌, ℤ, pos,
  ltb_ℤ, if◌then◌else◌, arith, Bool-cases, Option-cases, inl, inr,
}
use cloud_backup_system.Sockets.{Clients, Os, Ready}
use cloud_backup_system.Server.{Server, handle_ready, dispatch}
use cloud_backup_system.Server.Connections.{Laws, IsProper}
use cloud_backup_system.Server.Dispatch.{dispatch-IsProper}

-- A return of `epoll_wait`: it failed, or gave the events that are ready.
pub data Wait : Type 0 where
  failed : Wait
  ready : List Ready → Wait

-- EpollBlockWait of an array of events of this length: without room no call is made. `none` is -1.
unfoldable pub epoll_block_wait : ℤ → Wait → Option (List Ready)
epoll_block_wait maxevents failed = none
epoll_block_wait maxevents (ready es) = if ltb_ℤ (pos 0) maxevents then some es else none

abbrev pub all_ready : List Wait → List Ready
all_ready [] = []
all_ready (failed ∷ ws) = all_ready ws
all_ready (ready es ∷ ws) = es ++ all_ready ws

module _ (os : Os) (cl : Clients) (listen_fd pipe_fd : ℕ) (maxevents : ℤ) where
  -- A round of the loop of Dispatcher.
  unfoldable pub dispatcher_round : Wait → Server os cl → Option (Server os cl)
  unfolding epoll_block_wait dispatch
  dispatcher_round r s = elim (epoll_block_wait maxevents r) [
    | none ↦ some s
    | some es ↦ dispatch os cl listen_fd pipe_fd es s
  ]

  -- The rounds so far; the loop has no end.
  unfoldable pub dispatcher : List Wait → Server os cl → Option (Server os cl)
  unfolding dispatcher_round
  dispatcher [] s = some s
  dispatcher (r ∷ ws) s = do s' ← dispatcher_round r s; dispatcher ws s'

  dispatch-append :
      (es es' : List Ready) (s : Server os cl)
      → dispatch os cl listen_fd pipe_fd (es ++ es') s
        ≡ (dispatch os cl listen_fd pipe_fd es s >>= dispatch os cl listen_fd pipe_fd es')
  unfolding dispatch
  dispatch-append [] es' s = refl
  dispatch-append (e ∷ es) es' s = elim (Option-cases (handle_ready os cl listen_fd pipe_fd e s)) [
    | inl f ↦ rw f refl
    | inr (u, f) ↦ rw f (dispatch-append es es' u)
  ]

  round-room :
      (es : List Ready) (s : Server os cl)
      → ltb_ℤ (pos 0) maxevents ≡ true
      → dispatcher_round (ready es) s ≡ dispatch os cl listen_fd pipe_fd es s
  unfolding dispatcher_round epoll_block_wait
  round-room es s e = rw (e, dispatcher_round) refl

  round-no_room :
      (es : List Ready) (s : Server os cl)
      → ltb_ℤ (pos 0) maxevents ≡ false
      → dispatcher_round (ready es) s ≡ some s
  unfolding dispatcher_round epoll_block_wait
  round-no_room es s e = rw (e, dispatcher_round) refl

  dispatcher-room :
      (ws : List Wait) (s : Server os cl)
      → ltb_ℤ (pos 0) maxevents ≡ true
      → dispatcher ws s ≡ dispatch os cl listen_fd pipe_fd (all_ready ws) s
  unfolding dispatcher dispatcher_round epoll_block_wait dispatch
  dispatcher-room [] s e = refl
  dispatcher-room (failed ∷ ws) s e = dispatcher-room ws s e
  dispatcher-room (ready es ∷ ws) s e =
      rw (round-room es s e, dispatch-append es (all_ready ws) s)
        (elim (Option-cases (dispatch os cl listen_fd pipe_fd es s)) [
          | inl f ↦ rw f refl
          | inr (u, f) ↦ rw f (dispatcher-room ws u e)
        ])

  dispatcher-no_room :
      (ws : List Wait) (s : Server os cl)
      → ltb_ℤ (pos 0) maxevents ≡ false
      → dispatcher ws s ≡ some s
  unfolding dispatcher dispatcher_round epoll_block_wait
  dispatcher-no_room [] s e = refl
  dispatcher-no_room (failed ∷ ws) s e = dispatcher-no_room ws s e
  dispatcher-no_room (ready es ∷ ws) s e = rw (round-no_room es s e) (dispatcher-no_room ws s e)

  module _ (laws : Laws cl) where
    -- If the operations on a connection keep its name, and only `close` marks it as closed, then
    -- after any number of rounds of the loop, where no exception is thrown, each connection of the
    -- table has the name made of its descriptor and the descriptor's time of use and is open.
    pub dispatcher-IsProper :
        (ws : List Wait) (s s' : Server os cl)
        → IsProper os cl laws s.table
        → dispatcher ws s ≡ some s'
        → IsProper os cl laws s'.table
    dispatcher-IsProper ws s s' v h = elim (Bool-cases (ltb_ℤ (pos 0) maxevents)) [
      | inl e ↦
          dispatch-IsProper os cl laws listen_fd pipe_fd (all_ready ws) s s' v
            (sym (dispatcher-room ws s e) ∙ h)
      | inr e ↦
          let same : some s ≡ some s' = sym (dispatcher-no_room ws s e) ∙ h in
          let same' : s ≡ s' = ground (arith, same) in rw (← same') v
    ]
