-- ===== src/Server/Dispatch.antt =====
-- cloud_backup_server.hpp, Dispatcher: the connections of the table through the events of a round.
use cloud_backup_system.Sockets.{Clients, Os, Ready, Result, again, broken, done, interrupted}
use cloud_backup_system.Common.{
  ℕ, ◌≡◌, ◌&&◌, some, List, [], ◌∷◌, Bytes, ◌==◌, if◌then◌else◌, arith, Bool-cases, Option-cases,
  inl, inr,
}
use cloud_backup_system.Server.{
  Table, Server, with_world, messages, accepter, net_reader, net_writer, handle_message,
  handle_messages, read_pipe, pipe_data_handler, pipe_data_reader, handle_ready, dispatch,
}
use cloud_backup_system.Server.Connections.{
  Laws, IsProper, net_reader-IsProper, net_writer-IsProper,
}
use cloud_backup_system.Server.Runs.{add_connection-IsProper, handle_message-IsProper}

module _ (os : Os) (cl : Clients) (laws : Laws cl) where
  accepter-IsProper :
      (rs : List (Result ℕ)) (t : Table os cl)
      → IsProper os cl laws t
      → IsProper os cl laws (accepter os cl rs t)
  unfolding accepter
  accepter-IsProper [] t v = v
  accepter-IsProper (again ∷ rs) t v = v
  accepter-IsProper (interrupted ∷ rs) t v = accepter-IsProper rs t v
  accepter-IsProper (broken ∷ rs) t v = accepter-IsProper rs t v
  accepter-IsProper (done fd ∷ rs) t v =
      accepter-IsProper rs _ (add_connection-IsProper os cl laws fd t v)

  handle_messages-IsProper :
      (ms : List Bytes) (t t' : Table os cl)
      → IsProper os cl laws t
      → handle_messages os cl ms t ≡ some t'
      → IsProper os cl laws t'
  unfolding handle_messages
  handle_messages-IsProper [] t t' v h = let same : t ≡ t' = ground (arith, h) in rw (← same) v
  handle_messages-IsProper (m ∷ ms) t t' v h = elim (Option-cases (handle_message os cl m t)) [
    | inl e ↦ absurd (ground (arith, h, e))
    | inr (u, e) ↦
        handle_messages-IsProper ms u t' (handle_message-IsProper os cl laws m t u v e)
          (ground (arith, h, e))
  ]

  read_pipe-IsProper :
      (fd : ℕ) (rs : List (Result Bytes)) (s : Server os cl)
      → IsProper os cl laws s.table
      → IsProper os cl laws (read_pipe os cl fd rs s).table
  unfolding read_pipe
  read_pipe-IsProper fd [] s v = v
  read_pipe-IsProper fd (again ∷ rs) s v = v
  read_pipe-IsProper fd (interrupted ∷ rs) s v = read_pipe-IsProper fd rs s v
  read_pipe-IsProper fd (broken ∷ rs) s v = v
  read_pipe-IsProper fd (done [] ∷ rs) s v = record { proper = v.proper }
  read_pipe-IsProper fd (done (c ∷ at) ∷ rs) s v = read_pipe-IsProper fd rs _ v

  pipe_data_reader-IsProper :
      (fd : ℕ) (rs : List (Result Bytes)) (s s' : Server os cl)
      → IsProper os cl laws s.table
      → pipe_data_reader os cl fd rs s ≡ some s'
      → IsProper os cl laws s'.table
  unfolding pipe_data_reader pipe_data_handler
  pipe_data_reader-IsProper fd rs s s' v h =
      let s0 = read_pipe os cl fd rs s in
      let v0 : IsProper os cl laws s0.table = read_pipe-IsProper fd rs s v in
      elim (Option-cases (handle_messages os cl (messages s0.read_pipe_buffer).0 s0.table)) [
        | inl e ↦ absurd (ground (arith, h, e))
        | inr (t, e) ↦
            let same : t ≡ s'.table = ground (arith, h, e) in
            rw (← same) (handle_messages-IsProper (messages s0.read_pipe_buffer).0 s0.table t v0 e)
      ]

  module _ (listen_fd pipe_fd : ℕ) where
    handle_ready-IsProper :
        (e : Ready) (s s' : Server os cl)
        → IsProper os cl laws s.table
        → handle_ready os cl listen_fd pipe_fd e s ≡ some s'
        → IsProper os cl laws s'.table
    unfolding handle_ready
    handle_ready-IsProper e s s' v h =
        let t = s.table in
        elim (Bool-cases (e.fd == listen_fd)) [
          | inl here ↦ elim (Bool-cases e.readable) [
            | inl r ↦
                let (results, w) = os.accept t.world in
                let t' = with_world os cl listen_fd pipe_fd w t in
                let same : accepter os cl results t' ≡ s'.table = ground (arith, h, here, r) in
                rw (← same) (accepter-IsProper results t' (record { proper = v.proper }))
            | inr r ↦ let same : t ≡ s'.table = ground (arith, h, here, r) in rw (← same) v
          ]
          | inr other ↦ elim (Bool-cases (s.is_pipe_open && (e.fd == pipe_fd))) [
            | inl pipe ↦ elim (Bool-cases e.readable) [
              | inl r ↦
                  let (results, w) = os.read pipe_fd t.world in
                  let s0 : Server os cl = record s {
                    table = with_world os cl listen_fd pipe_fd w t;
                  } in
                  pipe_data_reader-IsProper pipe_fd results s0 s' (record { proper = v.proper })
                    (ground (arith, h, other, pipe, r))
              | inr r ↦ let same : t ≡ s'.table = ground (arith, h, other, pipe, r) in rw (← same) v
            ]
            | inr socket ↦
                let t' : Table os cl = if e.readable then net_reader os cl e.fd t else t in
                let v' : IsProper os cl laws t' = elim (Bool-cases e.readable) [
                  | inl r ↦ rw r (net_reader-IsProper os cl laws e.fd t v)
                  | inr r ↦ rw r v
                ] in
                elim (Bool-cases e.writable) [
                  | inl w ↦
                      let same : net_writer os cl e.fd t' ≡ s'.table =
                        ground (arith, h, other, socket, w) in
                      rw (← same) (net_writer-IsProper os cl laws e.fd t' v')
                  | inr w ↦
                      let same : t' ≡ s'.table = ground (arith, h, other, socket, w) in
                      rw (← same) v'
                ]
          ]
        ]

    -- If the operations on a connection keep its name, and only `close` marks it as closed, then the
    -- handling of any events that `epoll_wait` reports, where it throws no exception, keeps that each
    -- connection of the table has the name made of its descriptor and the descriptor's time of use
    -- and is open.
    pub dispatch-IsProper :
        (es : List Ready) (s s' : Server os cl)
        → IsProper os cl laws s.table
        → dispatch os cl listen_fd pipe_fd es s ≡ some s'
        → IsProper os cl laws s'.table
    unfolding dispatch
    dispatch-IsProper [] s s' v h = let same : s ≡ s' = ground (arith, h) in rw (← same) v
    dispatch-IsProper (e ∷ es) s s' v h =
        elim (Option-cases (handle_ready os cl listen_fd pipe_fd e s)) [
          | inl f ↦ absurd (ground (arith, h, f))
          | inr (u, f) ↦
              dispatch-IsProper es u s' (handle_ready-IsProper e s u v f) (ground (arith, h, f))
        ]
