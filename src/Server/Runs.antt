-- ===== src/Server/Runs.antt =====
-- cloud_backup_server.hpp: new connections and messages, and the tables that the main thread comes to.
use cloud_backup_system.Sockets.{Clients, Os, at_fd, put_fd}
use cloud_backup_system.Common.{
  ltb, stoi, ℕ, ◌+◌, ◌%◌, ◌≡◌, refl, true, none, some, [], ◌++◌, ◌∷◌, Bytes, ◌==◌, if◌then◌else◌,
  length, arith, Bool-cases, Option-cases, inl, inr, ==_iff, ◌∙◌,
}
use cloud_backup_system.Server.{
  Table, use_time, identifier_of, add_connection, net_reader, net_writer, act_on, handle_message,
  at_underscore, held_at,
}
use cloud_backup_system.Server.Gone.{
  all_closed, add_connection-all_closed, net_reader-all_closed, net_writer-all_closed,
  handle_message-all_closed,
}
use cloud_backup_system.Server.Connections.{
  at_fd-put_fd, Laws, IsProper, replaced, net_reader-IsProper, net_writer-IsProper, act_on-IsProper,
}

module _ (os : Os) (cl : Clients) (laws : Laws cl) where
  open cl use {Client}

  pub handle_message-IsProper :
      (m : Bytes) (s s' : Table os cl)
      → IsProper os cl laws s
      → handle_message os cl m s ≡ some s'
      → IsProper os cl laws s'
  unfolding handle_message
  handle_message-IsProper [] s s' v h = let same : s ≡ s' = ground (arith, h) in rw (← same) v
  handle_message-IsProper (op ∷ id) s s' v h = elim (Bool-cases (ltb (length (op ∷ id)) 4)) [
    | inl e ↦ let same : s ≡ s' = ground (arith, h, e) in rw (← same) v
    | inr e ↦ elim (Option-cases (at_underscore id)) [
      | inl e' ↦ let same : s ≡ s' = ground (arith, h, e, e') in rw (← same) v
      | inr ((a, b), e') ↦ elim (Option-cases (stoi a)) [
        | inl f ↦ absurd (ground (arith, h, e, e', f))
        | inr (fd, f) ↦ elim (Option-cases (stoi b)) [
          | inl g ↦ absurd (ground (arith, h, e, e', f, g))
          | inr (t, g) ↦
              let same : act_on os cl op fd t s ≡ s' = ground (arith, h, e, e', f, g) in
              rw (← same) (act_on-IsProper os cl laws op fd t s v)
        ]
      ]
    ]
  ]

  added :
      (fd : ℕ) (w : os.World) (s : Table os cl) (t : ℕ)
      → IsProper os cl laws s
      → IsProper os cl laws (record s {
        use_times = put_fd fd t s.use_times;
        connections = put_fd fd (cl.make (identifier_of fd t)) s.connections;
        gone = held_at os cl fd s.connections ++ s.gone;
        world = w;
      })
  added fd w s t v = record {
    proper = λ j k' e.
        let k = cl.make (identifier_of fd t) in
        let found : (if fd == j then some k else at_fd j s.connections) ≡ some k' =
          rw (at_fd-put_fd fd j k s.connections) at e in
        let new : Table os cl = record s {
          use_times = put_fd fd t s.use_times;
          connections = put_fd fd k s.connections;
          gone = held_at os cl fd s.connections ++ s.gone;
          world = w;
        } in
        let times : use_time os cl j new ≡ (if fd == j then t else use_time os cl j s) =
          ground (arith, at_fd-put_fd fd j t s.use_times) in
        elim (Bool-cases (fd == j)) [
          | inl e' ↦
              let same_fd : fd ≡ j = (==_iff fd j).0 e' in
              let same : k ≡ k' = ground (arith, found, e') in
              rw (times, e', ← same_fd, ← same)
                (laws.made (identifier_of fd t), laws.open_made (identifier_of fd t))
          | inr e' ↦ rw (times, e') (v.proper j k' (rw e' at found))
        ];
  }

  pub add_connection-IsProper :
      (fd : ℕ) (s : Table os cl)
      → IsProper os cl laws s
      → IsProper os cl laws (add_connection os cl fd s)
  unfolding add_connection
  add_connection-IsProper fd s v =
      let (blocks_not, w) = os.set_non_block fd s.world in
      let (in_epoll, w') = os.epoll_add fd w in
      elim (Bool-cases blocks_not) [
        | inr e ↦ rw (e, add_connection) (record { proper = v.proper })
        | inl e ↦ elim (Bool-cases in_epoll) [
          | inr e' ↦ rw (e, e', add_connection) (record { proper = v.proper })
          | inl e' ↦
              rw (e, e', add_connection) (added fd w' s ((use_time os cl fd s + 1) % 10000) v)
        ]
      ]

  -- The tables that the main thread comes to: a connection is accepted under a descriptor that no
  -- connection of the table has, a socket can be read or written, or a message comes; a task changes a connection, but not its name or its mark.
  pub data Reached : Table os cl → Type 0 where
    started :
        (w : os.World) → Reached (record { use_times = []; connections = []; gone = []; world = w })
    accepted :
        {s : Table os cl} (fd : ℕ)
        → Reached s
        → at_fd fd s.connections ≡ none
        → Reached (add_connection os cl fd s)
    readable : {s : Table os cl} (fd : ℕ) → Reached s → Reached (net_reader os cl fd s)
    writable : {s : Table os cl} (fd : ℕ) → Reached s → Reached (net_writer os cl fd s)
    told :
        {s s' : Table os cl} (m : Bytes)
        → Reached s
        → handle_message os cl m s ≡ some s'
        → Reached s'
    worked :
        {s : Table os cl} (fd : ℕ) (k k' : Client)
        → Reached s
        → at_fd fd s.connections ≡ some k
        → cl.identifier k' ≡ cl.identifier k
        → cl.is_closed k' ≡ cl.is_closed k
        → Reached (record s { connections = put_fd fd k' s.connections })

  Reached-proper : (s : Table os cl) → Reached s → IsProper os cl laws s
  Reached-proper _ (started w) = record { proper = λ fd k e. cc }
  Reached-proper _ (accepted {s} fd h free) = add_connection-IsProper fd s (Reached-proper s h)
  Reached-proper _ (readable {s} fd h) = net_reader-IsProper os cl laws fd s (Reached-proper s h)
  Reached-proper _ (writable {s} fd h) = net_writer-IsProper os cl laws fd s (Reached-proper s h)
  Reached-proper _ (told {s} {s'} m h e) = handle_message-IsProper m s s' (Reached-proper s h) e
  Reached-proper _ (worked {s} fd k k' h e same_name same_mark) =
      let v = Reached-proper s h in
      let (name, open_yet) = v.proper fd k e in
      replaced os cl laws fd k' s.world s v (same_name ∙ name, same_mark ∙ open_yet)

  Reached-all_closed : (s : Table os cl) → Reached s → all_closed os cl s.gone ≡ true
  Reached-all_closed _ (started w) = refl
  Reached-all_closed _ (accepted {s} fd h free) =
      add_connection-all_closed os cl fd s free (Reached-all_closed s h)
  Reached-all_closed _ (readable {s} fd h) =
      net_reader-all_closed os cl laws fd s (Reached-all_closed s h)
  Reached-all_closed _ (writable {s} fd h) =
      net_writer-all_closed os cl laws fd s (Reached-all_closed s h)
  Reached-all_closed _ (told {s} {s'} m h e) =
      handle_message-all_closed os cl laws m s s' (Reached-all_closed s h) e
  Reached-all_closed _ (worked {s} fd k k' h e same_name same_mark) = Reached-all_closed s h

  -- If the operations on a connection keep its name, and only `close` marks it as closed, and `accept`
  -- gives descriptors that no connection of the table has, then after any operations of the main
  -- thread each connection of the table has the name made of its descriptor and the descriptor's time
  -- of use and is open, and each that an assignment or an erase has dropped from the table was closed
  -- then.
  pub Reached-IsProper :
      (s : Table os cl) → Reached s → IsProper os cl laws s × (all_closed os cl s.gone ≡ true)
  Reached-IsProper s h = (Reached-proper s h, Reached-all_closed s h)
