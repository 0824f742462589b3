-- ===== src/Server/Gone.antt =====
-- cloud_backup_server.hpp: the connections that operations of the main thread drop from the table.
use cloud_backup_system.Sockets.{
  Clients, Os, Result, again, at_fd, broken, done, interrupted, put_fd,
}
use cloud_backup_system.Common.{
  ℕ, ◌≡◌, Bool, true, ◌&&◌, none, some, List, [], ◌∷◌, Bytes, ◌==◌, ltb, stoi, length, arith,
  Bool-cases, Option-cases, inl, inr, ℤ, pos, negsuc,
}
use cloud_backup_system.Path.{is_empty}
use cloud_backup_system.Server.{
  Table, add_connection, net_excepter, read_loop, net_reader, write_loop, net_writer, act, act_on,
  is_current, handle_message, at_underscore, held_at,
}
use cloud_backup_system.Server.Connections.{Laws, at_fd-put_fd}

module _ (os : Os) (cl : Clients) where
  open cl use {Client}

  abbrev pub all_closed : List Client → Bool
  all_closed [] = true
  all_closed (k ∷ ks) = cl.is_closed k && all_closed ks

  pub add_connection-all_closed :
      (fd : ℕ) (s : Table os cl)
      → at_fd fd s.connections ≡ none
      → all_closed s.gone ≡ true
      → all_closed (add_connection os cl fd s).gone ≡ true
  unfolding add_connection
  add_connection-all_closed fd s free h =
      let (blocks_not, w) = os.set_non_block fd s.world in
      let (in_epoll, w') = os.epoll_add fd w in
      elim (Bool-cases blocks_not) [
        | inr e ↦ rw (e, add_connection) h
        | inl e ↦ elim (Bool-cases in_epoll) [
          | inr e' ↦ rw (e, e', add_connection) h
          | inl e' ↦ rw (e, e', add_connection, held_at, free) h
        ]
      ]

  module _ (laws : Laws cl) where
    net_excepter-all_closed :
        (fd : ℕ) (s : Table os cl)
        → all_closed s.gone ≡ true
        → all_closed (net_excepter os cl fd s).gone ≡ true
    unfolding net_excepter
    net_excepter-all_closed fd s h = elim (Option-cases (at_fd fd s.connections)) [
      | inl e ↦ rw (e, net_excepter) h
      | inr (k, e) ↦
          let found : at_fd fd (put_fd fd (cl.close k) s.connections) ≡ some (cl.close k) =
            ground (arith, at_fd-put_fd fd fd (cl.close k) s.connections) in
          rw (e, net_excepter, found, held_at, laws.closes k) h
    ]

    read_loop-all_closed :
        (fd : ℕ) (k : Client) (rs : List (Result Bytes)) (s : Table os cl)
        → all_closed s.gone ≡ true
        → all_closed (read_loop os cl fd k rs s).gone ≡ true
    unfolding read_loop
    read_loop-all_closed fd k [] s h = h
    read_loop-all_closed fd k (again ∷ rs) s h = h
    read_loop-all_closed fd k (interrupted ∷ rs) s h = read_loop-all_closed fd k rs s h
    read_loop-all_closed fd k (broken ∷ rs) s h = net_excepter-all_closed fd s h
    read_loop-all_closed fd k (done [] ∷ rs) s h = net_excepter-all_closed fd s h
    read_loop-all_closed fd k (done (c ∷ at) ∷ rs) s h =
        read_loop-all_closed fd (cl.receive (c ∷ at) k) rs _ h

    write_loop-all_closed :
        (fd : ℕ) (k : Client) (rs : List (Result ℕ)) (s : Table os cl)
        → all_closed s.gone ≡ true
        → all_closed (write_loop os cl fd k rs s).gone ≡ true
    unfolding write_loop
    write_loop-all_closed fd k [] s h = h
    write_loop-all_closed fd k (again ∷ rs) s h = h
    write_loop-all_closed fd k (interrupted ∷ rs) s h = write_loop-all_closed fd k rs s h
    write_loop-all_closed fd k (broken ∷ rs) s h = net_excepter-all_closed fd s h
    write_loop-all_closed fd k (done n ∷ rs) s h = h

    pub net_reader-all_closed :
        (fd : ℕ) (s : Table os cl)
        → all_closed s.gone ≡ true
        → all_closed (net_reader os cl fd s).gone ≡ true
    unfolding net_reader
    net_reader-all_closed fd s h = elim (Option-cases (at_fd fd s.connections)) [
      | inl e ↦ rw (e, net_reader) h
      | inr (k, e) ↦
          let (results, w) = os.read fd s.world in
          rw (e, net_reader) (read_loop-all_closed fd k results (record s { world = w }) h)
    ]

    pub net_writer-all_closed :
        (fd : ℕ) (s : Table os cl)
        → all_closed s.gone ≡ true
        → all_closed (net_writer os cl fd s).gone ≡ true
    unfolding net_writer
    net_writer-all_closed fd s h = elim (Option-cases (at_fd fd s.connections)) [
      | inl e ↦ rw (e, net_writer) h
      | inr (k, e) ↦ elim (Bool-cases (is_empty (cl.response k))) [
        | inl empty ↦ rw (e, empty, net_writer) h
        | inr filled ↦
            let (results, w) = os.write fd (cl.response k) s.world in
            rw (e, filled, net_writer)
              (write_loop-all_closed fd k results (record s { world = w }) h)
      ]
    ]

    act-all_closed :
        (op fd : ℕ) (s : Table os cl)
        → all_closed s.gone ≡ true
        → all_closed (act os cl op fd s).gone ≡ true
    unfolding act
    act-all_closed op fd s h = elim (Bool-cases (op == b'r')) [
      | inl e ↦ rw e (net_reader-all_closed fd s h)
      | inr e ↦ elim (Bool-cases (op == b'w')) [
        | inl e' ↦ rw (e, e') (net_writer-all_closed fd s h)
        | inr e' ↦ elim (Bool-cases (op == b'c')) [
          | inl e'' ↦ rw (e, e', e'') (net_excepter-all_closed fd s h)
          | inr e'' ↦ rw (e, e', e'') h
        ]
      ]
    ]

    act_on-all_closed :
        (op : ℕ) (fd t : ℤ) (s : Table os cl)
        → all_closed s.gone ≡ true
        → all_closed (act_on os cl op fd t s).gone ≡ true
    unfolding act_on
    act_on-all_closed op (negsuc fd) t s h = h
    act_on-all_closed op (pos fd) t s h = elim (Bool-cases (is_current os cl fd t s)) [
      | inl e ↦ rw e (act-all_closed op fd s h)
      | inr e ↦ rw e h
    ]

    pub handle_message-all_closed :
        (m : Bytes) (s s' : Table os cl)
        → all_closed s.gone ≡ true
        → handle_message os cl m s ≡ some s'
        → all_closed s'.gone ≡ true
    unfolding handle_message
    handle_message-all_closed [] s s' v h = let same : s ≡ s' = ground (arith, h) in rw (← same) v
    handle_message-all_closed (op ∷ id) s s' v h = elim (Bool-cases (ltb (length (op ∷ id)) 4)) [
      | inl e ↦ let same : s ≡ s' = ground (arith, h, e) in rw (← same) v
      | inr e ↦ elim (Option-cases (at_underscore id)) [
        | inl e' ↦ let same : s ≡ s' = ground (arith, h, e, e') in rw (← same) v
        | inr ((a, b), e') ↦ elim (Option-cases (stoi a)) [
          | inl f ↦ absurd (ground (arith, h, e, e', f))
          | inr (fd, f) ↦ elim (Option-cases (stoi b)) [
            | inl g ↦ absurd (ground (arith, h, e, e', f, g))
            | inr (t, g) ↦
                let same : act_on os cl op fd t s ≡ s' = ground (arith, h, e, e', f, g) in
                rw (← same) (act_on-all_closed op fd t s v)
          ]
        ]
      ]
    ]
