-- ===== src/Server/Connections.antt =====
-- cloud_backup_server.hpp: the connections of the table, through all operations of the main thread.
use cloud_backup_system.Sockets.{
  Clients, Os, Result, again, at_fd, broken, done, erase_fd, interrupted, put_fd,
}
use cloud_backup_system.Common.{
  ℕ, ◌≡◌, refl, true, false, none, some, List, [], ◌∷◌, Bytes, ◌==◌, if◌then◌else◌, drop, arith,
  Bool-cases, Option-cases, inl, inr, ==_iff, ◌∙◌, ℤ, pos, negsuc,
}
use cloud_backup_system.Path.{is_empty}
use cloud_backup_system.Server.{
  Table, use_time, identifier_of, net_excepter, read_loop, net_reader, write_loop, net_writer, act,
  act_on, is_current,
}

module _ {V : Type 0} where
  pub at_fd-put_fd :
      (k j : ℕ) (v : V) (m : List (ℕ × V))
      → at_fd j (put_fd k v m) ≡ (if k == j then some v else at_fd j m)
  at_fd-put_fd k j v [] = refl
  at_fd-put_fd k j v ((i, w) ∷ m) = ground (arith, at_fd-put_fd k j v m)

  pub at_fd-erase_fd :
      (k j : ℕ) (m : List (ℕ × V)) → at_fd j (erase_fd k m) ≡ (if k == j then none else at_fd j m)
  at_fd-erase_fd k j [] = ground arith
  at_fd-erase_fd k j ((i, w) ∷ m) = ground (arith, at_fd-erase_fd k j m)

-- What the operations on a connection do to its name and to its mark.
pub record Laws (cl : Clients) : Type 0 where
  pub made : (id : Bytes) → cl.identifier (cl.make id) ≡ id
  pub open_made : (id : Bytes) → cl.is_closed (cl.make id) ≡ false
  pub received : (at : Bytes) (k : cl.Client) → cl.identifier (cl.receive at k) ≡ cl.identifier k
  pub open_received : (at : Bytes) (k : cl.Client) → cl.is_closed (cl.receive at k) ≡ cl.is_closed k
  pub sent : (r : Bytes) (k : cl.Client) → cl.identifier (cl.set_response r k) ≡ cl.identifier k
  pub open_sent : (r : Bytes) (k : cl.Client) → cl.is_closed (cl.set_response r k) ≡ cl.is_closed k
  pub closes : (k : cl.Client) → cl.is_closed (cl.close k) ≡ true

module _ (os : Os) (cl : Clients) (laws : Laws cl) where
  open cl use {Client}

  -- A connection that the table holds for `fd`.
  abbrev Proper : ℕ → ℕ → Client → Type 0
  Proper fd t k = (cl.identifier k ≡ identifier_of fd t) × (cl.is_closed k ≡ false)

  -- The connections of the table carry their descriptor and its time of use, and are open.
  pub record IsProper (s : Table os cl) : Type 0 where
    pub proper :
        (fd : ℕ) (k : Client)
        → at_fd fd s.connections ≡ some k
        → (cl.identifier k ≡ identifier_of fd (use_time os cl fd s)) × (cl.is_closed k ≡ false)

  -- A connection is replaced by one with the same name and mark.
  pub replaced :
      (fd : ℕ) (k : Client) (w : os.World) (s : Table os cl)
      → IsProper s
      → Proper fd (use_time os cl fd s) k
      → IsProper (record s { connections = put_fd fd k s.connections; world = w })
  replaced fd k w s v good = record {
    proper = λ j k' e.
        let found : (if fd == j then some k else at_fd j s.connections) ≡ some k' =
          rw (at_fd-put_fd fd j k s.connections) at e in
        elim (Bool-cases (fd == j)) [
          | inl e' ↦
              let same_fd : fd ≡ j = (==_iff fd j).0 e' in
              let same : k ≡ k' = ground (arith, found, e') in rw (← same_fd, ← same) good
          | inr e' ↦ v.proper j k' (rw e' at found)
        ];
  }

  net_excepter-IsProper :
      (fd : ℕ) (s : Table os cl) → IsProper s → IsProper (net_excepter os cl fd s)
  unfolding net_excepter
  net_excepter-IsProper fd s v = elim (Option-cases (at_fd fd s.connections)) [
    | inl e ↦ rw (e, net_excepter) (record { proper = v.proper })
    | inr (k, e) ↦
        rw (e, net_excepter)
          (record {
            proper = λ j k' e'.
                let m = put_fd fd (cl.close k) s.connections in
                let erased : (if fd == j then none else at_fd j m) ≡ some k' =
                  rw (at_fd-erase_fd fd j m) at e' in
                let found : (if fd == j then none else at_fd j s.connections) ≡ some k' =
                  ground (arith, erased, at_fd-put_fd fd j (cl.close k) s.connections) in
                v.proper j k' (ground (arith, found));
          })
  ]

  read_loop-IsProper :
      (fd : ℕ) (k : Client) (rs : List (Result Bytes)) (s : Table os cl)
      → IsProper s
      → Proper fd (use_time os cl fd s) k
      → IsProper (read_loop os cl fd k rs s)
  unfolding read_loop
  read_loop-IsProper fd k [] s v good = v
  read_loop-IsProper fd k (again ∷ rs) s v good = v
  read_loop-IsProper fd k (interrupted ∷ rs) s v good = read_loop-IsProper fd k rs s v good
  read_loop-IsProper fd k (broken ∷ rs) s v good = net_excepter-IsProper fd s v
  read_loop-IsProper fd k (done [] ∷ rs) s v good = net_excepter-IsProper fd s v
  read_loop-IsProper fd k (done (c ∷ at) ∷ rs) s v (name, open_yet) =
      let k' = cl.receive (c ∷ at) k in
      let good : Proper fd (use_time os cl fd s) k' =
        (laws.received (c ∷ at) k ∙ name, laws.open_received (c ∷ at) k ∙ open_yet) in
      read_loop-IsProper fd k' rs (record s { connections = put_fd fd k' s.connections })
        (replaced fd k' s.world s v good) good

  write_loop-IsProper :
      (fd : ℕ) (k : Client) (rs : List (Result ℕ)) (s : Table os cl)
      → IsProper s
      → Proper fd (use_time os cl fd s) k
      → IsProper (write_loop os cl fd k rs s)
  unfolding write_loop
  write_loop-IsProper fd k [] s v good = v
  write_loop-IsProper fd k (again ∷ rs) s v good = v
  write_loop-IsProper fd k (interrupted ∷ rs) s v good = write_loop-IsProper fd k rs s v good
  write_loop-IsProper fd k (broken ∷ rs) s v good = net_excepter-IsProper fd s v
  write_loop-IsProper fd k (done n ∷ rs) s v (name, open_yet) =
      let rest = drop n (cl.response k) in
      replaced fd (cl.set_response rest k) _ s v
        (laws.sent rest k ∙ name, laws.open_sent rest k ∙ open_yet)

  pub net_reader-IsProper :
      (fd : ℕ) (s : Table os cl) → IsProper s → IsProper (net_reader os cl fd s)
  unfolding net_reader
  net_reader-IsProper fd s v = elim (Option-cases (at_fd fd s.connections)) [
    | inl e ↦ rw (e, net_reader) v
    | inr (k, e) ↦
        let (results, w) = os.read fd s.world in
        rw (e, net_reader)
          (read_loop-IsProper fd k results (record s { world = w }) (record { proper = v.proper })
            (v.proper fd k e))
  ]

  pub net_writer-IsProper :
      (fd : ℕ) (s : Table os cl) → IsProper s → IsProper (net_writer os cl fd s)
  unfolding net_writer
  net_writer-IsProper fd s v = elim (Option-cases (at_fd fd s.connections)) [
    | inl e ↦ rw (e, net_writer) v
    | inr (k, e) ↦ elim (Bool-cases (is_empty (cl.response k))) [
      | inl empty ↦ rw (e, empty, net_writer) v
      | inr filled ↦
          let (results, w) = os.write fd (cl.response k) s.world in
          rw (e, filled, net_writer)
            (write_loop-IsProper fd k results (record s { world = w })
              (record { proper = v.proper }) (v.proper fd k e))
    ]
  ]

  act-IsProper : (op fd : ℕ) (s : Table os cl) → IsProper s → IsProper (act os cl op fd s)
  unfolding act
  act-IsProper op fd s v = elim (Bool-cases (op == b'r')) [
    | inl e ↦ rw e (net_reader-IsProper fd s v)
    | inr e ↦ elim (Bool-cases (op == b'w')) [
      | inl e' ↦ rw (e, e') (net_writer-IsProper fd s v)
      | inr e' ↦ elim (Bool-cases (op == b'c')) [
        | inl e'' ↦ rw (e, e', e'') (net_excepter-IsProper fd s v)
        | inr e'' ↦ rw (e, e', e'') v
      ]
    ]
  ]

  pub act_on-IsProper :
      (op : ℕ) (fd t : ℤ) (s : Table os cl) → IsProper s → IsProper (act_on os cl op fd t s)
  unfolding act_on
  act_on-IsProper op (negsuc fd) t s v = v
  act_on-IsProper op (pos fd) t s v = elim (Bool-cases (is_current os cl fd t s)) [
    | inl e ↦ rw e (act-IsProper op fd s v)
    | inr e ↦ rw e v
  ]
