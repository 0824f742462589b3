-- ===== src/Server.antt =====
-- cloud_backup_server.hpp, lines 98 to 363: the table of connections of the main thread and the messages
-- that the threads of the pool send it through a pipe. The results of the calls of the operating
-- system are a parameter, and so are the connections, of which the main thread uses an interface.
pub mod Messages
pub mod Connections
pub mod Gone
pub mod Runs
pub mod Dispatch
pub mod Loop
pub mod Wrapped
pub mod Implementation
pub mod Tests
use cloud_backup_system.Common.{
  ℕ, zero, suc, ◌+◌, ◌%◌, Bool, true, false, not, ◌&&◌, ◌||◌, Option, none, some, ◌>>=◌, List, [],
  ◌∷◌, ◌++◌, Bytes, ℤ, pos, negsuc, ltb, ◌==◌, if◌then◌else◌, drop, length, to_string, stoi,
  is_some,
}
use cloud_backup_system.Path.{is_empty}
use cloud_backup_system.Sockets.{
  Clients, Result, again, interrupted, broken, done, Os, Ready, at_fd, put_fd, erase_fd,
}

-- The text before the last underscore and the text behind it.
abbrev pub at_underscore : Bytes → Option (Bytes × Bytes)
at_underscore [] = none
at_underscore (c ∷ s) = elim (at_underscore s) [
  | some parts ↦ some (c ∷ parts.0, parts.1)
  | none ↦ if c == b'_' then some ([], s) else none
]

-- The texts before commas, and what is left behind the last one.
abbrev pub prepend_to : ℕ → List Bytes × Bytes → List Bytes × Bytes
prepend_to c ([], rest) = ([], c ∷ rest)
prepend_to c (m ∷ ms, rest) = ((c ∷ m) ∷ ms, rest)

abbrev pub messages : Bytes → List Bytes × Bytes
messages [] = ([], [])
messages (c ∷ s) =
    let later = messages s in if c == b',' then ([] ∷ later.0, later.1) else prepend_to c later

abbrev pub until_zero : Bytes → Bytes
until_zero [] = []
until_zero (c ∷ s) = let rest = until_zero s in if c == 0 then [] else c ∷ rest

abbrev pub identifier_of : ℕ → ℕ → Bytes
identifier_of fd use_time = to_string fd ++ b'_' ∷ to_string use_time

module _ (os : Os) (cl : Clients) where
  open cl use {Client}

  -- `gone` are the connections that an assignment or an erase has dropped from the table, as they
  -- were then; the tasks can hold them still.
  pub record Table : Type 0 where
    pub use_times : List (ℕ × ℕ)
    pub connections : List (ℕ × Client)
    pub gone : List Client
    pub world : os.World

  -- The pipe is open until `read` gives nothing: then the reading end is closed, and the descriptors
  -- of both ends are -1, the one that new connections are given included.
  pub record Server : Type 0 where
    pub read_pipe_buffer : Bytes
    pub is_pipe_open : Bool
    pub table : Table

  -- What the table has for a descriptor, if anything.
  abbrev pub held_at : ℕ → List (ℕ × Client) → List Client
  held_at fd m = elim (at_fd fd m) [ none ↦ [] | some k ↦ k ∷ [] ]

  -- `_record_net_fd_use_time[fd]`.
  abbrev pub use_time : ℕ → Table → ℕ
  use_time fd s = elim (at_fd fd s.use_times) [ none ↦ 0 | some t ↦ t ]

  unfoldable pub add_connection : ℕ → Table → Table
  add_connection fd s =
      let (blocks_not, w) = os.set_non_block fd s.world in
      if not blocks_not
      then record s { world = os.close fd w }
      else let (added, w') = os.epoll_add fd w in
        if not added
        then record s { world = os.close fd w' }
        else let t : ℕ = (use_time fd s + 1) % 10000 in
          record s {
            use_times = put_fd fd t s.use_times;
            connections = put_fd fd (cl.make (identifier_of fd t)) s.connections;
            gone = held_at fd s.connections ++ s.gone;
            world = w';
          }

  -- Accepter, given the results of `accept`.
  unfoldable pub accepter : List (Result ℕ) → Table → Table
  unfolding add_connection
  accepter [] s = s
  accepter (again ∷ rs) s = s
  accepter (interrupted ∷ rs) s = accepter rs s
  accepter (broken ∷ rs) s = accepter rs s
  accepter (done fd ∷ rs) s = accepter rs (add_connection fd s)

  -- `_connections.erase(fd)`.
  abbrev pub erase_connection : ℕ → Table → Table
  erase_connection fd s = record s {
    connections = erase_fd fd s.connections;
    gone = held_at fd s.connections ++ s.gone;
  }

  -- The connection is marked in the table before it is erased from it.
  unfoldable pub net_excepter : ℕ → Table → Table
  net_excepter fd s =
      let s' : Table = record s { world = os.epoll_del fd s.world } in
      let left : Table = elim (at_fd fd s.connections) [
        | none ↦ s'
        | some k ↦
            erase_connection fd (record s' { connections = put_fd fd (cl.close k) s.connections })
      ] in
      record left { world = os.close fd left.world }

  unfoldable pub read_loop : ℕ → Client → List (Result Bytes) → Table → Table
  unfolding net_excepter
  read_loop fd k [] s = s
  read_loop fd k (again ∷ rs) s = s
  read_loop fd k (interrupted ∷ rs) s = read_loop fd k rs s
  read_loop fd k (broken ∷ rs) s = net_excepter fd s
  read_loop fd k (done [] ∷ rs) s = net_excepter fd s
  read_loop fd k (done (c ∷ at) ∷ rs) s =
      let k' = cl.receive (c ∷ at) k in
      read_loop fd k' rs (record s { connections = put_fd fd k' s.connections })

  unfoldable pub net_reader : ℕ → Table → Table
  unfolding read_loop
  net_reader fd s = elim (at_fd fd s.connections) [
    | none ↦ s
    | some k ↦
        let (results, w) = os.read fd s.world in read_loop fd k results (record s { world = w })
  ]

  unfoldable pub write_loop : ℕ → Client → List (Result ℕ) → Table → Table
  unfolding net_excepter
  write_loop fd k [] s = s
  write_loop fd k (again ∷ rs) s = s
  write_loop fd k (interrupted ∷ rs) s = write_loop fd k rs s
  write_loop fd k (broken ∷ rs) s = net_excepter fd s
  write_loop fd k (done n ∷ rs) s =
      let rest = drop n (cl.response k) in
      record s {
        connections = put_fd fd (cl.set_response rest k) s.connections;
        world = os.epoll_mod fd (not (is_empty rest)) s.world;
      }

  unfoldable pub net_writer : ℕ → Table → Table
  unfolding write_loop
  net_writer fd s = elim (at_fd fd s.connections) [
    | none ↦ s
    | some k ↦
        if is_empty (cl.response k)
        then s
        else let (results, w) = os.write fd (cl.response k) s.world in
          write_loop fd k results (record s { world = w })
  ]

  unfoldable pub act : ℕ → ℕ → Table → Table
  unfolding net_reader net_writer
  act op fd s =
      if op == b'r'
      then net_reader fd s
      else if op == b'w'
      then net_writer fd s
      else if op == b'c'
      then net_excepter fd s
      else s

  -- A message is for the connection that its descriptor and time of use name.
  abbrev pub is_current : ℕ → ℤ → Table → Bool
  is_current fd (negsuc t) s = false
  is_current fd (pos t) s = is_some (at_fd fd s.connections) && (t == use_time fd s)

  unfoldable pub act_on : ℕ → ℤ → ℤ → Table → Table
  unfolding act
  act_on op (negsuc fd) t s = s
  act_on op (pos fd) t s = if is_current fd t s then act op fd s else s

  -- A round of the loop of PipeDataHandler; `none` is an exception of `stoi`.
  unfoldable pub handle_message : Bytes → Table → Option Table
  unfolding act_on
  handle_message [] s = some s
  handle_message (op ∷ id) s =
      if ltb (length (op ∷ id)) 4 then some s else elim (at_underscore id) [
        | none ↦ some s
        | some parts ↦ do fd ← stoi parts.0; t ← stoi parts.1; some (act_on op fd t s)
      ]

  unfoldable pub handle_messages : List Bytes → Table → Option Table
  unfolding handle_message
  handle_messages [] s = some s
  handle_messages (m ∷ ms) s = do s' ← handle_message m s; handle_messages ms s'

  unfoldable pub pipe_data_handler : Server → Option Server
  unfolding handle_messages
  pipe_data_handler s = do
    t ← handle_messages (messages s.read_pipe_buffer).0 s.table
    some (record s { read_pipe_buffer = (messages s.read_pipe_buffer).1; table = t })

  -- The bytes are appended as a text of C, up to a zero byte. A pipe at its end is closed.
  unfoldable pub read_pipe : ℕ → List (Result Bytes) → Server → Server
  read_pipe pipe_fd [] s = s
  read_pipe pipe_fd (again ∷ rs) s = s
  read_pipe pipe_fd (interrupted ∷ rs) s = read_pipe pipe_fd rs s
  read_pipe pipe_fd (broken ∷ rs) s = s
  read_pipe pipe_fd (done [] ∷ rs) s = record s {
    is_pipe_open = false;
    table = record s.table { world = os.close pipe_fd s.table.world };
  }
  read_pipe pipe_fd (done (c ∷ at) ∷ rs) s =
      read_pipe pipe_fd rs
        (record s { read_pipe_buffer = s.read_pipe_buffer ++ until_zero (c ∷ at) })

  unfoldable pub pipe_data_reader : ℕ → List (Result Bytes) → Server → Option Server
  unfolding read_pipe pipe_data_handler
  pipe_data_reader pipe_fd results s = pipe_data_handler (read_pipe pipe_fd results s)

  module _ (listen_fd pipe_fd : ℕ) where
    abbrev pub with_world : os.World → Table → Table
    with_world w t = record t { world = w }

    -- A round of the inner loop of Dispatcher. A pipe that is closed has the descriptor -1.
    unfoldable pub handle_ready : Ready → Server → Option Server
    unfolding accepter net_reader net_writer pipe_data_reader
    handle_ready e s =
        let t = s.table in
        if e.fd == listen_fd
        then some (
            let (results, w) = os.accept t.world in
            if e.readable then record s { table = accepter results (with_world w t) } else s)
        else if s.is_pipe_open && (e.fd == pipe_fd)
        then (let (results, w) = os.read pipe_fd t.world in
            if e.readable
            then pipe_data_reader pipe_fd results (record s { table = with_world w t })
            else some s)
        else some (
            let t' = if e.readable then net_reader e.fd t else t in
            record s { table = if e.writable then net_writer e.fd t' else t' })

    unfoldable pub dispatch : List Ready → Server → Option Server
    unfolding handle_ready
    dispatch [] s = some s
    dispatch (e ∷ es) s = do s' ← handle_ready e s; dispatch es s'
