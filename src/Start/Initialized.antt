-- ===== src/Start/Initialized.antt =====
-- cloud_backup_server.hpp, InitializeServer: the pipe and the socket that it makes.
use cloud_backup_system.Common.{
  ℕ, ◌+◌, ◌/◌, ◌%◌, ◌≡◌, ◌≢◌, ==-ne, ==-refl, refl, ap, true, false, Option, none, some, arith, inl,
  inr, Bool-cases, is_negative,
}
use cloud_backup_system.System.{
  System, Status, ◌>>=◌, failed, terminated, pure, o_nonblock, init_socket_error, bind_socket_error,
  init_pipe_error,
}
use cloud_backup_system.System.Rules.{
  Ends, Ends-bind, Ends-do_call, Ends-or_exit, Ends-some_or_exit,
}
use cloud_backup_system.System.NetLaws.{
  Net, NetLaws, IsPiped, same_number, with_new, with_watched, IsMade,
}
use cloud_backup_system.System.Descriptors.{put}
use cloud_backup_system.Daemon.{set_non_block}
use cloud_backup_system.Daemon.NonBlock.{IsFlagged, set_non_block-IsFlagged}
use cloud_backup_system.NetSocket.{on_fd, init_socket, bind_port}
use cloud_backup_system.Epoll.{epoll_add, epollin, epollet}
use cloud_backup_system.Start.{CloudBackupServer, initialize_server, new_events}

abbrev pub HasONonblock : Option ℕ → Type 0
HasONonblock none = ⊥
HasONonblock (some flag) = (flag / o_nonblock) % 2 ≡ 1

-- A descriptor for which the dispatcher waits, without blocking.
pub record IsWatched (n : Net) (ep fd : ℕ) : Type 0 where
  pub no_block : HasONonblock (n.flags fd)
  pub reads : n.watched ep fd ≡ some (epollin + epollet)

-- From the pipe on.
pub record IsInitialized (s s' : CloudBackupServer) (n : Net) : Type 0 where
  pub read_fd : ℕ
  pub write_fd : ℕ
  pub socket_fd : ℕ
  pub reads : s'.read_pipe_fd ≡ some read_fd
  pub writes : s'.write_pipe_fd ≡ some write_fd
  pub socket : s'.socket ≡ some socket_fd
  pub same_epoll : s'.epollfd ≡ s.epollfd
  pub read_write : read_fd ≢ write_fd
  pub read_socket : read_fd ≢ socket_fd
  pub write_socket : write_fd ≢ socket_fd
  pub pipe_watched : IsWatched n s.epollfd read_fd
  pub bound : n.port socket_fd ≡ some s.server_port
  pub other_file : same_number (n.number_at socket_fd) (n.number_at read_fd) ≡ false
  pub socket_open : (m : ℕ) × (n.number_at socket_fd ≡ some m)
  pub events : s'.events ≡ some s'.maxevents
  pub room : is_negative s'.maxevents ≡ false

pub distinct : (f : ℕ → Option ℕ) (a b m : ℕ) → f a ≡ some m → f b ≡ none → a ≢ b
distinct f a b m h free e = let same : f a ≡ f b = ap f e in ground (arith, h, free, same)

pub flagged-HasONonblock :
    (fd m : ℕ) (n n' : Net)
    → IsFlagged fd n n'
    → n.number_at fd ≡ some m
    → HasONonblock (n'.flags fd)
flagged-HasONonblock fd m n n' flagged h = rw (flagged.now, h, ==-refl m) flagged.bits.set

module _ (s s' : CloudBackupServer) (n0 : Net) where
  -- The steps of InitializeServer.
  initialized :
      (r t fd : ℕ) (n1 n2 n4 : Net)
      → IsPiped n0 r t n1
      → IsFlagged r n1 n2
      → IsMade (with_watched s.epollfd r (epollin + epollet) n2) fd n4
      → s'.read_pipe_fd ≡ some r
      → s'.write_pipe_fd ≡ some t
      → s'.socket ≡ some fd
      → s'.epollfd ≡ s.epollfd
      → s'.events ≡ some s'.maxevents
      → is_negative s'.maxevents ≡ false
      → IsInitialized s s' (record n4 { port = put fd (some s.server_port) n4.port })
  initialized r t fd n1 n2 n4 pipe flagged made er et es ee ev room =
      let rt : r ≢ t =
        distinct (with_new r pipe.read_number pipe.read_flag n0).number_at r t pipe.read_number
          (rw (==-refl r) refl) pipe.new_write.free in
      let at_r : n1.number_at r ≡ some pipe.read_number =
        rw (pipe.made, ==-ne r t rt, ==-refl r) refl in
      let at_t : n1.number_at t ≡ some pipe.write_number = rw (pipe.made, ==-refl t) refl in
      let numbers : n2.number_at ≡ n1.number_at = rw flagged.now refl in
      let free : n1.number_at fd ≡ none = rw (← numbers) made.new.free in
      let rs : r ≢ fd = distinct n1.number_at r fd pipe.read_number at_r free in
      let kept : n4.flags r ≡ n2.flags r = rw (made.made, ==-ne r fd rs) refl in
      record {
        read_fd = r;
        write_fd = t;
        socket_fd = fd;
        reads = er;
        writes = et;
        socket = es;
        same_epoll = ee;
        read_write = rt;
        read_socket = rs;
        write_socket = distinct n1.number_at t fd pipe.write_number at_t free;
        pipe_watched = record {
          no_block = rw (kept) (flagged-HasONonblock r pipe.read_number n1 n2 flagged at_r);
          reads = rw (made.made, ==-refl s.epollfd, ==-refl r) refl;
        };
        bound = rw (==-refl fd) refl;
        other_file = rw (made.made, ==-refl fd, ==-ne r fd rs) (made.new.is_new r);
        socket_open = (made.number, rw (made.made, ==-refl fd) refl);
        events = ev;
        room = room;
      }

module _ (sys : System) (laws : NetLaws sys) where
  open laws use {net}

  pub init_socket-IsMade :
      (E : Status → Type 0) (w : sys.World)
      → E (failed init_socket_error)
      → Ends E (λ fd v. IsMade (net w) fd (net v)) (init_socket sys w)
  unfolding init_socket
  init_socket-IsMade E w no_socket =
      let R : ℕ → sys.World → Type 0 = λ fd v. IsMade (net w) fd (net v) in
      Ends-some_or_exit E R init_socket_error sys.socket _ w no_socket λ fd w1 h1.
        Ends-do_call E R _ _ w1 (rw (laws.address_reused fd w1) (laws.socket_made fd w w1 h1))

  bound-IsInitialized :
      (E : Status → Type 0) (s : CloudBackupServer) (r t fd : ℕ) (w w1 w2 w3 w4 w5 : sys.World)
      → E terminated
      → sys.pipe w ≡ (some (r, t), w1)
      → set_non_block sys r w1 ≡ (true, w2)
      → epoll_add sys s.epollfd r (epollin + epollet) w2 ≡ (true, w3)
      → IsMade (net w3) fd (net w4)
      → sys.bind fd s.server_port w4 ≡ (true, w5)
      → Ends E
          (λ s' v. IsInitialized s s' (net v))
          ((new_events sys s.maxevents >>= λ events. pure (record s {
            write_pipe_fd = some t;
            read_pipe_fd = some r;
            socket = some fd;
            events = events;
          }))
            w5)
  unfolding ◌>>=◌ epoll_add
  bound-IsInitialized E s r t fd w w1 w2 w3 w4 w5 no_events h1 h2 h3 made h5 =
      elim (Bool-cases (is_negative s.maxevents)) [
        | inl e ↦ rw e no_events
        | inr e ↦
            let piped = laws.piped r t w w1 h1 in
            let flagged = set_non_block-IsFlagged sys laws r w1 w2 h2 in
            let watched : net w3 ≡ with_watched s.epollfd r (epollin + epollet) (net w2) =
              laws.added s.epollfd r (epollin + epollet) w2 w3 h3 in
            let made' : IsMade (with_watched s.epollfd r (epollin + epollet) (net w2)) fd (net w4) =
              rw (← watched) made in
            let s' : CloudBackupServer = record s {
              write_pipe_fd = some t;
              read_pipe_fd = some r;
              socket = some fd;
              events = some s.maxevents;
            } in
            let done_all =
              initialized s s' (net w) r t fd (net w1) (net w2) (net w4) piped flagged made' refl
                refl refl refl refl e in
            rw (e, laws.bound fd s.server_port w4 w5 h5) done_all
      ]

  pub initialize_server-IsInitialized :
      (E : Status → Type 0) (s : CloudBackupServer) (w : sys.World)
      → E (failed init_pipe_error)
      → E (failed init_socket_error)
      → E (failed bind_socket_error)
      → E terminated
      → Ends E (λ s' v. IsInitialized s s' (net v)) (initialize_server sys s w)
  unfolding initialize_server bind_port
  initialize_server-IsInitialized E s w no_pipe no_socket no_port no_events =
      let R : CloudBackupServer → sys.World → Type 0 = λ s' v. IsInitialized s s' (net v) in
      Ends-some_or_exit E R init_pipe_error sys.pipe _ w no_pipe λ (r, t) w1 h1.
        Ends-or_exit E R init_pipe_error (set_non_block sys r) _ w1 no_pipe λ w2 h2.
          Ends-or_exit E R init_pipe_error (epoll_add sys s.epollfd r (epollin + epollet)) _ w2
            no_pipe
            λ w3 h3.
              Ends-bind E (λ fd v. IsMade (net w3) fd (net v)) R (init_socket sys) _ w3
                (init_socket-IsMade E w3 no_socket)
                λ fd w4 made.
                  Ends-or_exit E R bind_socket_error
                    (on_fd (λ fd. sys.bind fd s.server_port) (some fd)) _ w4 no_port
                    λ w5 h5.
                      bound-IsInitialized E s r t fd w w1 w2 w3 w4 w5 no_events h1 h2 h3 made h5
