-- ===== src/Start/Listening.antt =====
-- cloud_backup_server.hpp, InitializeServer and StartServer: what a server that has started waits for.
use cloud_backup_system.Common.{
  ℕ, ℤ, ◌+◌, ◌≡◌, ◌≢◌, refl, Bool, true, false, Option, some, Bytes, inl, inr, is_negative, ==-refl,
  ==-ne,
}
use cloud_backup_system.Path.{Env}
use cloud_backup_system.FileUtil.{FileSystem}
use cloud_backup_system.Config.{Config, read_config_file, ConfigJson, get_instance}
use cloud_backup_system.Log.{LogSystem, init_logger, modify_logger_sinks}
use cloud_backup_system.System.{
  System, Status, Outcome, returns, exits, done, failed, logger_init_error, data_manager_init_error,
  server_listen_error, new_object_error, terminated, daemon_error, load_config_file_error,
  epoll_create_error, init_socket_error, bind_socket_error, init_pipe_error, server_start_error,
  listen_socket_error,
}
use cloud_backup_system.System.Rules.{
  Ends, Ends-bind, Ends-or_exit, Ends-or_exit_last, Ends-some_or_exit,
}
use cloud_backup_system.System.NetLaws.{Net, NetLaws}
use cloud_backup_system.Daemon.Ends.{daemon-Ends}
use cloud_backup_system.Config.Instance.{IsRead, get_instance-IsRead}
use cloud_backup_system.Daemon.{set_non_block, daemon}
use cloud_backup_system.Daemon.NonBlock.{set_non_block-IsFlagged}
use cloud_backup_system.NetSocket.{on_fd, listen_on}
use cloud_backup_system.Epoll.{epoll_add, epollin, epollet, make_epoll}
use cloud_backup_system.Start.{
  read_config, made_of, CloudBackupServer, initialize_server, start_server, construct_server,
  main_program,
}
use cloud_backup_system.Start.Initialized.{
  IsInitialized, IsWatched, flagged-HasONonblock, initialize_server-IsInitialized,
}

-- A server whose socket listens at the port, and which waits for the socket and for its pipe.
pub record IsListening (port : ℕ) (s : CloudBackupServer) (n : Net) : Type 0 where
  pub read_fd : ℕ
  pub write_fd : ℕ
  pub socket_fd : ℕ
  pub reads : s.read_pipe_fd ≡ some read_fd
  pub writes : s.write_pipe_fd ≡ some write_fd
  pub socket : s.socket ≡ some socket_fd
  pub read_write : read_fd ≢ write_fd
  pub read_socket : read_fd ≢ socket_fd
  pub write_socket : write_fd ≢ socket_fd
  pub pipe_watched : IsWatched n s.epollfd read_fd
  pub socket_watched : IsWatched n s.epollfd socket_fd
  pub bound : n.port socket_fd ≡ some port
  pub listens : n.listens socket_fd ≡ true
  pub events : s.events ≡ some s.maxevents
  pub room : is_negative s.maxevents ≡ false

module _ (sys : System) (laws : NetLaws sys) where
  open laws use {net}

  started-IsListening :
      (s0 s : CloudBackupServer) (w : sys.World)
      → (i : IsInitialized s0 s (net w)) (w1 w2 w3 : sys.World) (size : ℤ)
      → sys.listen i.socket_fd size w ≡ (true, w1)
      → set_non_block sys i.socket_fd w1 ≡ (true, w2)
      → epoll_add sys s.epollfd i.socket_fd (epollin + epollet) w2 ≡ (true, w3)
      → IsListening s0.server_port s (net w3)
  unfolding epoll_add
  started-IsListening s0 s w i w1 w2 w3 size h1 h2 h3 =
      let listening = laws.listened i.socket_fd size w w1 h1 in
      let (m, at) = i.socket_open in
      let at1 : (net w1).number_at i.socket_fd ≡ some m = rw listening at in
      let flagged = set_non_block-IsFlagged sys laws i.socket_fd w1 w2 h2 in
      let watched = laws.added s.epollfd i.socket_fd (epollin + epollet) w2 w3 h3 in
      record {
        read_fd = i.read_fd;
        write_fd = i.write_fd;
        socket_fd = i.socket_fd;
        reads = i.reads;
        writes = i.writes;
        socket = i.socket;
        read_write = i.read_write;
        read_socket = i.read_socket;
        write_socket = i.write_socket;
        pipe_watched = record {
          no_block = rw (watched, flagged.now, listening, i.other_file) i.pipe_watched.no_block;
          reads =
              rw
                (
                  watched,
                  flagged.now,
                  listening,
                  i.same_epoll,
                  ==-refl s0.epollfd,
                  ==-ne i.read_fd i.socket_fd i.read_socket,
                )
                i.pipe_watched.reads;
        };
        socket_watched = record {
          no_block = rw watched (flagged-HasONonblock i.socket_fd m (net w1) (net w2) flagged at1);
          reads = rw (watched, ==-refl s.epollfd, ==-refl i.socket_fd) refl;
        };
        bound = rw (watched, flagged.now, listening) i.bound;
        listens = rw (watched, flagged.now, listening, ==-refl i.socket_fd) refl;
        events = i.events;
        room = i.room;
      }

  start_server-IsListening :
      (E : Status → Type 0) (s0 s : CloudBackupServer) (size : ℤ) (w : sys.World)
      → IsInitialized s0 s (net w)
      → E (failed listen_socket_error)
      → E (failed server_start_error)
      → Ends E (λ _ v. IsListening s0.server_port s (net v)) (start_server sys size s w)
  unfolding start_server listen_on
  start_server-IsListening E s0 s size w i no_listen no_start =
      let R : Unit {0} → sys.World → Type 0 = λ _ v. IsListening s0.server_port s (net v) in
      Ends-or_exit E R listen_socket_error (on_fd (λ fd. sys.listen fd size) s.socket) _ w no_listen
        λ w1 h1.
          Ends-or_exit E R server_start_error (on_fd (set_non_block sys) s.socket) _ w1 no_start
            λ w2 h2.
              Ends-or_exit_last E R server_start_error
                (on_fd (λ fd. epoll_add sys s.epollfd fd (epollin + epollet)) s.socket) w2 no_start
                λ w3 h3.
                  started-IsListening s0 s w i w1 w2 w3 size (rw i.socket at h1) (rw i.socket at h2)
                    (rw i.socket at h3)

-- The ends of the constructor: the parent of the daemon, an exception, and these errors.
abbrev pub is_start_end : Status → Bool
is_start_end done = true
is_start_end terminated = true
is_start_end (failed e) = elim e [
  | daemon_error ↦ true
  | logger_init_error ↦ false
  | data_manager_init_error ↦ false
  | load_config_file_error ↦ true
  | server_listen_error ↦ false
  | init_socket_error ↦ true
  | bind_socket_error ↦ true
  | listen_socket_error ↦ true
  | new_object_error ↦ false
  | epoll_create_error ↦ true
  | init_pipe_error ↦ true
  | server_start_error ↦ true
]

abbrev pub IsStartEnd : Status → Type 0
IsStartEnd n = is_start_end n ≡ true

module _ (sys : System) (log : LogSystem sys.World) (fs : FileSystem) (json : ConfigJson) where
  module _ (laws : NetLaws sys) (disk : sys.World → fs.World) (env : Env) (program : Bytes) where
    open laws use {net}

    config-Ends :
        {W : Type 0} (r : Outcome Config) (o : Option Config) (w : W)
        → IsRead r o
        → Ends IsStartEnd (λ c _. o ≡ some c) (r, w)
    config-Ends (returns c) o w h = h
    config-Ends (exits n) o w (_, inl h) = rw h refl
    config-Ends (exits n) o w (_, inr h) = rw h refl

    -- What the configuration file holds when the members of the server are made.
    abbrev pub config_read : sys.World → Option Config
    config_read w = read_config_file fs json env (disk (sys.epoll_create (init_logger log w).1).1)

    -- The start of the program ends with the status 0, by an exception, or with one of the codes of
    -- the calls that it makes, or it returns. The configuration could then be read, the server's
    -- socket is bound to the port of it and listens, the reading end of its pipe and the socket do
    -- not block, the set of epoll waits for both, and the three descriptors are different.
    pub main_program-IsListening :
        (w : sys.World)
        → Ends IsStartEnd
            (λ s v.
              (config : Config) × ((config_read w ≡ some config)
                × IsListening config.server_port s (net v)))
            (main_program sys log fs json disk env program w)
    unfolding main_program construct_server make_epoll
    main_program-IsListening w =
        let E : Status → Type 0 = IsStartEnd in
        let R : CloudBackupServer → sys.World → Type 0 = λ s v.
          (config : Config) × ((config_read w ≡ some config)
            × IsListening config.server_port s (net v)) in
        let w0 = (init_logger log w).1 in
        Ends-some_or_exit E R epoll_create_error sys.epoll_create _ w0 refl λ epollfd w1 h1.
          Ends-bind E (λ c _. config_read w ≡ some c) R (read_config sys log fs json disk env) _ w1
            (config-Ends (get_instance fs json env (disk w1)) (config_read w) w1
              (rw h1 (get_instance-IsRead fs json env (disk w1))))
            λ config w2 h2.
              Ends-bind E (λ _ _. Unit {0}) R (daemon sys env program) _ w2
                (daemon-Ends sys E env program w2 refl refl)
                λ _ w3 _.
                  Ends-or_exit E R load_config_file_error
                    (modify_logger_sinks log config.log_filepath config.roll_file_size) _ w3 refl
                    λ w4 h4.
                      Ends-bind E (λ s v. IsInitialized (made_of config epollfd) s (net v)) R
                        (initialize_server sys (made_of config epollfd)) _ w4
                        (initialize_server-IsInitialized sys laws E (made_of config epollfd) w4 refl
                          refl refl refl)
                        λ s w5 i.
                          Ends-bind E (λ _ v. IsListening config.server_port s (net v)) R
                            (start_server sys config.listen_queue_size s) _ w5
                            (start_server-IsListening sys laws E (made_of config epollfd) s
                              config.listen_queue_size w5 i refl refl)
                            λ _ w6 l. (config, (h2, l))
