-- ===== src/Start.antt =====
-- cloud_backup_server.hpp, lines 15 to 96, and the main program: the start of the server, up to the
-- loop of Dispatcher, and its end.
pub mod Initialized
pub mod Listening
pub mod Works
pub mod Returned
pub mod Closed
pub mod Serving
mod Tests
use cloud_backup_system.Common.{
  ℕ, ◌+◌, Bool, true, false, Option, none, some, Bytes, ℤ, is_negative, if◌then◌else◌,
}
use cloud_backup_system.Path.{Env}
use cloud_backup_system.FileUtil.{FileSystem}
use cloud_backup_system.Config.{Config, ConfigJson, get_instance}
use cloud_backup_system.Log.{LogSystem, init_logger, modify_logger_sinks}
use cloud_backup_system.System.{
  System, Action, init_pipe_error, server_start_error, load_config_file_error, or_exit,
  some_or_exit, pure, terminate, ◌>>=◌, ◌>>◌,
}
use cloud_backup_system.Daemon.{daemon, set_non_block}
use cloud_backup_system.NetSocket.{on_fd, init_socket, bind_port, listen_on, close_socket}
use cloud_backup_system.Epoll.{make_epoll, close_epoll, epoll_add, epollin, epollet}

-- The fields of the server that its start sets; a descriptor that is not made yet is `none`. `events`
-- is the length of the array of events.
pub record CloudBackupServer : Type 0 where
  pub server_port : ℕ
  pub socket : Option ℕ
  pub write_pipe_fd : Option ℕ
  pub read_pipe_fd : Option ℕ
  pub epollfd : ℕ
  pub events : Option ℤ
  pub maxevents : ℤ

module _ (sys : System) where
  open sys use {World}

  -- `new epoll_event[_maxevents]` throws for a negative length.
  abbrev pub new_events : ℤ → Action World (Option ℤ)
  new_events n = if is_negative n then terminate else pure (some n)

  unfoldable pub initialize_server : CloudBackupServer → Action World CloudBackupServer
  initialize_server s = do
    pipefd ← some_or_exit init_pipe_error sys.pipe
    or_exit init_pipe_error (set_non_block sys pipefd.0)
    or_exit init_pipe_error (epoll_add sys s.epollfd pipefd.0 (epollin + epollet))
    socket ← init_socket sys
    bind_port sys (some socket) s.server_port
    events ← new_events s.maxevents
    pure (record s {
      write_pipe_fd = some pipefd.1;
      read_pipe_fd = some pipefd.0;
      socket = some socket;
      events = events;
    })

  unfoldable pub start_server : ℤ → CloudBackupServer → Action World (Unit {0})
  start_server queue_size s = do
    listen_on sys s.socket queue_size
    or_exit server_start_error (on_fd (set_non_block sys) s.socket)
    or_exit server_start_error
        (on_fd (λ fd. epoll_add sys s.epollfd fd (epollin + epollet)) s.socket)

  abbrev pub close_fd : Option ℕ → World → World
  close_fd none w = w
  close_fd (some fd) w = sys.close fd w

  unfoldable pub destory_server : CloudBackupServer → World → World
  destory_server s w = close_fd s.write_pipe_fd (close_fd s.read_pipe_fd w)

  -- The destructor, and behind it those of `_epoller` and `_socket`.
  unfoldable pub destruct_server : CloudBackupServer → World → World
  unfolding destory_server close_epoll close_socket
  destruct_server s w = close_socket sys s.socket (close_epoll sys s.epollfd (destory_server s w))

-- The server before InitializeServer.
abbrev pub made_of : Config → ℕ → CloudBackupServer
made_of config epollfd = record {
  server_port = config.server_port;
  socket = none;
  write_pipe_fd = none;
  read_pipe_fd = none;
  epollfd = epollfd;
  events = none;
  maxevents = config.epoll_events_size;
}

module _ (sys : System) (log : LogSystem sys.World) (fs : FileSystem) (json : ConfigJson) where
  module _ (disk : sys.World → fs.World) (env : Env) where
    open sys use {World}

    abbrev pub read_config : Action World Config
    read_config w = (get_instance fs json env (disk w), w)

    -- The constructor up to the loop: the members are made before its body is run.
    unfoldable pub construct_server : Bytes → Action World CloudBackupServer
    construct_server program = do
      epollfd ← make_epoll sys
      config ← read_config
      daemon sys env program
      or_exit load_config_file_error
          (modify_logger_sinks log config.log_filepath config.roll_file_size)
      s ← initialize_server sys (made_of config epollfd)
      start_server sys config.listen_queue_size s
      pure s

    -- The main program; it does not look at what the logger's start gives.
    unfoldable pub main_program : Bytes → Action World CloudBackupServer
    main_program program w = construct_server program (init_logger log w).1
