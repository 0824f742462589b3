-- ===== src/Start/Serving.antt =====
-- cloud_backup_server.hpp, the constructor with its last call: the loop of Dispatcher on the server
-- that has started, whose pipe and table of connections are empty.
use cloud_backup_system.Common.{◌>>=◌, ℕ, ◌≡◌, Option, some, List, [], Bytes, true}
use cloud_backup_system.Path.{Env}
use cloud_backup_system.FileUtil.{FileSystem}
use cloud_backup_system.Config.{Config, ConfigJson}
use cloud_backup_system.Log.{LogSystem}
use cloud_backup_system.Sockets.{Clients}
use cloud_backup_system.Server.{Server}
use cloud_backup_system.Server.Connections.{Laws, IsProper}
use cloud_backup_system.Server.Loop.{Wait, dispatcher, dispatcher-IsProper}
use cloud_backup_system.Server.Wrapped.{Streams, wrapped_os}
use cloud_backup_system.System.{System}
use cloud_backup_system.System.Rules.{Ends, Ends-map}
use cloud_backup_system.System.NetLaws.{NetLaws}
use cloud_backup_system.Start.{CloudBackupServer, main_program}
use cloud_backup_system.Start.Listening.{
  IsListening, IsStartEnd, config_read, main_program-IsListening,
}

module _ (sys : System) (streams : Streams sys.World) (cl : Clients) where
  -- The state that the loop starts from.
  abbrev pub idle : (epollfd : ℕ) → sys.World → Server (wrapped_os sys streams epollfd) cl
  idle epollfd w = record {
    read_pipe_buffer = [];
    is_pipe_open = true;
    table = record { use_times = []; connections = []; gone = []; world = w };
  }

  -- The rounds so far; `none` is an exception of `stoi`. The start sets both descriptors.
  unfoldable pub serve :
      (s : CloudBackupServer)
      → List Wait
      → sys.World
      → Option (Server (wrapped_os sys streams s.epollfd) cl)
  unfolding dispatcher
  serve s ws w = do
    listen_fd ← s.socket
    pipe_fd ← s.read_pipe_fd
    dispatcher (wrapped_os sys streams s.epollfd) cl listen_fd pipe_fd s.maxevents ws
        (idle s.epollfd w)

  module _ (laws : Laws cl) where
    serve-IsProper :
        (port : ℕ) (s : CloudBackupServer) (w : sys.World) (nets : NetLaws sys) (ws : List Wait)
        (after : Server (wrapped_os sys streams s.epollfd) cl)
        → IsListening port s (nets.net w)
        → serve s ws w ≡ some after
        → IsProper (wrapped_os sys streams s.epollfd) cl laws after.table
    unfolding serve
    serve-IsProper port s w nets ws after l h =
        let os = wrapped_os sys streams s.epollfd in
        let first : IsProper os cl laws (idle s.epollfd w).table = record {
          proper = λ fd k e. cc;
        } in
        let runs : dispatcher os cl l.socket_fd l.read_fd s.maxevents ws (idle s.epollfd w)
            ≡ some after =
          rw (l.socket, l.reads) at h in
        dispatcher-IsProper os cl l.socket_fd l.read_fd s.maxevents laws ws (idle s.epollfd w) after
          first runs

    module _ (log : LogSystem sys.World) (fs : FileSystem) (json : ConfigJson)
        (nets : NetLaws sys) where
      module _ (disk : sys.World → fs.World) (env : Env) (program : Bytes) where
        -- If the operations on a connection keep its name, and only `close` marks it as closed, then a
        -- program that has started, after any returns of `epoll_wait` that it handles without an
        -- exception, has in its table open connections under the names made of their descriptors
        -- and the descriptors' times of use.
        pub main_program-Serves :
            (w : sys.World)
            → Ends IsStartEnd
                (λ s v.
                  (ws : List Wait) (after : Server (wrapped_os sys streams s.epollfd) cl)
                  → serve s ws v ≡ some after
                  → IsProper (wrapped_os sys streams s.epollfd) cl laws after.table)
                (main_program sys log fs json disk env program w)
        main_program-Serves w =
            Ends-map IsStartEnd
              (λ s v.
                (config : Config) × ((config_read sys log fs json nets disk env program w
                    ≡ some config)
                  × IsListening config.server_port s (nets.net v)))
              (λ s v.
                (ws : List Wait) (after : Server (wrapped_os sys streams s.epollfd) cl)
                → serve s ws v ≡ some after
                → IsProper (wrapped_os sys streams s.epollfd) cl laws after.table)
              (main_program sys log fs json disk env program w)
              (λ s v (config, (_, l)) ws after h.
                serve-IsProper config.server_port s v nets ws after l h)
              (main_program-IsListening sys log fs json nets disk env program w)
