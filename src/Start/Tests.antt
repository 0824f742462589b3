-- ===== src/Start/Tests.antt =====
-- A server starts on the small system, with the configuration of the tests of Config.
use cloud_backup_system.Common.{List, ℕ, ◌≡◌, refl, true, none, some, bytes, pos}
use cloud_backup_system.DataManager.Tests.{disk, settings}
use cloud_backup_system.FileUtil.{get_content}
use cloud_backup_system.Path.{
  file_path, path_transform, is_path, apply_segments, apply_segment, add_segment,
}
use cloud_backup_system.Config.{entries_of, read_config_file, Config}
use cloud_backup_system.Config.Tests.{config_disk, config_json, config}
use cloud_backup_system.Log.{LogSystem, modify_logger_sinks}
use cloud_backup_system.System.Rules.{Ends}
use cloud_backup_system.System.Machine.{Machine, machine, machine-NetLaws, machine-ProcessLaws}
use cloud_backup_system.Daemon.Tests.{launched}
use cloud_backup_system.Start.{CloudBackupServer, main_program, destruct_server}
use cloud_backup_system.Start.Listening.{
  IsListening, IsStartEnd, config_read, main_program-IsListening,
}
use cloud_backup_system.Start.Works.{AllWork}
use cloud_backup_system.Start.Returned.{main_program-Returned}
use cloud_backup_system.Connection.Tests.{pieces, new_connection}
use cloud_backup_system.Server.{Server}
use cloud_backup_system.Server.Connections.{IsProper}
use cloud_backup_system.Server.Implementation.{http_connections-Laws}
use cloud_backup_system.Server.Loop.{Wait}
use cloud_backup_system.Server.Wrapped.{wrapped_os}
use cloud_backup_system.Server.Tests.{clients, silent}
use cloud_backup_system.Start.Serving.{serve, main_program-Serves}
use cloud_backup_system.Start.Closed.{Owns, destruct_server-Closed}

abbrev loggers : LogSystem Machine
loggers = record {
  Sink = ℕ;
  stdout_sink = λ m. (some 1, m);
  roll_file_sink = λ path size m. (some 2, m);
  add_logger = λ name type sinks level m. (true, m);
  delete_logger = λ name m. m;
}

loggers-AllWork : AllWork machine loggers machine-NetLaws
unfolding modify_logger_sinks
loggers-AllWork = record {
  child = λ m. refl;
  session = λ m. refl;
  dir = λ p m. refl;
  file = λ p a m. refl;
  flags = λ fd m o. refl;
  set = λ fd n m o. refl;
  pipes = λ m. refl;
  epoll = λ m. refl;
  control = λ ep fd n m o. refl;
  sockets = λ m. refl;
  binds = λ fd p m o. refl;
  listens = λ fd n m o. refl;
  logger = λ p n m. refl;
}

main_program-IsListening_example :
    Ends IsStartEnd
      (λ s v.
        (c : Config) × ((config_read machine loggers disk config_json machine-NetLaws
              (λ _. config_disk)
              settings.env
              (bytes "./server")
              launched
            ≡ some c)
          × IsListening c.server_port s (machine-NetLaws.net v)))
      (main_program machine loggers disk config_json
        (λ _. config_disk)
        settings.env
        (bytes "./server")
        launched)
main_program-IsListening_example =
    main_program-IsListening machine loggers disk config_json machine-NetLaws (λ _. config_disk)
      settings.env (bytes "./server") launched

main_program-Returned_example :
    Ends
      (λ _. ⊥)
      (λ s v. IsListening config.server_port s (machine-NetLaws.net v))
      (main_program machine loggers disk config_json
        (λ _. config_disk)
        settings.env
        (bytes "./server")
        launched)
unfolding read_config_file entries_of get_content file_path path_transform is_path apply_segments
    apply_segment add_segment
main_program-Returned_example =
    main_program-Returned machine loggers disk config_json machine-NetLaws (λ _. config_disk)
      settings.env (bytes "./server") launched config loggers-AllWork refl refl

abbrev serving : CloudBackupServer
serving = record {
  server_port = 80;
  socket = some 2;
  write_pipe_fd = some 1;
  read_pipe_fd = some 0;
  epollfd = 3;
  events = some (pos 4);
  maxevents = pos 4;
}

destruct_server-Closed_example :
    (Owns serving 2
      → (machine-ProcessLaws.process (destruct_server machine serving launched)).file_at 2 ≡ none)
    × ((Owns serving 2 → ⊥)
        → (machine-ProcessLaws.process (destruct_server machine serving launched)).file_at 2
          ≡ (machine-ProcessLaws.process launched).file_at 2)
destruct_server-Closed_example =
    destruct_server-Closed machine machine-ProcessLaws serving launched 2

main_program-Serves_example :
    Ends IsStartEnd
      (λ s v.
        (ws : List Wait) (after : Server (wrapped_os machine silent s.epollfd) clients)
        → serve machine silent clients s ws v ≡ some after
        → IsProper
            (wrapped_os machine silent s.epollfd)
            clients
            (http_connections-Laws disk pieces new_connection refl)
            after.table)
      (main_program machine loggers disk config_json
        (λ _. config_disk)
        settings.env
        (bytes "./server")
        launched)
main_program-Serves_example =
    main_program-Serves machine silent clients
      (http_connections-Laws disk pieces new_connection refl) loggers disk config_json
      machine-NetLaws (λ _. config_disk) settings.env (bytes "./server") launched
