-- ===== src/Server/Tests.antt =====
-- A table with a connection, over sockets that give one piece and take a byte at a time.
use cloud_backup_system.Sockets.{Clients, Os, again, at_fd, done, interrupted}
use cloud_backup_system.Common.{
  ℕ, ◌≡◌, refl, true, some, ◌>>=◌, [], ◌∷◌, ◌++◌, bytes, ◌==◌, ◌&&◌, is_some, if◌then◌else◌, arith,
  ◌⊎◌,
}
use cloud_backup_system.DataManager.Tests.{disk}
use cloud_backup_system.Connection.Tests.{pieces, new_connection}
use cloud_backup_system.Server.{
  Table, Server, use_time, identifier_of, add_connection, act, handle_message,
}
use cloud_backup_system.Server.Wrapped.{
  Streams, wrapped_os, IsTakenUp, IsClosed, add_connection-IsTakenUp,
}
use cloud_backup_system.System.Machine.{Machine, machine, machine-NetLaws, machine-ProcessLaws}
use cloud_backup_system.Daemon.Tests.{launched}
use cloud_backup_system.Server.Connections.{IsProper}
use cloud_backup_system.Server.Gone.{all_closed}
use cloud_backup_system.Server.Runs.{started, accepted, Reached-IsProper}
use cloud_backup_system.Server.Messages.{fed, pipe_pieces, handle_message-identifier_of}
use cloud_backup_system.Server.Implementation.{http_connections, http_connections-Laws}

abbrev sockets : Os
sockets = record {
  World = ℕ;
  read = λ fd w. (interrupted ∷ done (bytes "G") ∷ again ∷ [], w);
  write = λ fd s w. (done 1 ∷ [], w);
  set_non_block = λ fd w. (true, w);
  epoll_add = λ fd w. (true, w);
  epoll_mod = λ fd both w. w;
  epoll_del = λ fd w. w;
  close = λ fd w. w;
  accept = λ w. (done 5 ∷ again ∷ [], w);
}

abbrev pub clients : Clients
clients = http_connections disk pieces new_connection

abbrev empty_table : Table sockets clients
empty_table = record { use_times = []; connections = []; gone = []; world = 0 }

one_connection : Table sockets clients
unfolding add_connection
one_connection = add_connection sockets clients 4 empty_table

Reached-IsProper_example :
    IsProper sockets clients (http_connections-Laws disk pieces new_connection refl) one_connection
    × (all_closed sockets clients one_connection.gone ≡ true)
unfolding one_connection
Reached-IsProper_example =
    Reached-IsProper sockets clients (http_connections-Laws disk pieces new_connection refl)
      one_connection (accepted 4 (started 0) refl)

handle_message-identifier_of_example :
    handle_message sockets clients (b'c' ∷ identifier_of 4 1) one_connection
    ≡ some (
        if is_some (at_fd 4 one_connection.connections)
          && (1 == use_time sockets clients 4 one_connection)
        then act sockets clients b'c' 4 one_connection
        else one_connection)
handle_message-identifier_of_example =
    handle_message-identifier_of sockets clients b'c' 4 1 one_connection (omega arith) (omega arith)

abbrev serving : Server sockets clients
serving = record { read_pipe_buffer = bytes "w4"; is_pipe_open = true; table = one_connection }

pipe_pieces_example :
    fed sockets clients (bytes "_1,c4" ++ bytes "_1,") serving
    ≡ (fed sockets clients (bytes "_1,c4") serving >>= fed sockets clients (bytes "_1,"))
pipe_pieces_example = pipe_pieces sockets clients (bytes "_1,c4") (bytes "_1,") serving

abbrev pub silent : Streams Machine
silent = record {
  read = λ fd m. (again ∷ [], m);
  write = λ fd s m. (again ∷ [], m);
  accept = λ m. (done 3 ∷ again ∷ [], m);
}

-- The descriptor 3 is open, and 2 is the set of epoll.
abbrev accepting : Table (wrapped_os machine silent 2) clients
accepting = record { use_times = []; connections = []; gone = []; world = launched }

add_connection-IsTakenUp_example :
    IsTakenUp machine silent 2 clients machine-NetLaws machine-ProcessLaws 3 accepting
      (add_connection (wrapped_os machine silent 2) clients 3 accepting)
    ⊎ IsClosed machine silent 2 clients machine-NetLaws machine-ProcessLaws 3 accepting
        (add_connection (wrapped_os machine silent 2) clients 3 accepting)
unfolding machine-NetLaws
add_connection-IsTakenUp_example =
    add_connection-IsTakenUp machine silent 2 clients machine-NetLaws machine-ProcessLaws 3 3
      accepting refl
