-- ===== src/Server/Implementation.antt =====
-- HTTPconnection.hpp: a connection with its identifier, as the main thread uses it.
use cloud_backup_system.Sockets.{Clients}
use cloud_backup_system.Common.{◌≡◌, refl, true, false, Bytes, arith}
use cloud_backup_system.FileUtil.{FileSystem}
use cloud_backup_system.Connection.{Llhttp, Connection}
use cloud_backup_system.Connection.Tasks.{receive}
use cloud_backup_system.Server.Connections.{Laws}

module _ (fs : FileSystem) (ll : Llhttp) (blank : Connection fs ll) where
  -- `blank` is what the constructor makes.
  abbrev pub http_connections : Clients
  http_connections = record {
    Client = Bytes × Connection fs ll;
    make = λ id. (id, blank);
    identifier = λ k. k.0;
    receive = λ at k. (k.0, receive fs ll at k.1);
    response = λ k. k.1.session.response_buffer;
    set_response =
        λ r k. (k.0, record k.1 { session = record k.1.session { response_buffer = r } });
    close = λ k. (k.0, record k.1 { is_closed = true });
    is_closed = λ k. k.1.is_closed;
  }

  is_closed-receive :
      (at : Bytes) (k : Connection fs ll) → (receive fs ll at k).is_closed ≡ k.is_closed
  unfolding receive
  is_closed-receive at k = ground arith

  pub http_connections-Laws : blank.is_closed ≡ false → Laws http_connections
  http_connections-Laws open_yet = record {
    made = λ id. refl;
    open_made = λ id. open_yet;
    received = λ at k. refl;
    open_received = λ at k. is_closed-receive at k.1;
    sent = λ r k. refl;
    open_sent = λ r k. refl;
    closes = λ k. refl;
  }
