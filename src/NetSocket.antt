-- ===== src/NetSocket.antt =====
-- util.hpp, lines 400 to 471: NetSocketUtil. A descriptor -1 is `none`; the calls on it fail.
use cloud_backup_system.Common.{ℕ, Bool, false, Option, none, some, Bytes, ℤ, if◌then◌else◌}
use cloud_backup_system.Sockets.{Result, again, interrupted, broken, done}
use cloud_backup_system.System.{
  System, Action, bind_socket_error, init_socket_error, listen_socket_error, or_exit, some_or_exit,
  do_call, pure, ◌>>=◌, ◌>>◌,
}

-- A call on a descriptor that can be -1.
abbrev pub on_fd : {W : Type 0} → (ℕ → W → Bool × W) → Option ℕ → W → Bool × W
on_fd f none w = (false, w)
on_fd f (some fd) w = f fd w

-- What Accept gives: the new descriptor, and what it writes to its two arguments.
pub record Accepted : Type 0 where
  pub fd : Result ℕ
  pub client_ip : Option Bytes
  pub client_port : Option ℕ

module _ (sys : System) where
  open sys use {World}

  unfoldable pub init_socket : Action World ℕ
  init_socket = do
    fd ← some_or_exit init_socket_error sys.socket
    do_call (λ w. (sys.reuse_address fd w).1)
    pure fd

  unfoldable pub bind_port : Option ℕ → ℕ → Action World (Unit {0})
  bind_port socket port = or_exit bind_socket_error (on_fd (λ fd. sys.bind fd port) socket)

  unfoldable pub listen_on : Option ℕ → ℤ → Action World (Unit {0})
  listen_on socket size = or_exit listen_socket_error (on_fd (λ fd. sys.listen fd size) socket)

  -- `wants_ip` and `wants_port` say which of the two arguments is no null pointer.
  unfoldable accepted_of : Bool → Bool → Result (ℕ × (Bytes × ℕ)) → Accepted
  accepted_of wants_ip wants_port again = record {
    fd = again;
    client_ip = none;
    client_port = none;
  }
  accepted_of wants_ip wants_port interrupted = record {
    fd = interrupted;
    client_ip = none;
    client_port = none;
  }
  accepted_of wants_ip wants_port broken = record {
    fd = broken;
    client_ip = none;
    client_port = none;
  }
  accepted_of wants_ip wants_port (done (fd, (ip, port))) = record {
    fd = done fd;
    client_ip = if wants_ip then some ip else none;
    client_port = if wants_port then some port else none;
  }

  unfoldable pub accept_client : Bool → Bool → Option ℕ → World → Accepted × World
  unfolding accepted_of
  accept_client wants_ip wants_port none w = (accepted_of wants_ip wants_port broken, w)
  accept_client wants_ip wants_port (some socket) w =
      let (r, v) = sys.accept socket w in (accepted_of wants_ip wants_port r, v)

  unfoldable pub close_socket : Option ℕ → World → World
  close_socket none w = w
  close_socket (some fd) w = sys.close fd w
