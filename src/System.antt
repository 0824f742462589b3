-- ===== src/System.antt =====
-- error.hpp and what the start of the program uses of the operating system: a process that goes on or
-- exits, and the system calls.
pub mod Rules
pub mod Descriptors
pub mod NetLaws
pub mod Machine
use cloud_backup_system.Common.{
  ℕ, ◌+◌, ◌/◌, ◌%◌, ◌==◌, if◌then◌else◌, Bool, true, false, Option, none, some, Bytes, ℤ,
}
use cloud_backup_system.Sockets.{Result}

pub data ErrorCode : Type 0 where
  daemon_error : ErrorCode
  logger_init_error : ErrorCode
  data_manager_init_error : ErrorCode
  load_config_file_error : ErrorCode
  server_listen_error : ErrorCode
  init_socket_error : ErrorCode
  bind_socket_error : ErrorCode
  listen_socket_error : ErrorCode
  new_object_error : ErrorCode
  epoll_create_error : ErrorCode
  init_pipe_error : ErrorCode
  server_start_error : ErrorCode

-- The end of a process: the exit of the parent of the daemon with the status 0, an exit with an error
-- code, and `std::terminate`, since nothing catches an exception.
pub data Status : Type 0 where
  done : Status
  failed : ErrorCode → Status
  terminated : Status

-- A call goes on with a value, or ends the process.
pub data Outcome (A : Type 0) : Type 0 where
  returns : A → Outcome A
  exits : Status → Outcome A

abbrev pub Action : Type 0 → Type 0 → Type 0
Action W A = W → Outcome A × W

module _ {W A : Type 0} where
  abbrev pub pure : A → Action W A
  pure a w = (returns a, w)

  abbrev pub exit : ErrorCode → Action W A
  exit e w = (exits (failed e), w)

  abbrev pub terminate : Action W A
  terminate w = (exits terminated, w)

module _ {W A B : Type 0} where
  infixl 10 ◌>>=◌ ◌>>◌
  unfoldable pub ◌>>=◌ : Action W A → (A → Action W B) → Action W B
  ◌>>=◌ m f w = let (r, w') = m w in elim r [ returns a ↦ f a w' | exits n ↦ (exits n, w') ]

  abbrev pub ◌>>◌ : Action W A → Action W B → Action W B
  m >> n = m >>= λ _. n

module _ {W : Type 0} where
  -- A call that works, or the end of the process.
  unfoldable pub or_exit : ErrorCode → (W → Bool × W) → Action W (Unit {0})
  or_exit e f w = let (ok, w') = f w in elim ok [ true ↦ (returns tt, w') | false ↦ exit e w' ]

  -- The value that a call gives, or the end of the process.
  unfoldable pub some_or_exit : {A : Type 0} → ErrorCode → (W → Option A × W) → Action W A
  some_or_exit e f w = let (o, w') = f w in elim o [ some a ↦ (returns a, w') | none ↦ exit e w' ]

  -- A call whose result is not looked at.
  unfoldable pub do_call : (W → W) → Action W (Unit {0})
  do_call f w = (returns tt, f w)

-- O_NONBLOCK of Linux.
abbrev pub o_nonblock : ℕ
o_nonblock = 2048

-- `flag | bit` for a power of two.
abbrev pub or_bit : ℕ → ℕ → ℕ
or_bit bit n = if (n / bit) % 2 == 1 then n else n + bit

pub data Access : Type 0 where
  read_only : Access
  write_only : Access

pub data EpollOp : Type 0 where
  epoll_ctl_add : EpollOp
  epoll_ctl_mod : EpollOp
  epoll_ctl_del : EpollOp

-- The calls. A call that gives -1 gives `false` or `none`. `get_flags` and `set_flags` are `fcntl`
-- with F_GETFL and F_SETFL, `reuse_address` is `setsockopt` with SO_REUSEADDR;
-- `accept` gives a descriptor and the address and the port of the client.
pub record System : Type 1 where
  pub World : Type 0
  pub fork : World → ℤ × World
  pub set_session : World → Bool × World
  pub ignore_signal : ℕ → World → World
  pub change_dir : Bytes → World → Bool × World
  pub open_file : Bytes → Access → World → Option ℕ × World
  pub dup2 : ℕ → ℕ → World → World
  pub close : ℕ → World → World
  pub get_flags : ℕ → World → Option ℕ
  pub set_flags : ℕ → ℕ → World → Bool × World
  pub pipe : World → Option (ℕ × ℕ) × World
  pub epoll_create : World → Option ℕ × World
  pub epoll_ctl : ℕ → EpollOp → ℕ → ℕ → World → Bool × World
  pub socket : World → Option ℕ × World
  pub reuse_address : ℕ → World → Bool × World
  pub bind : ℕ → ℕ → World → Bool × World
  pub listen : ℕ → ℤ → World → Bool × World
  pub accept : ℕ → World → Result (ℕ × (Bytes × ℕ)) × World
