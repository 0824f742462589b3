-- ===== src/Daemon.antt =====
-- util.hpp, lines 535 to 605: Daemon, which makes the process a daemon, and SetNonBlock.
pub mod Detached
pub mod Ends
pub mod NonBlock
pub mod Tests
use cloud_backup_system.Common.{
  ℕ, ◌+◌, ◌/◌, ◌%◌, Bool, true, false, Option, none, some, Bytes, bytes, pos, ltb_ℤ, ◌==◌,
  if◌then◌else◌,
}
use cloud_backup_system.Path.{Env, file_path, up_to_last_slash}
use cloud_backup_system.System.{
  System, Action, o_nonblock, or_bit, Outcome, exits, returns, done, daemon_error, or_exit,
  some_or_exit, do_call, pure, read_only, write_only, ◌>>=◌, ◌>>◌,
}

-- The constants of Linux.
abbrev pub sigchld : ℕ
sigchld = 17

abbrev pub sigpipe : ℕ
sigpipe = 13

abbrev pub dev_null : Bytes
dev_null = bytes "/dev/null"

-- The directory of the path of the program.
abbrev pub work_path : Env → Bytes → Bytes
work_path env program = up_to_last_slash (file_path env program)

module _ (sys : System) where
  open sys use {World}

  -- `fork() > 0` is the parent. A `fork` that fails gives -1 and is taken for the child.
  unfoldable pub leave_parent : Action World (Unit {0})
  leave_parent w =
      let (pid, v) = sys.fork w in if ltb_ℤ (pos 0) pid then (exits done, v) else (returns tt, v)

  abbrev pub ignore_signals : World → World
  ignore_signals w = sys.ignore_signal sigpipe (sys.ignore_signal sigchld w)

  abbrev pub silence_output : ℕ → World → World
  silence_output wfd w = sys.close wfd (sys.dup2 wfd 2 (sys.dup2 wfd 1 w))

  abbrev pub silence_input : ℕ → World → World
  silence_input rfd w = sys.close rfd (sys.dup2 rfd 0 w)

  unfoldable pub daemon : Env → Bytes → Action World (Unit {0})
  daemon env program = do
    leave_parent
    or_exit daemon_error sys.set_session
    do_call ignore_signals
    or_exit daemon_error (sys.change_dir (work_path env program))
    wfd ← some_or_exit daemon_error (sys.open_file dev_null write_only)
    do_call (silence_output wfd)
    rfd ← some_or_exit daemon_error (sys.open_file dev_null read_only)
    do_call (silence_input rfd)

  unfoldable pub set_non_block : ℕ → World → Bool × World
  set_non_block fd w = elim (sys.get_flags fd w) [
    | none ↦ (false, w)
    | some flag ↦ sys.set_flags fd (or_bit o_nonblock flag) w
  ]
