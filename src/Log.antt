-- ===== src/Log.antt =====
-- log.hpp: the logger of the program. The library behind it is a parameter.
use cloud_backup_system.Common.{Bool, false, Option, none, some, List, [], ◌∷◌, Bytes, bytes, ℤ}

pub data LoggerType : Type 0 where
  sync_logger : LoggerType
  async_logger : LoggerType

pub data Level : Type 0 where
  debug : Level
  info : Level
  warn : Level
  error : Level
  fatal : Level

-- The sinks that `get_sink` makes, which can be null, and the two calls on the loggers by name.
pub record LogSystem (W : Type 0) : Type 1 where
  pub Sink : Type 0
  pub stdout_sink : W → Option Sink × W
  pub roll_file_sink : Bytes → ℤ → W → Option Sink × W
  pub add_logger : Bytes → LoggerType → List (Option Sink) → Level → W → Bool × W
  pub delete_logger : Bytes → W → W

abbrev pub logger_name : Bytes
logger_name = bytes "CloudBackupLogger"

abbrev pub logger_level : Level
logger_level = info

abbrev pub logger_type : LoggerType
logger_type = async_logger

module _ {W : Type 0} (log : LogSystem W) where
  unfoldable pub init_logger : W → Bool × W
  init_logger w =
      let (out, v) = log.stdout_sink w in
      log.add_logger logger_name sync_logger (out ∷ []) logger_level v

  -- The sink of the standard output behind the other one; a null sink there is not looked for.
  unfoldable add_both_sinks : log.Sink → W → Bool × W
  add_both_sinks roll w =
      let (out, v) = log.stdout_sink w in
      log.add_logger logger_name logger_type (out ∷ some roll ∷ []) logger_level
        (log.delete_logger logger_name v)

  unfoldable pub modify_logger_sinks : Bytes → ℤ → W → Bool × W
  unfolding add_both_sinks
  modify_logger_sinks path size w =
      let (sink, v) = log.roll_file_sink path size w in
      elim sink [ none ↦ (false, v) | some roll ↦ add_both_sinks roll v ]
