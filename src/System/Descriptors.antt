-- ===== src/System/Descriptors.antt =====
-- What the documentation of the calls says of the process: its descriptors, its session, its directory
-- and the signals that it ignores.
use cloud_backup_system.Common.{ℕ, Bool, true, Option, none, some, Bytes, ◌==◌, if◌then◌else◌, ◌≡◌}
use cloud_backup_system.System.{System, Access}

-- What a descriptor is of: a file with its path, or another file.
pub data Kind : Type 0 where
  opened : Bytes → Access → Kind
  pipe_reader : Kind
  pipe_writer : Kind
  net_socket : Kind
  event_set : Kind

-- An open file; `dup2` makes two descriptors of one.
pub record OpenFile : Type 0 where
  pub number : ℕ
  pub kind : Kind

pub record Process : Type 0 where
  pub file_at : ℕ → Option OpenFile
  pub leads_session : Bool
  pub directory : Option Bytes
  pub ignores : ℕ → Bool

abbrev pub put : {V : Type 0} → ℕ → V → (ℕ → V) → ℕ → V
put k v f j = if j == k then v else f j

-- What is relied on of the calls that make a process a daemon. `process` is what a state of the
-- system says of the process.
pub record ProcessLaws (sys : System) : Type 0 where
  pub process : sys.World → Process
  pub forked : (w : sys.World) → process (sys.fork w).1 ≡ process w
  pub session_set :
      (w v : sys.World)
      → sys.set_session w ≡ (true, v)
      → process v ≡ record (process w) { leads_session = true }
  pub signal_ignored :
      (n : ℕ) (w : sys.World)
      → process (sys.ignore_signal n w)
        ≡ record (process w) { ignores = put n true (process w).ignores }
  pub dir_changed :
      (p : Bytes) (w v : sys.World)
      → sys.change_dir p w ≡ (true, v)
      → process v ≡ record (process w) { directory = some p }
  -- A file is opened at a descriptor that was free.
  pub file_opened :
      (p : Bytes) (a : Access) (fd : ℕ) (w v : sys.World)
      → sys.open_file p a w ≡ (some fd, v)
      → ((process w).file_at fd ≡ none)
        × ((n : ℕ) × (process v ≡ record (process w) {
          file_at = put fd (some (record { number = n; kind = opened p a })) (process w).file_at;
        }))
  pub duplicated :
      (a b : ℕ) (f : OpenFile) (w : sys.World)
      → (process w).file_at a ≡ some f
      → process (sys.dup2 a b w)
        ≡ record (process w) { file_at = put b (some f) (process w).file_at }
  pub closed :
      (fd : ℕ) (w : sys.World)
      → process (sys.close fd w) ≡ record (process w) { file_at = put fd none (process w).file_at }
