-- ===== src/Daemon/Detached.antt =====
-- util.hpp, Daemon: the process behind it.
use cloud_backup_system.Common.{
  ℕ, zero, suc, ==_iff, ==-ne, ==-refl, ◌≤◌, ◌<◌, ◌≡◌, refl, sym, ◌∙◌, true, Option, none, some,
  Bytes, ◌==◌, is_some, arith, ◌⊎◌, inl, inr, pos, ltb_ℤ, Bool-cases,
}
use cloud_backup_system.Path.{Env}
use cloud_backup_system.System.{
  System, Status, done, failed, daemon_error, Access, read_only, write_only, do_call,
}
use cloud_backup_system.System.Rules.{
  Ends-do_call, Ends, Ends-bind, Ends-do_call, Ends-or_exit, Ends-some_or_exit,
}
use cloud_backup_system.System.Descriptors.{OpenFile, opened, Process, put, ProcessLaws}
use cloud_backup_system.Daemon.{
  sigchld, sigpipe, dev_null, work_path, daemon, leave_parent, ignore_signals, silence_output,
  silence_input,
}

abbrev pub IsDaemonEnd : Status → Type 0
IsDaemonEnd n = (n ≡ done) ⊎ (n ≡ failed daemon_error)

abbrev null_file : ℕ → Access → OpenFile
null_file n a = record { number = n; kind = opened dev_null a }

above :
    (f : ℕ → Option OpenFile) (fd : ℕ)
    → is_some (f 0) ≡ true
    → is_some (f 1) ≡ true
    → is_some (f 2) ≡ true
    → f fd ≡ none
    → 3 ≤ fd
above f zero a b c h = absurd (ground (arith, a, h))
above f (suc zero) a b c h = absurd (ground (arith, b, h))
above f (suc (suc zero)) a b c h = absurd (ground (arith, c, h))
above f (suc (suc (suc n))) a b c h = omega arith

-- The process that a daemon was made of, and the daemon.
pub record IsDetached (before after : Process) (dir : Bytes) : Type 0 where
  pub session : after.leads_session ≡ true
  pub directory : after.directory ≡ some dir
  pub ignores_child : after.ignores sigchld ≡ true
  pub ignores_pipe : after.ignores sigpipe ≡ true
  pub input : (n : ℕ) × (after.file_at 0 ≡ some (null_file n read_only))
  pub output :
      (n : ℕ) × ((after.file_at 1 ≡ some (null_file n write_only))
        × (after.file_at 2 ≡ some (null_file n write_only)))
  pub others : (fd : ℕ) → 3 ≤ fd → after.file_at fd ≡ before.file_at fd

module _ (sys : System) (laws : ProcessLaws sys) where
  open laws use {process}

  silence_output_lem :
      (wfd n : ℕ) (w : sys.World)
      → (process w).file_at wfd ≡ some (null_file n write_only)
      → 3 ≤ wfd
      → process (silence_output sys wfd w) ≡ record (process w) {
        file_at = put wfd none (
            put 2
              (some (null_file n write_only))
              (put 1 (some (null_file n write_only)) (process w).file_at));
      }
  silence_output_lem wfd n w h above =
      let f = null_file n write_only in
      let u = sys.dup2 wfd 1 w in
      let e1 : process u ≡ record (process w) { file_at = put 1 (some f) (process w).file_at } =
        laws.duplicated wfd 1 f w h in
      let h1 : (process u).file_at wfd ≡ some f = rw e1 (ground (arith, h)) in
      let e2 = laws.duplicated wfd 2 f u h1 in rw (laws.closed wfd (sys.dup2 wfd 2 u), e2, e1) refl

  silence_input_lem :
      (rfd n : ℕ) (w : sys.World)
      → (process w).file_at rfd ≡ some (null_file n read_only)
      → process (silence_input sys rfd w) ≡ record (process w) {
        file_at = put rfd none (put 0 (some (null_file n read_only)) (process w).file_at);
      }
  silence_input_lem rfd n w h =
      rw (laws.closed rfd (sys.dup2 rfd 0 w), laws.duplicated rfd 0 (null_file n read_only) w h)
        refl

  module _ (env : Env) (program : Bytes) (w : sys.World) where
    abbrev old : ℕ → Option OpenFile
    old = (process w).file_at

    -- The process before its standard descriptors are opened anew.
    abbrev alone : Process
    alone = record (process w) {
      leads_session = true;
      directory = some (work_path env program);
      ignores = put sigpipe true (put sigchld true (process w).ignores);
    }

    abbrev output_opened : ℕ → ℕ → ℕ → Option OpenFile
    output_opened wfd n = put wfd (some (null_file n write_only)) old

    abbrev output_null : ℕ → ℕ → ℕ → Option OpenFile
    output_null wfd n =
        let f = some (null_file n write_only) in
        put wfd none (put 2 f (put 1 f (output_opened wfd n)))

    abbrev all_null : ℕ → ℕ → ℕ → ℕ → ℕ → Option OpenFile
    all_null wfd n rfd m =
        let f = some (null_file m read_only) in
        put rfd none (put 0 f (put rfd f (output_null wfd n)))

    module _ (is_open : (fd : ℕ) → fd < 3 → is_some (old fd) ≡ true) (wfd n : ℕ)
        (wfd_free : old wfd ≡ none) where
      wfd_above : 3 ≤ wfd
      wfd_above =
          above old wfd (is_open 0 (omega arith)) (is_open 1 (omega arith))
            (is_open 2 (omega arith)) wfd_free

      output_null-others : (fd : ℕ) → 3 ≤ fd → output_null wfd n fd ≡ old fd
      output_null-others fd h = elim (Bool-cases (fd == wfd)) [
        | inl e ↦
            let same : fd ≡ wfd = (==_iff fd wfd).0 e in
            let free : old fd ≡ none = rw same wfd_free in rw (e, free) refl
        | inr e ↦ rw (e, ==-ne fd 2 (omega arith), ==-ne fd 1 (omega arith)) refl
      ]

      module _ (rfd m : ℕ) (rfd_free : output_null wfd n rfd ≡ none) where
        rfd_above : 3 ≤ rfd
        rfd_above =
            above (output_null wfd n) rfd (ground (arith, is_open 0 (omega arith), wfd_above))
              (ground (arith, wfd_above)) (ground (arith, wfd_above)) rfd_free

        all_null-others : (fd : ℕ) → 3 ≤ fd → all_null wfd n rfd m fd ≡ old fd
        all_null-others fd h = elim (Bool-cases (fd == rfd)) [
          | inl e ↦
              let same : fd ≡ rfd = (==_iff fd rfd).0 e in
              let free : output_null wfd n fd ≡ none = rw same rfd_free in
              rw e (sym free ∙ output_null-others fd h)
          | inr e ↦ rw (e, ==-ne fd 0 (omega arith)) (output_null-others fd h)
        ]

        all_null-IsDetached :
            (v : sys.World)
            → process v ≡ record alone { file_at = all_null wfd n rfd m }
            → IsDetached (process w) (process v) (work_path env program)
        all_null-IsDetached v e = rw e (record {
          session = refl;
          directory = refl;
          ignores_child = refl;
          ignores_pipe = refl;
          input = (m, ground (arith, rfd_above));
          output =
              (n, (ground (arith, rfd_above, wfd_above), ground (arith, rfd_above, wfd_above)));
          others = all_null-others;
        })

    leave_parent_lem : Ends IsDaemonEnd (λ _ v. process v ≡ process w) (leave_parent sys w)
    unfolding leave_parent
    leave_parent_lem =
        let (pid, v) = sys.fork w in
        elim (Bool-cases (ltb_ℤ (pos 0) pid)) [
          | inl e ↦ rw e (inl refl)
          | inr e ↦ rw e (laws.forked w)
        ]

    left_alone :
        (w1 w2 w3 : sys.World)
        → process w1 ≡ process w
        → sys.set_session w1 ≡ (true, w2)
        → sys.change_dir (work_path env program) (ignore_signals sys w2) ≡ (true, w3)
        → process w3 ≡ alone
    left_alone w1 w2 w3 e1 h2 h3 =
        rw
          (
            laws.dir_changed (work_path env program) (ignore_signals sys w2) w3 h3,
            laws.signal_ignored sigpipe (sys.ignore_signal sigchld w2),
            laws.signal_ignored sigchld w2,
            laws.session_set w1 w2 h2,
            e1,
          )
          refl

    -- From the first opening of /dev/null on.
    nulled :
        ((fd : ℕ) → fd < 3 → is_some (old fd) ≡ true)
        → (w3 w4 w5 : sys.World) (wfd rfd : ℕ) → process w3 ≡ alone
        → sys.open_file dev_null write_only w3 ≡ (some wfd, w4)
        → sys.open_file dev_null read_only (silence_output sys wfd w4) ≡ (some rfd, w5)
        → IsDetached (process w) (process (silence_input sys rfd w5)) (work_path env program)
    nulled is_open w3 w4 w5 wfd rfd e3 h4 h5 =
        let (free4, (n, e4)) = laws.file_opened _ _ wfd w3 w4 h4 in
        let wfd_free : old wfd ≡ none = rw e3 at free4 in
        let at4 : (process w4).file_at wfd ≡ some (null_file n write_only) =
          rw (e4, ==-refl wfd) refl in
        let far = wfd_above is_open wfd n wfd_free in
        let out : process (silence_output sys wfd w4)
            ≡ record alone { file_at = output_null wfd n } =
          silence_output_lem wfd n w4 at4 far ∙ rw (e4, e3) refl in
        let (free5, (m, e5)) = laws.file_opened _ _ rfd (silence_output sys wfd w4) w5 h5 in
        let rfd_free : output_null wfd n rfd ≡ none = rw out at free5 in
        let at5 : (process w5).file_at rfd ≡ some (null_file m read_only) =
          rw (e5, ==-refl rfd) refl in
        all_null-IsDetached is_open wfd n wfd_free rfd m rfd_free (silence_input sys rfd w5)
          (silence_input_lem rfd m w5 at5 ∙ rw (e5, out) refl)

    -- Where the three standard descriptors are open, Daemon ends the process with the status 0 or with
    -- DAEMON_ERROR, or it returns. It then leads a session of its own in the directory of the program
    -- and ignores SIGCHLD and SIGPIPE; the three descriptors are /dev/null, the first for reading and
    -- the others for writing, and every other descriptor is what it was: none is left open.
    pub daemon-Detached :
        ((fd : ℕ) → fd < 3 → is_some (old fd) ≡ true)
        → Ends IsDaemonEnd
            (λ _ v. IsDetached (process w) (process v) (work_path env program))
            (daemon sys env program w)
    unfolding daemon do_call
    daemon-Detached is_open =
        let E : Status → Type 0 = IsDaemonEnd in
        let R : Unit {0} → sys.World → Type 0 =
          λ _ v. IsDetached (process w) (process v) (work_path env program) in
        let failed_end : IsDaemonEnd (failed daemon_error) = inr refl in
        Ends-bind E (λ _ v. process v ≡ process w) R _ _ w leave_parent_lem
          λ _ w1 e1. Ends-or_exit E R daemon_error _ _ w1 failed_end λ w2 h2.
            Ends-do_call E R _ _ w2 (
              Ends-or_exit E R daemon_error _ _ (ignore_signals sys w2) failed_end λ w3 h3.
                Ends-some_or_exit E R daemon_error _ _ w3 failed_end λ wfd w4 h4.
                  Ends-do_call E R _ _ w4 (
                    Ends-some_or_exit E R daemon_error _ _ (silence_output sys wfd w4) failed_end
                      λ rfd w5 h5.
                        nulled is_open w3 w4 w5 wfd rfd (left_alone w1 w2 w3 e1 h2 h3) h4 h5))
