-- ===== src/Daemon/Ends.antt =====
-- util.hpp, Daemon: how it ends, whatever the calls do.
use cloud_backup_system.Common.{Bytes, inl, inr, pos, ltb_ℤ, Bool-cases}
use cloud_backup_system.Path.{Env}
use cloud_backup_system.System.{
  System, Status, done, failed, daemon_error, read_only, write_only, do_call,
}
use cloud_backup_system.System.Rules.{
  Ends-do_call, Ends, Ends-bind, Ends-do_call, Ends-or_exit, Ends-some_or_exit,
}
use cloud_backup_system.Daemon.{
  dev_null, work_path, daemon, leave_parent, ignore_signals, silence_output,
}

module _ (sys : System) (E : Status → Type 0) where
  -- How Daemon ends, whatever the calls do.
  pub daemon-Ends :
      (env : Env) (program : Bytes) (w : sys.World)
      → E done
      → E (failed daemon_error)
      → Ends E (λ _ _. Unit {0}) (daemon sys env program w)
  unfolding daemon leave_parent do_call
  daemon-Ends env program w d f =
      let R : Unit {0} → sys.World → Type 0 = λ _ _. Unit {0} in
      Ends-bind E R R (leave_parent sys) _ w
        (elim (Bool-cases (ltb_ℤ (pos 0) (sys.fork w).0)) [ inl e ↦ rw e d | inr e ↦ rw e tt ])
        λ _ w1 _. Ends-or_exit E R daemon_error sys.set_session _ w1 f λ w2 _.
          Ends-do_call E R (ignore_signals sys) _ w2 (
            Ends-or_exit E R daemon_error (sys.change_dir (work_path env program)) _
              (ignore_signals sys w2) f
              λ w3 _.
                Ends-some_or_exit E R daemon_error (sys.open_file dev_null write_only) _ w3 f
                  λ wfd w4 _. Ends-do_call E R (silence_output sys wfd) _ w4 (
                    Ends-some_or_exit E R daemon_error (sys.open_file dev_null read_only) _
                      (silence_output sys wfd w4) f λ _ _ _. tt))
