-- ===== src/Daemon/Tests.antt =====
-- A process with a terminal at its standard descriptors becomes a daemon.
use cloud_backup_system.Common.{refl, false, none, some, bytes, arith}
use cloud_backup_system.Path.{Env}
use cloud_backup_system.System.Rules.{Ends}
use cloud_backup_system.System.{write_only}
use cloud_backup_system.System.Descriptors.{opened}
use cloud_backup_system.System.Machine.{
  Machine, machine, machine-ProcessLaws, machine-NetLaws, new_socket,
}
use cloud_backup_system.Daemon.{daemon, work_path, set_non_block}
use cloud_backup_system.Daemon.Detached.{IsDaemonEnd, IsDetached, daemon-Detached}
use cloud_backup_system.Daemon.NonBlock.{IsFlagged, set_non_block-IsFlagged}

abbrev pub launched : Machine
launched = record {
  files = record {
    file_at = λ fd. some (record { number = fd; kind = opened (bytes "/dev/tty") write_only });
    leads_session = false;
    directory = none;
    ignores = λ n. false;
  };
  bound = 3;
  count = 4;
  mode = λ fd. 2;
  sockets = record {
    number_at = λ fd. none;
    flags = λ fd. none;
    watched = λ ep fd. none;
    port = λ fd. none;
    listens = λ fd. false;
  };
}

abbrev pub launch_env : Env
launch_env = record { home = none; cwd = some (bytes "/home") }

daemon-Detached_example :
    Ends IsDaemonEnd
      (λ _ v.
        IsDetached
          (machine-ProcessLaws.process launched)
          (machine-ProcessLaws.process v)
          (work_path launch_env (bytes "./server")))
      (daemon machine launch_env (bytes "./server") launched)
unfolding machine-ProcessLaws
daemon-Detached_example =
    daemon-Detached machine machine-ProcessLaws launch_env (bytes "./server") launched
      (λ fd h. ground (arith, h))

-- A socket is made at the descriptor 4.
set_non_block-IsFlagged_example :
    IsFlagged 4
      (machine-NetLaws.net (new_socket launched))
      (machine-NetLaws.net (set_non_block machine 4 (new_socket launched)).1)
unfolding set_non_block machine-NetLaws
set_non_block-IsFlagged_example =
    set_non_block-IsFlagged machine machine-NetLaws 4 (new_socket launched)
      (set_non_block machine 4 (new_socket launched)).1 refl
