-- ===== src/Start/Returned.antt =====
-- cloud_backup_server.hpp: the start of a program whose calls work.
use cloud_backup_system.Common.{◌≡◌, false, Option, some, Bytes, arith, is_negative}
use cloud_backup_system.Path.{Env}
use cloud_backup_system.FileUtil.{FileSystem}
use cloud_backup_system.Config.{Config, ConfigJson, get_instance}
use cloud_backup_system.Config.Instance.{IsRead, get_instance-IsRead}
use cloud_backup_system.Log.{LogSystem, init_logger, modify_logger_sinks}
use cloud_backup_system.System.{
  System, Outcome, returns, exits, Status, epoll_create_error, load_config_file_error,
}
use cloud_backup_system.System.Rules.{
  Ends, Goes, Goes-bind, Goes-Ends, Ends-map, Ends-bind, Goes-or_exit, Goes-some_or_exit,
}
use cloud_backup_system.System.NetLaws.{NetLaws}
use cloud_backup_system.Start.Initialized.{IsInitialized, initialize_server-IsInitialized}
use cloud_backup_system.Daemon.{daemon}
use cloud_backup_system.Epoll.{make_epoll}
use cloud_backup_system.Start.{
  CloudBackupServer, made_of, initialize_server, start_server, read_config, construct_server,
  main_program,
}
use cloud_backup_system.Start.Listening.{
  IsListening, IsStartEnd, config_read, main_program-IsListening,
}
use cloud_backup_system.Start.Works.{
  AllWork, daemon-Goes, initialize_server-Goes, start_server-Goes,
}

module _ (sys : System) (log : LogSystem sys.World) (fs : FileSystem) (json : ConfigJson) where
  module _ (laws : NetLaws sys) (disk : sys.World → fs.World) (env : Env) (program : Bytes) where
    config-Goes :
        {W : Type 0} (r : Outcome Config) (c : Config) (o : Option Config) (w : W)
        → IsRead r o
        → o ≡ some c
        → Ends (λ _. ⊥) (λ c' _. c' ≡ c) (r, w)
    config-Goes (returns c') c o w h e = ground (arith, h, e)
    config-Goes (exits n) c o w (h, _) e = ground (arith, h, e)

    main_program-Goes :
        (w : sys.World) (c : Config)
        → AllWork sys log laws
        → config_read sys log fs json laws disk env program w ≡ some c
        → is_negative c.epoll_events_size ≡ false
        → Goes (λ _ _. Unit {0}) (main_program sys log fs json disk env program w)
    unfolding main_program construct_server make_epoll
    main_program-Goes w c all read room =
        let R : CloudBackupServer → sys.World → Type 0 = λ _ _. Unit {0} in
        let E : Status → Type 0 = λ _. Unit {0} in
        let w0 = (init_logger log w).1 in
        Goes-some_or_exit R epoll_create_error sys.epoll_create _ w0 (all.epoll w0) λ epollfd w1 h1.
          Ends-bind (λ _. ⊥) (λ c' _. c' ≡ c) R (read_config sys log fs json disk env) _ w1
            (config-Goes (get_instance fs json env (disk w1)) c
              (config_read sys log fs json laws disk env program w) w1
              (rw h1 (get_instance-IsRead fs json env (disk w1))) read)
            λ config w2 same.
              Goes-bind R (daemon sys env program) _ w2
                (daemon-Goes sys log laws all env program w2)
                λ _ w3.
                  Goes-or_exit R load_config_file_error
                    (modify_logger_sinks log config.log_filepath config.roll_file_size) _ w3
                    (all.logger config.log_filepath config.roll_file_size w3)
                    λ w4 _.
                      let s0 = made_of config epollfd in
                      let I : CloudBackupServer → sys.World → Type 0 =
                        λ s v. IsInitialized s0 s (laws.net v) in
                      let initialized =
                        Goes-Ends E I (initialize_server sys s0 w4)
                          (initialize_server-IsInitialized sys laws E s0 w4 tt tt tt tt)
                          (initialize_server-Goes sys log laws all s0 w4 (rw same room)) in
                      Ends-bind (λ _. ⊥) I R (initialize_server sys s0) _ w4 initialized
                        λ s w5 i.
                          Goes-bind R (start_server sys config.listen_queue_size s) _ w5
                            (start_server-Goes sys log laws all config.listen_queue_size s0 s w5 i)
                            λ _ w6. tt

    -- If no call fails on a descriptor that is open, `fork` gives the child, and the configuration can be read and its number of
    -- events is not negative, then the start of the program returns: the server's socket is bound to
    -- the configured port and listens, and the set of epoll waits for it and for the pipe.
    pub main_program-Returned :
        (w : sys.World) (c : Config)
        → AllWork sys log laws
        → config_read sys log fs json laws disk env program w ≡ some c
        → is_negative c.epoll_events_size ≡ false
        → Ends
            (λ _. ⊥)
            (λ s v. IsListening c.server_port s (laws.net v))
            (main_program sys log fs json disk env program w)
    unfolding main_program construct_server make_epoll
    main_program-Returned w c all read room =
        let Listens : CloudBackupServer → sys.World → Type 0 = λ s v.
          (config : Config) × ((config_read sys log fs json laws disk env program w ≡ some config)
            × IsListening config.server_port s (laws.net v)) in
        let Q : CloudBackupServer → sys.World → Type 0 =
          λ s v. IsListening c.server_port s (laws.net v) in
        let r = main_program sys log fs json disk env program w in
        Ends-map (λ _. ⊥) Listens Q r
          (λ s v (config, (e, l)). let same : config ≡ c = ground (arith, e, read) in rw (← same) l)
          (Goes-Ends IsStartEnd Listens r
            (main_program-IsListening sys log fs json laws disk env program w)
            (main_program-Goes w c all read room))
