-- ===== src/Start/Works.antt =====
-- cloud_backup_server.hpp: the steps of the start, where no call fails.
use cloud_backup_system.Common.{
  ◌≢◌, ==-refl, ==-ne, ℕ, ℤ, ◌+◌, ◌≡◌, refl, true, false, some, Bytes, is_some, arith, pos, ltb_ℤ,
  is_negative, inl, inr, Option-cases,
}
use cloud_backup_system.Path.{Env}
use cloud_backup_system.Log.{LogSystem, modify_logger_sinks}
use cloud_backup_system.System.{
  System, Status, do_call, write_only, read_only, Access, epoll_ctl_add, init_pipe_error,
  init_socket_error, bind_socket_error, listen_socket_error, server_start_error, daemon_error,
  o_nonblock, or_bit,
}
use cloud_backup_system.System.Rules.{
  Goes, Goes-bind, Goes-Ends, Ends-map, Ends-bind, Goes-or_exit, Goes-or_exit_last,
  Goes-some_or_exit, Ends-do_call,
}
use cloud_backup_system.System.NetLaws.{NetLaws, IsMade, with_new}
use cloud_backup_system.Daemon.NonBlock.{set_non_block-IsFlagged}
use cloud_backup_system.Start.Initialized.{distinct, IsInitialized, init_socket-IsMade}
use cloud_backup_system.Daemon.{
  daemon, set_non_block, leave_parent, ignore_signals, silence_output, work_path, dev_null,
}
use cloud_backup_system.NetSocket.{on_fd, init_socket, bind_port, listen_on}
use cloud_backup_system.Epoll.{epoll_add, epollin, epollet}
use cloud_backup_system.Start.{CloudBackupServer, new_events, initialize_server, start_server}

abbrev pub IsOpen : (sys : System) (laws : NetLaws sys) → ℕ → sys.World → Type 0
IsOpen sys laws fd w = is_some ((laws.net w).number_at fd) ≡ true

-- No call fails on a descriptor that is open, and `fork` gives the child.
pub record AllWork (sys : System) (log : LogSystem sys.World) (laws : NetLaws sys) : Type 0 where
  pub child : (w : sys.World) → ltb_ℤ (pos 0) (sys.fork w).0 ≡ false
  pub session : (w : sys.World) → (sys.set_session w).0 ≡ true
  pub dir : (p : Bytes) (w : sys.World) → (sys.change_dir p w).0 ≡ true
  pub file : (p : Bytes) (a : Access) (w : sys.World) → is_some (sys.open_file p a w).0 ≡ true
  pub flags : (fd : ℕ) (w : sys.World) → IsOpen sys laws fd w → is_some (sys.get_flags fd w) ≡ true
  pub set : (fd n : ℕ) (w : sys.World) → IsOpen sys laws fd w → (sys.set_flags fd n w).0 ≡ true
  pub pipes : (w : sys.World) → is_some (sys.pipe w).0 ≡ true
  pub epoll : (w : sys.World) → is_some (sys.epoll_create w).0 ≡ true
  pub control :
      (ep fd n : ℕ) (w : sys.World)
      → IsOpen sys laws fd w
      → (sys.epoll_ctl ep epoll_ctl_add fd n w).0 ≡ true
  pub sockets : (w : sys.World) → is_some (sys.socket w).0 ≡ true
  pub binds : (fd p : ℕ) (w : sys.World) → IsOpen sys laws fd w → (sys.bind fd p w).0 ≡ true
  pub listens :
      (fd : ℕ) (n : ℤ) (w : sys.World) → IsOpen sys laws fd w → (sys.listen fd n w).0 ≡ true
  pub logger : (p : Bytes) (n : ℤ) (w : sys.World) → (modify_logger_sinks log p n w).0 ≡ true

module _ (sys : System) (log : LogSystem sys.World) (laws : NetLaws sys)
    (all : AllWork sys log laws) where
  open laws use {net}

  set_non_block_works :
      (fd : ℕ) (w : sys.World) → IsOpen sys laws fd w → (set_non_block sys fd w).0 ≡ true
  unfolding set_non_block
  set_non_block_works fd w o = elim (Option-cases (sys.get_flags fd w)) [
    | inl e ↦ absurd (ground (arith, all.flags fd w o, e))
    | inr (n, e) ↦ rw (e, set_non_block) (all.set fd (or_bit o_nonblock n) w o)
  ]

  leave_parent-Goes : (w : sys.World) → Goes (λ _ _. Unit {0}) (leave_parent sys w)
  unfolding leave_parent
  leave_parent-Goes w = rw (all.child w) tt

  pub daemon-Goes :
      (env : Env) (program : Bytes) (w : sys.World)
      → Goes (λ _ _. Unit {0}) (daemon sys env program w)
  unfolding daemon do_call
  daemon-Goes env program w =
      let R : Unit {0} → sys.World → Type 0 = λ _ _. Unit {0} in
      let E : Status → Type 0 = λ _. ⊥ in
      Goes-bind R (leave_parent sys) _ w (leave_parent-Goes w) λ _ w1.
        Goes-or_exit R daemon_error sys.set_session _ w1 (all.session w1) λ w2 _.
          Ends-do_call E R (ignore_signals sys) _ w2 (
            Goes-or_exit R daemon_error (sys.change_dir (work_path env program)) _
              (ignore_signals sys w2) (all.dir (work_path env program) (ignore_signals sys w2))
              λ w3 _.
                Goes-some_or_exit R daemon_error (sys.open_file dev_null write_only) _ w3
                  (all.file dev_null write_only w3)
                  λ wfd w4 _. Ends-do_call E R (silence_output sys wfd) _ w4 (
                    Goes-some_or_exit R daemon_error (sys.open_file dev_null read_only) _
                      (silence_output sys wfd w4)
                      (all.file dev_null read_only (silence_output sys wfd w4)) λ _ _ _. tt))

  socket-Goes : (w : sys.World) → Goes (λ _ _. Unit {0}) (init_socket sys w)
  unfolding init_socket
  socket-Goes w =
      let R : ℕ → sys.World → Type 0 = λ _ _. Unit {0} in
      Goes-some_or_exit R init_socket_error sys.socket _ w (all.sockets w)
        λ fd w1 _. Ends-do_call (λ _. ⊥) R (λ v. (sys.reuse_address fd v).1) _ w1 tt

  pipe-IsOpen : (r t : ℕ) (w v : sys.World) → sys.pipe w ≡ (some (r, t), v) → IsOpen sys laws r v
  pipe-IsOpen r t w v h =
      let p = laws.piped r t w v h in
      let n = with_new r p.read_number p.read_flag (net w) in
      let other : r ≢ t =
        distinct n.number_at r t p.read_number (rw (==-refl r) refl) p.new_write.free in
      rw (p.made, ==-ne r t other, ==-refl r) refl

  set_non_block-IsOpen :
      (fd j : ℕ) (w v : sys.World)
      → set_non_block sys fd w ≡ (true, v)
      → IsOpen sys laws j w
      → IsOpen sys laws j v
  set_non_block-IsOpen fd j w v h o =
      let flagged = set_non_block-IsFlagged sys laws fd w v h in rw flagged.now o

  init_socket-Goes : (w : sys.World) → Goes (λ fd v. IsOpen sys laws fd v) (init_socket sys w)
  init_socket-Goes w =
      let Q : ℕ → sys.World → Type 0 = λ fd v. IsMade (net w) fd (net v) in
      let E : Status → Type 0 = λ _. Unit {0} in
      Ends-map (λ _. ⊥) Q (λ fd v. IsOpen sys laws fd v) (init_socket sys w)
        (λ fd v made. rw (made.made, ==-refl fd) refl)
        (Goes-Ends E Q (init_socket sys w) (init_socket-IsMade sys laws E w tt) (socket-Goes w))

  epoll_add_works :
      (ep fd n : ℕ) (w : sys.World) → IsOpen sys laws fd w → (epoll_add sys ep fd n w).0 ≡ true
  unfolding epoll_add
  epoll_add_works ep fd n w = all.control ep fd n w

  pub initialize_server-Goes :
      (s : CloudBackupServer) (w : sys.World)
      → is_negative s.maxevents ≡ false
      → Goes (λ _ _. Unit {0}) (initialize_server sys s w)
  unfolding initialize_server bind_port
  initialize_server-Goes s w room =
      let R : CloudBackupServer → sys.World → Type 0 = λ _ _. Unit {0} in
      Goes-some_or_exit R init_pipe_error sys.pipe _ w (all.pipes w) λ (r, t) w1 h1.
        let o1 : IsOpen sys laws r w1 = pipe-IsOpen r t w w1 h1 in
        Goes-or_exit R init_pipe_error (set_non_block sys r) _ w1 (set_non_block_works r w1 o1)
          λ w2 h2.
            Goes-or_exit R init_pipe_error (epoll_add sys s.epollfd r (epollin + epollet)) _ w2
              (epoll_add_works s.epollfd r (epollin + epollet) w2
                (set_non_block-IsOpen r r w1 w2 h2 o1))
              λ w3 _.
                Ends-bind (λ _. ⊥) (λ fd v. IsOpen sys laws fd v) R (init_socket sys) _ w3
                  (init_socket-Goes w3)
                  λ fd w4 o4.
                    Goes-or_exit R bind_socket_error
                      (on_fd (λ fd. sys.bind fd s.server_port) (some fd)) _ w4
                      (all.binds fd s.server_port w4 o4)
                      λ w5 _. Goes-bind R (new_events sys s.maxevents) _ w5 (rw room tt) λ _ _. tt

  pub start_server-Goes :
      (size : ℤ) (s0 s : CloudBackupServer) (w : sys.World)
      → IsInitialized s0 s (net w)
      → Goes (λ _ _. Unit {0}) (start_server sys size s w)
  unfolding start_server listen_on
  start_server-Goes size s0 s w i =
      let R : Unit {0} → sys.World → Type 0 = λ _ _. Unit {0} in
      let fd = i.socket_fd in
      let o : IsOpen sys laws fd w = let (m, at) = i.socket_open in rw at refl in
      Goes-or_exit R listen_socket_error (on_fd (λ fd. sys.listen fd size) s.socket) _ w
        (rw i.socket (all.listens fd size w o))
        λ w1 h1.
          let o1 : IsOpen sys laws fd w1 = rw (laws.listened fd size w w1 (rw i.socket at h1)) o in
          Goes-or_exit R server_start_error (on_fd (set_non_block sys) s.socket) _ w1
            (rw i.socket (set_non_block_works fd w1 o1))
            λ w2 h2.
              Goes-or_exit_last server_start_error
                (on_fd (λ fd. epoll_add sys s.epollfd fd (epollin + epollet)) s.socket) w2
                (rw i.socket (
                  epoll_add_works s.epollfd fd (epollin + epollet) w2
                    (set_non_block-IsOpen fd fd w1 w2 (rw i.socket at h2) o1)))
