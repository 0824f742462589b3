-- ===== src/Server/Wrapped.antt =====
-- cloud_backup_server.hpp: the main thread over the wrappers of util.hpp. They make the calls of
-- Sockets.Os of which the server's table depends; `read`, `write` and `accept` stay a parameter.
use cloud_backup_system.Common.{
  ℕ, ◌+◌, ◌%◌, ◌≡◌, ◌⊎◌, refl, Bool, true, false, none, some, List, Bytes, if◌then◌else◌, arith,
  Bool-cases, inl, inr, ==-refl,
}
use cloud_backup_system.Sockets.{Clients, Os, Result, at_fd}
use cloud_backup_system.System.{System}
use cloud_backup_system.System.Descriptors.{ProcessLaws}
use cloud_backup_system.System.NetLaws.{NetLaws}
use cloud_backup_system.Daemon.{set_non_block}
use cloud_backup_system.Daemon.NonBlock.{set_non_block-IsFlagged}
use cloud_backup_system.Epoll.{epoll_add, epoll_mod, epoll_del, epollin, epollout, epollet}
use cloud_backup_system.Start.Initialized.{IsWatched, flagged-HasONonblock}
use cloud_backup_system.Server.{Table, add_connection, use_time, identifier_of}
use cloud_backup_system.Server.Connections.{at_fd-put_fd}

-- The calls whose results come as lists.
pub record Streams (W : Type 0) : Type 0 where
  pub read : ℕ → W → List (Result Bytes) × W
  pub write : ℕ → Bytes → W → List (Result ℕ) × W
  pub accept : W → List (Result ℕ) × W

abbrev pub events_of : Bool → ℕ
events_of both = if both then epollin + epollout + epollet else epollin + epollet

worked_pair : {W : Type 0} (r : Bool × W) → r.0 ≡ true → r ≡ (true, r.1)
worked_pair (true, w) h = refl
worked_pair (false, w) h = absurd (ground (arith, h))

module _ (sys : System) (streams : Streams sys.World) (epollfd : ℕ) where
  abbrev pub wrapped_os : Os
  wrapped_os = record {
    World = sys.World;
    read = streams.read;
    write = streams.write;
    set_non_block = set_non_block sys;
    epoll_add = λ fd. epoll_add sys epollfd fd (events_of false);
    epoll_mod = λ fd both w. (epoll_mod sys epollfd fd (events_of both) w).1;
    epoll_del = λ fd w. (epoll_del sys epollfd fd w).1;
    close = sys.close;
    accept = streams.accept;
  }

  module _ (cl : Clients) (nets : NetLaws sys) (processes : ProcessLaws sys) where
    -- A connection that AddConnection took up, and one that it closed.
    pub record IsTakenUp (fd : ℕ) (before after : Table wrapped_os cl) : Type 0 where
      pub watched : IsWatched (nets.net after.world) epollfd fd
      pub made :
          at_fd fd after.connections
          ≡ some (cl.make (identifier_of fd ((use_time wrapped_os cl fd before + 1) % 10000)))

    pub record IsClosed (fd : ℕ) (before after : Table wrapped_os cl) : Type 0 where
      pub closed : (processes.process after.world).file_at fd ≡ none
      pub same_connections : after.connections ≡ before.connections
      pub same_times : after.use_times ≡ before.use_times

    taken_up-IsWatched :
        (fd m : ℕ) (w : sys.World)
        → (nets.net w).number_at fd ≡ some m
        → (let (blocks_not, w1) = set_non_block sys fd w in
            let (added, w2) = epoll_add sys epollfd fd (events_of false) w1 in
            blocks_not ≡ true → added ≡ true → IsWatched (nets.net w2) epollfd fd)
    unfolding epoll_add
    taken_up-IsWatched fd m w at e f =
        let (_, w1) = set_non_block sys fd w in
        let (_, w2) = epoll_add sys epollfd fd (events_of false) w1 in
        let flagged =
          set_non_block-IsFlagged sys nets fd w w1 (worked_pair (set_non_block sys fd w) e) in
        let watched =
          nets.added epollfd fd (events_of false) w1 w2
            (worked_pair (epoll_add sys epollfd fd (events_of false) w1) f) in
        record {
          no_block = rw watched (flagged-HasONonblock fd m (nets.net w) (nets.net w1) flagged at);
          reads = rw (watched, ==-refl epollfd, ==-refl fd) refl;
        }

    -- A new descriptor that is open is either in the table, under the name of its next use, does not
    -- block and is watched for reading by the set of epoll; or it is closed and the table is as before.
    pub add_connection-IsTakenUp :
        (fd m : ℕ) (s : Table wrapped_os cl)
        → (nets.net s.world).number_at fd ≡ some m
        → IsTakenUp fd s (add_connection wrapped_os cl fd s)
          ⊎ IsClosed fd s (add_connection wrapped_os cl fd s)
    unfolding add_connection
    add_connection-IsTakenUp fd m s at =
        let (blocks_not, w1) = set_non_block sys fd s.world in
        let (added, w2) = epoll_add sys epollfd fd (events_of false) w1 in
        elim (Bool-cases blocks_not) [
          | inr e ↦
              rw (e, add_connection)
                (inr (record {
                  closed = rw (processes.closed fd w1, ==-refl fd) refl;
                  same_connections = refl;
                  same_times = refl;
                }))
          | inl e ↦ elim (Bool-cases added) [
            | inr f ↦
                rw (e, f, add_connection)
                  (inr (record {
                    closed = rw (processes.closed fd w2, ==-refl fd) refl;
                    same_connections = refl;
                    same_times = refl;
                  }))
            | inl f ↦
                rw (e, f, add_connection)
                  (inl (record {
                    watched = taken_up-IsWatched fd m s.world at e f;
                    made =
                        rw
                          (
                            at_fd-put_fd fd fd
                                (cl.make
                                  (identifier_of fd ((use_time wrapped_os cl fd s + 1) % 10000)))
                                s.connections,
                            ==-refl fd,
                          )
                          refl;
                  }))
          ]
        ]
