-- ===== src/Epoll.antt =====
-- util.hpp, lines 473 to 545: EpollUtil.
use cloud_backup_system.Common.{ℕ, ◌^◌, Bool}
use cloud_backup_system.System.{
  System, Action, EpollOp, epoll_ctl_add, epoll_ctl_mod, epoll_ctl_del, epoll_create_error,
  some_or_exit,
}

-- The constants of Linux.
abbrev pub epollin : ℕ
epollin = 1

abbrev pub epollout : ℕ
epollout = 4

abbrev pub epollet : ℕ
epollet = 2 ^ 31

module _ (sys : System) where
  open sys use {World}

  unfoldable pub make_epoll : Action World ℕ
  make_epoll = some_or_exit epoll_create_error sys.epoll_create

  unfoldable pub close_epoll : ℕ → World → World
  close_epoll epollfd w = sys.close epollfd w

  unfoldable epoll_add_or_mod : ℕ → ℕ → ℕ → EpollOp → World → Bool × World
  epoll_add_or_mod epollfd fd events op w = sys.epoll_ctl epollfd op fd events w

  unfoldable pub epoll_add : ℕ → ℕ → ℕ → World → Bool × World
  unfolding epoll_add_or_mod
  epoll_add epollfd fd events w = epoll_add_or_mod epollfd fd events epoll_ctl_add w

  unfoldable pub epoll_mod : ℕ → ℕ → ℕ → World → Bool × World
  unfolding epoll_add_or_mod
  epoll_mod epollfd fd events w = epoll_add_or_mod epollfd fd events epoll_ctl_mod w

  unfoldable pub epoll_del : ℕ → ℕ → World → Bool × World
  epoll_del epollfd fd w = sys.epoll_ctl epollfd epoll_ctl_del fd 0 w
