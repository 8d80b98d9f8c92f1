-- ===== src/Loop/Epoll.antt =====
-- What the class `EventLoop` does with its epoll instance: `createEpollFd`, `addEpollReadFd`,
-- `delEpollReadFd`, `createEventFd` and the destructor, on system calls that are parameters. A failure
-- is printed and nothing else.
use filedisk_server.Common.{ℕ, Bool, Option}
use filedisk_server.Net.Kernel.{fd_of}

pub data Control : Type 0 where
  ctl_add ctl_del : Control

pub record Epoll (W : Type 0) : Type 0 where
  pub epoll_create : W → ℕ → Option ℕ × W  -- `none` is -1
  pub epoll_ctl : W → ℕ → Control → ℕ → Bool × W  -- with EPOLLIN
  pub eventfd : W → ℕ → Option ℕ × W
  pub close : W → ℕ → W

module _ {W : Type 0} (k : Epoll W) where
  unfoldable pub create_epoll_fd : W → ℕ × W
  unfolding fd_of
  create_epoll_fd w = let (fd, w1) = k.epoll_create w 100 in (fd_of fd, w1)

  unfoldable pub add_epoll_read_fd : ℕ → W → ℕ → W
  add_epoll_read_fd epfd w fd = (k.epoll_ctl w epfd ctl_add fd).1

  unfoldable pub del_epoll_read_fd : ℕ → W → ℕ → W
  del_epoll_read_fd epfd w fd = (k.epoll_ctl w epfd ctl_del fd).1

  -- Nothing calls it.
  pub create_event_fd : W → ℕ × W
  unfolding fd_of
  create_event_fd w = let (fd, w1) = k.eventfd w 10 in (fd_of fd, w1)

  -- The destructor; `evtfd` is what the field `_evtfd` has without an initialiser.
  pub destroy_loop : ℕ → ℕ → W → W
  destroy_loop epfd evtfd w = k.close (k.close w epfd) evtfd
