-- ===== src/Loop/Poll.antt =====
-- What the event loop calls and the repository does not implement: the system calls on the epoll
-- instance and on the sockets, and the callbacks that `TcpServer` sets.
use filedisk_server.Common.{ℕ, Bool, Option, List}
use filedisk_server.Net.Kernel.{Received}

-- What `epoll_wait` answers: -1 with EINTR, -1 with another error, or the ready descriptors, each
-- with `events & EPOLLIN`.
pub data Waited : Type 0 where
  interrupted failed : Waited
  ready : List (ℕ × Bool) → Waited

pub record Poll (W : Type 0) : Type 0 where
  pub wait : W → ℕ → Waited × W
  pub accept : W → Option ℕ × W  -- `none` is -1
  pub peek : W → ℕ → Received × W  -- `recv` with MSG_PEEK on a buffer of 10 bytes
  pub add : W → ℕ → W  -- `epoll_ctl` with EPOLL_CTL_ADD, whose result is only printed
  pub del : W → ℕ → W
  pub release : W → ℕ → W  -- the map's `shared_ptr` to the connection goes
  -- Whether another thread calls `unloop` between the last access of the loop to `_isLooping`, a
  -- test of it or the assignment at the start of `loop`, and the test that comes now.
  pub unloops : W → Bool

-- An empty `std::function` is `none`.
pub record Callbacks (W : Type 0) : Type 0 where
  pub on_new_connection : Option (ℕ → W → W)
  pub on_message : Option (ℕ → W → W)
  pub on_close : Option (ℕ → W → W)
