-- ===== src/Server/Acceptor.antt =====
-- tcppart/Acceptor.cc and tcppart/Socket.cc. The system calls on sockets are parameters; a failure is
-- printed and nothing else, so that only their effects stay.
use filedisk_server.Common.{ℕ, Bool, Option}
use filedisk_server.Net.Kernel.{fd_of}
use filedisk_server.Server.Address.{InetAddress}

pub data SocketOption : Type 0 where
  so_reuseaddr so_reuseport : SocketOption

-- What `socket` and `accept` answer is `none` for -1.
pub record Sockets (W : Type 0) : Type 0 where
  pub socket : W → Option ℕ × W
  pub setsockopt : W → ℕ → SocketOption → Bool × W
  pub bind : W → ℕ → InetAddress → Bool × W
  pub listen : W → ℕ → ℕ → Bool × W
  pub accept : W → ℕ → Option ℕ × W

pub record Acceptor : Type 0 where
  pub fd : ℕ
  pub addr : InetAddress

module _ {W : Type 0} (k : Sockets W) where
  -- The constructor, with that of `Socket`.
  unfoldable pub acceptor : InetAddress → W → Acceptor × W
  unfolding fd_of
  acceptor addr w = let (fd, w1) = k.socket w in (record { fd = fd_of fd; addr = addr }, w1)

  set_reuse_addr : Acceptor → W → W
  set_reuse_addr a w = (k.setsockopt w a.fd so_reuseaddr).1

  set_reuse_port : Acceptor → W → W
  set_reuse_port a w = (k.setsockopt w a.fd so_reuseport).1

  bind_acceptor : Acceptor → W → W
  bind_acceptor a w = (k.bind w a.fd a.addr).1

  listen_acceptor : Acceptor → W → W
  listen_acceptor a w = (k.listen w a.fd 128).1

  pub make_ready : Acceptor → W → W
  unfolding set_reuse_addr set_reuse_port bind_acceptor listen_acceptor
  make_ready a w = listen_acceptor a (bind_acceptor a (set_reuse_port a (set_reuse_addr a w)))

  unfoldable pub accept_connection : Acceptor → W → Option ℕ × W
  accept_connection a w = k.accept w a.fd

-- `shutdown` with SHUT_WR is a parameter of its own: nothing calls this.
unfoldable pub shut_down_write : {W : Type 0} → (W → ℕ → Bool × W) → ℕ → W → W
shut_down_write shutdown fd w = (shutdown w fd).1
