-- ===== src/Server/FileServer/Waits.antt =====
-- What the event loop keeps holds over any number of its rounds on a new server.
use filedisk_server.Common.{List, refl, inl, inr, Bool-cases, if◌then◌else◌, ℕ, ◌<◌, ◌≡◌, ap, some}
use filedisk_server.Common.Runs.{Text}
use filedisk_server.Loop.Poll.{Waited}
use filedisk_server.Loop.Epoll.{create_epoll_fd}
use filedisk_server.Loop.EventLoop.{LoopState, has, replaced}
use filedisk_server.Loop.EventLoop.Lifecycle.{waits, waits-Tracks}
use filedisk_server.Loop.EventLoop.Preserved.{IsKept, waits-kept}
use filedisk_server.Server.FileServer.{
  TcpServer, close_connection, Network, Node, callbacks, poll, new_node, tcp_server,
}

-- What a connection that is let go of changes: the network only.
abbrev pub after_replaced : {W : Type 0} → Network W → ℕ → List ℕ → W → W
after_replaced k fd conns w = if has fd conns then close_connection k w fd else w

pub replaced-net :
    {W : Type 0} (k : Network W) (a : TcpServer) (fd : ℕ) (conns : List ℕ) (node : Node W)
    → replaced (poll k a) conns fd node ≡ record node { net = after_replaced k fd conns node.net }
unfolding replaced poll
replaced-net k a fd conns node = elim (Bool-cases (has fd conns)) [
  | inl there ↦ rw there refl
  | inr absent ↦ rw absent refl
]

module _ {W : Type 0} (k : Network W) (patience : W → ℕ)
    (patient : (w : W) (e n : ℕ) (w' : W)
      → k.wait w e n ≡ (Waited.interrupted, w')
      → patience w' < patience w) where
  -- What holds at the start and is kept holds whenever `waitEpollFd` has been called `n` times.
  pub tcp_server-waits :
      (I : LoopState (Node W) → Type 0) (ip : Text) (port n inner : ℕ) (w : W)
      → ((w : W) → patience w < inner)
      → let (a, s) = tcp_server k ip port w in
        IsKept (poll k a) (callbacks k) a.acceptor.fd I
        → I s
        → (s' : LoopState (Node W)) × (waits (poll k a) (callbacks k) a.acceptor.fd n inner s
            ≡ some s')
          × I s'
  unfolding poll tcp_server create_epoll_fd
  tcp_server-waits I ip port n inner w calm keeps i =
      let (a, s) = tcp_server k ip port w in
      let (s', e, _) =
        waits-Tracks (poll k a) (callbacks k) a.acceptor.fd (λ node. patience node.net)
          (λ node m node' e. patient node.net a.epfd m node'.net (ap (λ x. (x.0, x.1.net)) e)) n
          inner (new_node (create_epoll_fd k.epoll (k.sockets.socket w).1).1)
          (λ node. calm node.net) in
      (s', e, waits-kept (poll k a) (callbacks k) a.acceptor.fd I keeps n inner s s' e i)
