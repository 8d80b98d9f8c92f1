-- ===== src/Server/FileServer/Deaf.antt =====
-- `FileServer::start` does not reach `Acceptor::ready`: nobody calls it.
use filedisk_server.Common.{ℕ, ◌<◌, ◌≡◌, refl, Bool, false, Option, none, some, List, [], arith}
use filedisk_server.Common.Runs.{Text}
use filedisk_server.Loop.Poll.{Waited}
use filedisk_server.Loop.Epoll.{Control, create_epoll_fd, add_epoll_read_fd}
use filedisk_server.Loop.EventLoop.{LoopState, has, accepted, handle_new_connection, handle_message}
use filedisk_server.Loop.EventLoop.Lifecycle.{waits}
use filedisk_server.Loop.EventLoop.Preserved.{IsKept}
use filedisk_server.Server.Acceptor.{accept_connection}
use filedisk_server.Server.FileServer.{TcpServer, Network, Node, lift, callbacks, poll, tcp_server}
use filedisk_server.Server.FileServer.Waits.{tcp_server-waits}

-- What the system calls do while no socket of the process listens: `socket`, `epoll_create`, `epoll_ctl`,
-- `epoll_wait` and `accept` do not change this, and `accept` fails with EINVAL.
pub record IsUnheard {W : Type 0} (k : Network W) (listening : W → Bool) : Type 0 where
  pub socket_unheard : (w : W) → listening w ≡ false → listening (k.sockets.socket w).1 ≡ false
  pub create_unheard :
      (w : W) (n : ℕ) → listening w ≡ false → listening (k.epoll.epoll_create w n).1 ≡ false
  pub ctl_unheard :
      (w : W) (e : ℕ) (c : Control) (fd : ℕ)
      → listening w ≡ false
      → listening (k.epoll.epoll_ctl w e c fd).1 ≡ false
  pub wait_unheard : (w : W) (e n : ℕ) → listening w ≡ false → listening (k.wait w e n).1 ≡ false
  pub accept_unheard :
      (w : W) (fd : ℕ)
      → listening w ≡ false
      → ((k.sockets.accept w fd).0 ≡ none) × (listening (k.sockets.accept w fd).1 ≡ false)

abbrev pub IsDeaf : {W : Type 0} → (W → Bool) → LoopState (Node W) → Type 0
IsDeaf listening s =
    (s.conns ≡ [])
    × (s.log ≡ [])
    × (s.outside.handed ≡ [])
    × (s.outside.published ≡ [])
    × (listening s.outside.net ≡ false)

none-has : (fd : ℕ) (conns : List ℕ) → conns ≡ [] → has fd conns ≡ false
unfolding has
none-has fd conns h = rw h refl

module _ {W : Type 0} (k : Network W) (listening : W → Bool) (laws : IsUnheard k listening) where
  module _ (a : TcpServer) where
    accepted-IsDeaf :
        (s : LoopState (Node W)) (x : Option ℕ × W)
        → (x.0 ≡ none) × (listening x.1 ≡ false)
        → IsDeaf listening s
        → IsDeaf listening (accepted (poll k a) (callbacks k) a.acceptor.fd s (lift s.outside x))
    unfolding accepted
    accepted-IsDeaf s (none, w) (_, off) (conns, log, handed, published, _) =
        (conns, log, handed, published, off)
    accepted-IsDeaf s (some fd, w) (e, _) deaf = ground (arith, e)

    IsDeaf-kept : IsKept (poll k a) (callbacks k) a.acceptor.fd (IsDeaf listening)
    unfolding handle_new_connection handle_message poll accept_connection
    IsDeaf-kept = record {
      waiting = λ s n (conns, log, handed, published, off).
          (conns, log, handed, published, laws.wait_unheard s.outside.net a.epfd n off);
      growing = λ s n h. h;
      connecting = λ s h.
          accepted-IsDeaf s (accept_connection k.sockets a.acceptor s.outside.net)
            (laws.accept_unheard s.outside.net a.acceptor.fd h.4) h;
      receiving = λ s fd h. rw (none-has fd s.conns h.0) h;
    }

  module _ (patience : W → ℕ)
      (patient : (w : W) (e n : ℕ) (w' : W)
        → k.wait w e n ≡ (Waited.interrupted, w')
        → patience w' < patience w) where
    -- When no socket listens before the server is made, and fewer than `inner` interruptions come in
    -- a row, then `waitEpollFd` returns each time that it is called on the new server, but no
    -- connection was ever accepted: no callback was called, no task went to the pool and nothing was
    -- published.
    pub tcp_server-IsDeaf :
        (ip : Text) (port n inner : ℕ) (w : W)
        → ((w : W) → patience w < inner)
        → listening w ≡ false
        → let (a, s) = tcp_server k ip port w in
          (s' : LoopState (Node W)) × (waits (poll k a) (callbacks k) a.acceptor.fd n inner s
            ≡ some s')
          × IsDeaf listening s'
    unfolding tcp_server poll create_epoll_fd add_epoll_read_fd
    tcp_server-IsDeaf ip port n inner w calm off =
        let (a, s) = tcp_server k ip port w in
        tcp_server-waits k patience patient (IsDeaf listening) ip port n inner w calm
          (IsDeaf-kept a)
          (
            refl,
            refl,
            refl,
            refl,
            laws.ctl_unheard _ _ _ _ (laws.create_unheard _ 100 (laws.socket_unheard w off)),
          )
