-- ===== src/Server/FileServer/Descriptors.antt =====
-- Which descriptors epoll watches, and which are closed, over any run of the event loop.
use filedisk_server.Common.{
  ℕ, ◌^◌, ◌<◌, ◌≡◌, refl, sym, subst, ◌∙◌, inl, inr, Bool, true, false, not, ◌&&◌, Option, none,
  some, List, [], ◌∷◌, ◌++◌, append_assoc, append-nil, arith, Bool-cases, ◌==◌,
}
use filedisk_server.Common.Runs.{Text}
use filedisk_server.Net.Kernel.{fd_of, Received, bytes}
use filedisk_server.Loop.Poll.{Waited, Poll}
use filedisk_server.Loop.Epoll.{create_epoll_fd, add_epoll_read_fd, del_epoll_read_fd}
use filedisk_server.Loop.Connection.{call}
use filedisk_server.Loop.EventLoop.{
  opened, message, closed, LoopState, has, is_closed, replaced, accepted, handle_new_connection,
  handle_known, handle_message,
}
use filedisk_server.Loop.EventLoop.Lifecycle.{has-put, has-erase, waits}
use filedisk_server.Loop.EventLoop.Preserved.{IsKept}
use filedisk_server.Server.Acceptor.{accept_connection}
use filedisk_server.Server.FileServer.{
  TcpServer, Addresses, Network, Node, lift, publish, connect, on_new_connection, on_close,
  on_message, callbacks, poll, tcp_server, close_connection,
}
use filedisk_server.Server.FileServer.Waits.{tcp_server-waits}
use filedisk_server.Server.FileServer.Watch.{
  Watch, Same, IsWatching, Succeeds, closed_twice-append, IsWatched,
}

replaced-absent :
    {W : Type 0} (p : Poll W) (fd : ℕ) (conns : List ℕ) (w : W)
    → has fd conns ≡ false
    → replaced p conns fd w ≡ w
unfolding replaced
replaced-absent p fd conns w h = rw h refl

known-apart :
    (fd listenfd : ℕ) (conns : List ℕ)
    → has fd conns ≡ true
    → has listenfd conns ≡ false
    → (x : ℕ) → (fd == x) ≡ true
    → (listenfd == x) ≡ false
known-apart fd listenfd conns there apart x e = ground arith

module _ {W : Type 0} (v : Watch W) (k : Network W) (laws : IsWatching v k) (luck : Succeeds v k)
    (a : TcpServer) where
  publish-net :
      (tail : Text) (e : Option Addresses) (node : Node W) → (publish k tail e node).net ≡ node.net
  unfolding publish
  publish-net tail none node = refl
  publish-net tail (some e) node = refl

  accepted-IsWatched :
      (s : LoopState (Node W)) (x : Option ℕ × W)
      → Same v s.outside.net x.1
      → ((connfd : ℕ)
          → x.0 ≡ some connfd
          → (connfd < 2 ^ 31)
            × ((connfd == a.acceptor.fd) ≡ false)
            × ((e : ℕ) → v.watches x.1 e connfd ≡ false))
      → IsWatched v a.epfd a.acceptor.fd s
      → IsWatched v a.epfd a.acceptor.fd
          (accepted (poll k a) (callbacks k) a.acceptor.fd s (lift s.outside x))
  unfolding accepted call poll callbacks on_new_connection connect add_epoll_read_fd
  accepted-IsWatched s (none, w) (same, kept) new (watched, apart, twice) =
      (λ x. same a.epfd x ∙ watched x, apart, kept ∙ twice)
  accepted-IsWatched s (some fd, w) (same, kept) new (watched, apart, twice) =
      let (small, differs, free) = new fd refl in
      let (more, still) =
        laws.add_watches w a.epfd fd (luck.adds w a.epfd fd small (free a.epfd)) in
      let absent : has fd s.conns ≡ false =
        ground (arith, free a.epfd, same a.epfd fd, watched fd) in
      rw (publish-net, replaced-absent (poll k a) fd s.conns _ absent)
        (
          λ x. ground (arith, more x, same a.epfd x, watched x, has-put x fd s.conns),
          ground (arith, has-put a.acceptor.fd fd s.conns, differs, apart),
          still ∙ kept ∙ twice ∙ sym (closed_twice-append s.log (opened fd) ∙ append-nil _),
        )

  -- What the destructor leaves.
  close_connection-watches :
      (w : W) (fd : ℕ)
      → ((e x : ℕ) → v.watches (close_connection k w fd) e x ≡ (not (fd == x) && v.watches w e x))
        × (v.closes (close_connection k w fd) ≡ v.closes w ++ (fd ∷ fd ∷ []))
  unfolding close_connection
  close_connection-watches w fd =
      let (gone, c) = laws.close_watches w fd in
      let (gone1, c1) = laws.close_watches (k.epoll.close w fd) fd in
      (λ e x. ground (arith, gone1 e x, gone e x), c1 ∙ rw (c, append_assoc) refl)

  handle_known-IsWatched :
      (s : LoopState (Node W)) (fd : ℕ) (b : Bool) (w : W)
      → has fd s.conns ≡ true
      → Same v s.outside.net w
      → IsWatched v a.epfd a.acceptor.fd s
      → IsWatched v a.epfd a.acceptor.fd (
          handle_known
            (poll k a)
            (callbacks k)
            a.acceptor.fd
            s
            fd
            (b, record s.outside { net = w }))
  unfolding handle_known call poll callbacks on_close on_message del_epoll_read_fd
  handle_known-IsWatched s fd true w there (same, kept) (watched, apart, twice) =
      let (gone, still) =
        laws.del_watches w a.epfd fd
          (luck.dels w a.epfd fd (ground (arith, same a.epfd fd, watched fd, there))) in
      let (gone1, two) = close_connection-watches (del_epoll_read_fd k.epoll a.epfd w fd) fd in
      rw publish-net (
        λ x. ground (
          arith,
          gone1 a.epfd x,
          gone x,
          same a.epfd x,
          watched x,
          has-erase x fd s.conns,
          known-apart fd a.acceptor.fd s.conns there apart x,
        ),
        ground (arith, has-erase a.acceptor.fd fd s.conns, apart),
        two ∙ rw (closed_twice-append s.log (closed fd), still, kept, twice) refl,
      )
  handle_known-IsWatched s fd false w there (same, kept) (watched, apart, twice) = (
    λ x. same a.epfd x ∙ watched x,
    apart,
    kept ∙ twice ∙ sym (closed_twice-append s.log (message fd) ∙ append-nil _),
  )

  handle_peeked-IsWatched :
      (s : LoopState (Node W)) (fd : ℕ) (x : Received × W)
      → has fd s.conns ≡ true
      → Same v s.outside.net x.1
      → IsWatched v a.epfd a.acceptor.fd s
      → IsWatched v a.epfd a.acceptor.fd
          (handle_known (poll k a) (callbacks k) a.acceptor.fd s fd (is_closed (lift s.outside x)))
  unfolding is_closed
  handle_peeked-IsWatched s fd (Received.interrupted, w) = handle_known-IsWatched s fd false w
  handle_peeked-IsWatched s fd (Received.failed, w) = handle_known-IsWatched s fd false w
  handle_peeked-IsWatched s fd (bytes [], w) = handle_known-IsWatched s fd true w
  handle_peeked-IsWatched s fd (bytes (b ∷ bs), w) = handle_known-IsWatched s fd false w

  handle_message-IsWatched :
      (s : LoopState (Node W)) (fd : ℕ)
      → IsWatched v a.epfd a.acceptor.fd s
      → IsWatched v a.epfd a.acceptor.fd
          (handle_message (poll k a) (callbacks k) a.acceptor.fd s fd)
  unfolding handle_message poll
  handle_message-IsWatched s fd h = elim (Bool-cases (has fd s.conns)) [
    | inl there ↦ rw there (
        handle_peeked-IsWatched s fd (k.peek s.outside.net fd) there
          (laws.peek_same s.outside.net fd) h)
    | inr absent ↦ rw absent h
  ]

  IsWatched-kept : IsKept (poll k a) (callbacks k) a.acceptor.fd (IsWatched v a.epfd a.acceptor.fd)
  unfolding handle_new_connection poll accept_connection
  IsWatched-kept = record {
    waiting = λ s n (watched, apart, twice).
        let (same, kept) = laws.wait_same s.outside.net a.epfd n in
        (λ x. same a.epfd x ∙ watched x, apart, kept ∙ twice);
    growing = λ s n h. h;
    connecting = λ s h.
        accepted-IsWatched s (accept_connection k.sockets a.acceptor s.outside.net)
          (laws.accept_same s.outside.net a.acceptor.fd)
          (laws.accept_new s.outside.net a.acceptor.fd) h;
    receiving = handle_message-IsWatched;
  }

module _ {W : Type 0} (v : Watch W) (k : Network W) (laws : IsWatching v k) (luck : Succeeds v k)
    (patience : W → ℕ)
    (patient : (w : W) (e n : ℕ) (w' : W)
      → k.wait w e n ≡ (Waited.interrupted, w')
      → patience w' < patience w) where
  -- Let epoll_ctl never fail to add a descriptor that is not watched or to remove one that is, let
  -- `socket` and `epoll_create` give descriptors, let nothing be closed before the server is made, and
  -- let fewer than `inner` interruptions come in a row. Then `waitEpollFd` returns each time that it is
  -- called on the new server. Afterwards its epoll instance watches the listening descriptor and those
  -- of the connections of the map, and no others; the listening one is not in the map; and the
  -- descriptors that were closed are those of the connections that are over, each closed twice.
  pub tcp_server-IsWatched :
      (ip : Text) (port n inner : ℕ) (w : W) (listenfd epfd : ℕ)
      → ((w : W) → patience w < inner)
      → (k.sockets.socket w).0 ≡ some listenfd
      → listenfd < 2 ^ 31
      → (k.epoll.epoll_create (k.sockets.socket w).1 100).0 ≡ some epfd
      → v.closes w ≡ []
      → let (a, s) = tcp_server k ip port w in
        (s' : LoopState (Node W)) × (waits (poll k a) (callbacks k) a.acceptor.fd n inner s
          ≡ some s')
        × IsWatched v epfd listenfd s'
  unfolding tcp_server poll has fd_of create_epoll_fd add_epoll_read_fd
  tcp_server-IsWatched ip port n inner w listenfd epfd calm made small created open_yet =
      let (a, s) = tcp_server k ip port w in
      let (same, kept) = laws.socket_same w in
      let listening : a.acceptor.fd ≡ listenfd = rw made refl in
      let instance_of : a.epfd ≡ epfd = rw created refl in
      let (nothing, kept1) = laws.create_none (k.sockets.socket w).1 100 epfd created in
      let blank : (x : ℕ)
          → v.watches (k.epoll.epoll_create (k.sockets.socket w).1 100).1 a.epfd x ≡ false =
        rw instance_of nothing in
      let (more, still) =
        laws.add_watches (k.epoll.epoll_create (k.sockets.socket w).1 100).1 a.epfd a.acceptor.fd (
          luck.adds (k.epoll.epoll_create (k.sockets.socket w).1 100).1 a.epfd a.acceptor.fd
            (rw listening small) (blank a.acceptor.fd)) in
      let (s', e, h) =
        tcp_server-waits k patience patient (IsWatched v a.epfd a.acceptor.fd) ip port n inner w
          calm (IsWatched-kept v k laws luck a)
          (λ x. ground (arith, more x, blank x), refl, still ∙ kept1 ∙ kept ∙ open_yet) in
      (
        s',
        e,
        subst (λ fd. IsWatched v epfd fd s') listening
            (subst (λ x. IsWatched v x a.acceptor.fd s') instance_of h),
      )
