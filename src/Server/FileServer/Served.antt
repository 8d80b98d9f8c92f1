-- ===== src/Server/FileServer/Served.antt =====
-- What the callbacks of the file server leave behind, over any run of the event loop.
use filedisk_server.Common.{
  not, ◌||◌, ℕ, suc, ◌+◌, ◌<◌, ◌≡◌, refl, inl, inr, Bool, true, false, Option, none, some, List, [],
  ◌∷◌, ◌++◌, length, length-append, arith, Bool-cases,
}
use filedisk_server.Common.Runs.{Text}
use filedisk_server.Common.Text.{bytes_of}
use filedisk_server.Net.Kernel.{Received, bytes}
use filedisk_server.Loop.Poll.{Waited}
use filedisk_server.Loop.Epoll.{add_epoll_read_fd}
use filedisk_server.Loop.Connection.{call}
use filedisk_server.Loop.EventLoop.{
  Call, opened, message, closed, LoopState, has, put, is_closed, accepted, handle_new_connection,
  handle_known, handle_message,
}
use filedisk_server.Loop.EventLoop.Lifecycle.{has-put, has-erase, waits}
use filedisk_server.Loop.EventLoop.Preserved.{IsKept}
use filedisk_server.Server.Acceptor.{accept_connection}
use filedisk_server.Server.FileServer.Waits.{after_replaced, replaced-net, tcp_server-waits}
use filedisk_server.Server.FileServer.{
  TcpServer, Addresses, Network, Node, destroy, ends_of, lift, publish, connect, on_new_connection,
  on_close, on_message, callbacks, poll, tcp_server,
}

abbrev pub messages_in : List Call → ℕ
messages_in [] = 0
messages_in (message fd ∷ l) = suc (messages_in l)
messages_in (opened fd ∷ l) = messages_in l
messages_in (closed fd ∷ l) = messages_in l

-- The calls that publish.
abbrev pub reports_in : List Call → ℕ
reports_in [] = 0
reports_in (message fd ∷ l) = reports_in l
reports_in (opened fd ∷ l) = suc (reports_in l)
reports_in (closed fd ∷ l) = suc (reports_in l)

messages_in-append :
    (l : List Call) (c : Call) → messages_in (l ++ (c ∷ [])) ≡ messages_in l + messages_in (c ∷ [])
messages_in-append [] c = omega arith
messages_in-append (message fd ∷ l) c = omega (arith, messages_in-append l c)
messages_in-append (opened fd ∷ l) c = messages_in-append l c
messages_in-append (closed fd ∷ l) c = messages_in-append l c

reports_in-append :
    (l : List Call) (c : Call) → reports_in (l ++ (c ∷ [])) ≡ reports_in l + reports_in (c ∷ [])
reports_in-append [] c = omega arith
reports_in-append (message fd ∷ l) c = reports_in-append l c
reports_in-append (opened fd ∷ l) c = omega (arith, reports_in-append l c)
reports_in-append (closed fd ∷ l) c = omega (arith, reports_in-append l c)

abbrev is_known : Option Addresses → Bool
is_known none = false
is_known (some e) = true

-- No FileTask is left, although one was handed to the pool for each message; and the messages to
-- RabbitMQ are one for each connection and one for each close, as every connection of the map has its
-- addresses.
abbrev pub IsServed : {W : Type 0} → LoopState (Node W) → Type 0
IsServed s =
    (s.outside.tasks ≡ [])
    × (length s.outside.handed ≡ messages_in s.log)
    × ((fd : ℕ) → (not (has fd s.conns) || is_known (ends_of fd s.outside.ends)) ≡ true)
    × (length s.outside.published ≡ reports_in s.log)

module _ {W : Type 0} (k : Network W) (a : TcpServer) where
  publish-known :
      (tail : Text) (e : Option Addresses) (node : Node W)
      → is_known e ≡ true
      → (t : Text) × (publish k tail e node
          ≡ record node { published = node.published ++ (t ∷ []) })
  unfolding publish
  publish-known tail none node h = ground arith
  publish-known tail (some e) node h = (_, refl)

  destroy-only : (id : ℕ) (xs : List ℕ) → xs ≡ [] → destroy id (id ∷ xs) ≡ []
  unfolding destroy
  destroy-only id xs h = rw h (ground arith)

  ends_of-put :
      (fd x : ℕ) (e : Addresses) (conns : List ℕ) (ends : List (ℕ × Addresses))
      → ((fd : ℕ) → (not (has fd conns) || is_known (ends_of fd ends)) ≡ true)
      → (not (has fd (put x conns)) || is_known (ends_of fd ((x, e) ∷ ends))) ≡ true
  unfolding ends_of
  ends_of-put fd x e conns ends named = ground (arith, has-put fd x conns, named fd)

  accepted-IsServed :
      (s : LoopState (Node W)) (x : Option ℕ × W)
      → IsServed s
      → IsServed (accepted (poll k a) (callbacks k) a.acceptor.fd s (lift s.outside x))
  unfolding accepted call poll callbacks on_new_connection connect
  accepted-IsServed s (none, w) h = h
  accepted-IsServed s (some fd, w) (gone, handed, named, reported) =
      let net = after_replaced k fd s.conns (add_epoll_read_fd k.epoll a.epfd w fd) in
      let node = connect k fd (record s.outside { net = net }) in
      let still =
        replaced-net k a fd s.conns
          (record s.outside { net = add_epoll_read_fd k.epoll a.epfd w fd }) in
      let (t, q) =
        publish-known (bytes_of " has connected!") (ends_of fd node.ends) node (ground arith) in
      rw (still, q)
        (
          gone,
          ground (arith, handed, messages_in-append s.log (opened fd)),
          λ x. ends_of-put x fd _ s.conns s.outside.ends named,
          ground (
            arith,
            reported,
            reports_in-append s.log (opened fd),
            length-append s.outside.published (t ∷ []),
          ),
        )

  handle_known-IsServed :
      (s : LoopState (Node W)) (fd : ℕ) (b : Bool) (w : W)
      → has fd s.conns ≡ true
      → IsServed s
      → IsServed (
          handle_known
            (poll k a)
            (callbacks k)
            a.acceptor.fd
            s
            fd
            (b, record s.outside { net = w }))
  unfolding handle_known call poll callbacks on_close on_message
  handle_known-IsServed s fd true w there (gone, handed, named, reported) =
      let (t, q) =
        publish-known (bytes_of " has closed!") (ends_of fd s.outside.ends)
          (record s.outside { net = w }) (ground (arith, named fd, there)) in
      rw q (
        gone,
        ground (arith, handed, messages_in-append s.log (closed fd)),
        λ x. ground (arith, named x, has-erase x fd s.conns),
        ground (
          arith,
          reported,
          reports_in-append s.log (closed fd),
          length-append s.outside.published (t ∷ []),
        ),
      )
  handle_known-IsServed s fd false w there (gone, handed, named, reported) = (
    destroy-only s.outside.next_task s.outside.tasks gone,
    ground (
      arith,
      handed,
      messages_in-append s.log (message fd),
      length-append s.outside.handed (s.outside.next_task ∷ []),
    ),
    named,
    ground (arith, reported, reports_in-append s.log (message fd)),
  )

  handle_peeked-IsServed :
      (s : LoopState (Node W)) (fd : ℕ) (x : Received × W)
      → has fd s.conns ≡ true
      → IsServed s
      → IsServed
          (handle_known (poll k a) (callbacks k) a.acceptor.fd s fd (is_closed (lift s.outside x)))
  unfolding is_closed
  handle_peeked-IsServed s fd (Received.interrupted, w) there h =
      handle_known-IsServed s fd false w there h
  handle_peeked-IsServed s fd (Received.failed, w) there h =
      handle_known-IsServed s fd false w there h
  handle_peeked-IsServed s fd (bytes [], w) there h = handle_known-IsServed s fd true w there h
  handle_peeked-IsServed s fd (bytes (b ∷ bs), w) there h =
      handle_known-IsServed s fd false w there h

  handle_message-IsServed :
      (s : LoopState (Node W)) (fd : ℕ)
      → IsServed s
      → IsServed (handle_message (poll k a) (callbacks k) a.acceptor.fd s fd)
  unfolding handle_message poll
  handle_message-IsServed s fd h = elim (Bool-cases (has fd s.conns)) [
    | inl there ↦ rw there (handle_peeked-IsServed s fd (k.peek s.outside.net fd) there h)
    | inr absent ↦ rw absent h
  ]

  IsServed-kept : IsKept (poll k a) (callbacks k) a.acceptor.fd IsServed
  unfolding handle_new_connection poll
  IsServed-kept = record {
    waiting = λ s n h. h;
    growing = λ s n h. h;
    connecting =
        λ s h. accepted-IsServed s (accept_connection k.sockets a.acceptor s.outside.net) h;
    receiving = handle_message-IsServed;
  }

module _ {W : Type 0} (k : Network W) (patience : W → ℕ)
    (patient : (w : W) (e n : ℕ) (w' : W)
      → k.wait w e n ≡ (Waited.interrupted, w')
      → patience w' < patience w) where
  -- When fewer than `inner` interruptions come in a row, `waitEpollFd` returns each time that it is
  -- called on a new server, and then as many objects of class FileTask went to the pool as there were
  -- messages from clients, and none of them exists any more, whatever the workers have done so far.
  -- There is one message to RabbitMQ for each new connection and one for each close, and every
  -- connection of the map has the addresses that it was named by.
  pub tcp_server-IsServed :
      (ip : Text) (port n inner : ℕ) (w : W)
      → ((w : W) → patience w < inner)
      → let (a, s) = tcp_server k ip port w in
        (s' : LoopState (Node W)) × (waits (poll k a) (callbacks k) a.acceptor.fd n inner s
          ≡ some s')
        × IsServed s'
  unfolding tcp_server has poll
  tcp_server-IsServed ip port n inner w calm =
      let (a, s) = tcp_server k ip port w in
      tcp_server-waits k patience patient IsServed ip port n inner w calm (IsServed-kept k a)
        (refl, refl, λ fd. refl, refl)
