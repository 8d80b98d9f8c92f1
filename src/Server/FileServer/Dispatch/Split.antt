-- ===== src/Server/FileServer/Dispatch/Split.antt =====
-- A callback that stops at the call of `addTask`, and the rest of it, are together the callback.
use filedisk_server.Common.{
  ℕ, ◌+◌, ◌≡◌, refl, inl, inr, Bool, Bool-cases, true, false, Option, none, some, [], ◌∷◌, ◌==◌,
}
use filedisk_server.Common.Runs.{Text}
use filedisk_server.Common.Text.{bytes_of}
use filedisk_server.Net.Kernel.{Received, bytes}
use filedisk_server.Loop.Connection.{call}
use filedisk_server.Loop.Epoll.{add_epoll_read_fd}
use filedisk_server.Loop.EventLoop.{
  LoopState, has, is_closed, accepted, handle_new_connection, handle_known, handle_message,
  handle_event, grow,
}
use filedisk_server.Server.Acceptor.{accept_connection}
use filedisk_server.Server.FileServer.Waits.{after_replaced, replaced-net}
use filedisk_server.Server.FileServer.{
  TcpServer, Addresses, Network, Node, ends_of, lift, publish, connect, on_new_connection, on_close,
  on_message, callbacks, poll,
}
use filedisk_server.Server.FileServer.Dispatch.{Act, polls, grows, handles, apply, leave, entering}

-- The FileTasks of two nodes are the same.
pub record SameTasks {W : Type 0} (x y : Node W) : Type 0 where
  pub tasks : y.tasks ≡ x.tasks
  pub next_task : y.next_task ≡ x.next_task
  pub handed : y.handed ≡ x.handed

-- What `onMessage` has done when it calls `addTask`.
pub record Made {W : Type 0} (x y : Node W) : Type 0 where
  pub tasks : y.tasks ≡ x.next_task ∷ x.tasks
  pub next_task : y.next_task ≡ x.next_task + 1
  pub handed : y.handed ≡ x.handed

-- From `s`, `t` is reached with callbacks that stop at `addTask`, and `u` with the callbacks of the
-- server: either no `onMessage` was called, or the rest of it leads from `t` to `u`.
pub data Split {W : Type 0} (k : Network W) (s t u : LoopState (Node W)) : Type 0 where
  quiet : SameTasks s.outside t.outside → u ≡ t → Split k s t u
  calls :
      Made s.outside t.outside
      → u ≡ record t { outside = leave k s.outside.next_task t.outside }
      → Split k s t u

same : {W : Type 0} (x : Node W) → SameTasks x x
same x = record { tasks = refl; next_task = refl; handed = refl }

module _ {W : Type 0} (k : Network W) (a : TcpServer) where
  publish-SameTasks :
      (tail : Text) (e : Option Addresses) (x y : Node W)
      → SameTasks x y
      → SameTasks x (publish k tail e y)
  unfolding publish
  publish-SameTasks tail none x y h = h
  publish-SameTasks tail (some e) x y h = record {
    tasks = h.tasks;
    next_task = h.next_task;
    handed = h.handed;
  }

  accepted-Split :
      (s : LoopState (Node W)) (x : Option ℕ × W)
      → Split k s
          (accepted (poll k a) (entering k a) a.acceptor.fd s (lift s.outside x))
          (accepted (poll k a) (callbacks k) a.acceptor.fd s (lift s.outside x))
  unfolding accepted call poll callbacks on_new_connection connect
  accepted-Split s (none, w) = quiet (record { tasks = refl; next_task = refl; handed = refl }) refl
  accepted-Split s (some fd, w) =
      let net = after_replaced k fd s.conns (add_epoll_read_fd k.epoll a.epfd w fd) in
      let node = connect k fd (record s.outside { net = net }) in
      let still =
        replaced-net k a fd s.conns
          (record s.outside { net = add_epoll_read_fd k.epoll a.epfd w fd }) in
      let h =
        publish-SameTasks (bytes_of " has connected!") (ends_of fd node.ends) s.outside node
          (record { tasks = refl; next_task = refl; handed = refl }) in
      rw still (quiet (record { tasks = h.tasks; next_task = h.next_task; handed = h.handed }) refl)

  handle_known-Split :
      (s : LoopState (Node W)) (fd : ℕ) (b : Bool) (w : W)
      → Split k s
          (handle_known
            (poll k a)
            (entering k a)
            a.acceptor.fd
            s
            fd
            (b, record s.outside { net = w }))
          (handle_known
            (poll k a)
            (callbacks k)
            a.acceptor.fd
            s
            fd
            (b, record s.outside { net = w }))
  unfolding handle_known call poll callbacks on_close on_message leave
  handle_known-Split s fd true w =
      quiet
        (let h =
            publish-SameTasks (bytes_of " has closed!") (ends_of fd s.outside.ends) s.outside
              (record s.outside { net = w })
              (record { tasks = refl; next_task = refl; handed = refl }) in
          record { tasks = h.tasks; next_task = h.next_task; handed = h.handed })
        refl
  handle_known-Split s fd false w =
      calls (record { tasks = refl; next_task = refl; handed = refl }) refl

  handle_peeked-Split :
      (s : LoopState (Node W)) (fd : ℕ) (x : Received × W)
      → Split k s
          (handle_known (poll k a) (entering k a) a.acceptor.fd s fd (is_closed (lift s.outside x)))
          (handle_known (poll k a) (callbacks k) a.acceptor.fd s fd (is_closed (lift s.outside x)))
  unfolding is_closed
  handle_peeked-Split s fd (Received.interrupted, w) = handle_known-Split s fd false w
  handle_peeked-Split s fd (Received.failed, w) = handle_known-Split s fd false w
  handle_peeked-Split s fd (bytes [], w) = handle_known-Split s fd true w
  handle_peeked-Split s fd (bytes (b ∷ bs), w) = handle_known-Split s fd false w

  handle_message-Split :
      (s : LoopState (Node W)) (fd : ℕ)
      → Split k s
          (handle_message (poll k a) (entering k a) a.acceptor.fd s fd)
          (handle_message (poll k a) (callbacks k) a.acceptor.fd s fd)
  unfolding handle_message poll
  handle_message-Split s fd = elim (Bool-cases (has fd s.conns)) [
    | inl there ↦ rw there (handle_peeked-Split s fd (k.peek s.outside.net fd))
    | inr absent ↦ rw absent (quiet (same s.outside) refl)
  ]

  pub apply-Split :
      (x : Act) (s : LoopState (Node W))
      → Split k s
          (apply (poll k a) (entering k a) a.acceptor.fd x s)
          (apply (poll k a) (callbacks k) a.acceptor.fd x s)
  unfolding apply grow handle_event handle_new_connection poll
  apply-Split polls s = quiet (record { tasks = refl; next_task = refl; handed = refl }) refl
  apply-Split (grows n) s = elim (Bool-cases (n == s.evt_size)) [
    | inl full ↦ rw full (quiet (same s.outside) refl)
    | inr room ↦ rw room (quiet (same s.outside) refl)
  ]
  apply-Split (handles (fd, false)) s = quiet (same s.outside) refl
  apply-Split (handles (fd, true)) s = elim (Bool-cases (fd == a.acceptor.fd)) [
    | inl listens ↦
        rw listens (accepted-Split s (accept_connection k.sockets a.acceptor s.outside.net))
    | inr other ↦ rw other (handle_message-Split s fd)
  ]
