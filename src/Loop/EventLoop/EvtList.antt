-- ===== src/Loop/EventLoop/EvtList.antt =====
-- The list that `epoll_wait` fills, and what a connection leaves behind when it is closed.
use filedisk_server.Common.{
  ℕ, zero, suc, ◌<◌, ◌≡◌, refl, ◌∙◌, inl, inr, Bool, true, false, Option, none, some, List, [], ◌∷◌,
  length, arith, Bool-cases, Option-cases,
}
use mathlib.Core.Option
use filedisk_server.Net.Kernel.{bytes}
use filedisk_server.Loop.Poll.{Waited, ready, Poll, Callbacks}
use filedisk_server.Loop.EventLoop.{
  LoopState, has, is_closed, start, accepted, handle_new_connection, handle_known, handle_message,
  handle_event, handle_events, grow, waited, wait_epoll_fd,
}
use filedisk_server.Loop.EventLoop.Lifecycle.{has-erase, waits, waits-Tracks}

-- What no operation but the constructor, `loop` and `unloop` changes.
abbrev pub Keeps : {W : Type 0} → LoopState W → LoopState W → Type 0
Keeps s s' = (s'.evt_size ≡ s.evt_size) × (s'.is_looping ≡ s.is_looping)

module _ {W : Type 0} (p : Poll W) (cb : Callbacks W) (listenfd : ℕ) where
  accepted-Keeps : (s : LoopState W) (a : Option ℕ × W) → Keeps s (accepted p cb listenfd s a)
  unfolding accepted
  accepted-Keeps s (none, w) = (refl, refl)
  accepted-Keeps s (some connfd, w) = (refl, refl)

  handle_known-Keeps :
      (s : LoopState W) (x : ℕ) (a : Bool × W) → Keeps s (handle_known p cb listenfd s x a)
  unfolding handle_known
  handle_known-Keeps s x (true, w) = (refl, refl)
  handle_known-Keeps s x (false, w) = (refl, refl)

  handle_event-Keeps : (s : LoopState W) (e : ℕ × Bool) → Keeps s (handle_event p cb listenfd s e)
  unfolding handle_event handle_new_connection handle_message
  handle_event-Keeps s (fd, false) = (refl, refl)
  handle_event-Keeps s (fd, true) = ground (
    arith,
    accepted-Keeps s (p.accept s.outside),
    handle_known-Keeps s fd (is_closed (p.peek s.outside fd)),
  )

  handle_events-Keeps :
      (s : LoopState W) (es : List (ℕ × Bool)) → Keeps s (handle_events p cb listenfd s es)
  unfolding handle_events
  handle_events-Keeps s [] = (refl, refl)
  handle_events-Keeps s (e ∷ es) =
      ground
        (arith, handle_events-Keeps (handle_event p cb listenfd s e) es, handle_event-Keeps s e)

  grow-Keeps : (n : ℕ) (s : LoopState W) → Keeps s (grow p cb listenfd n s)
  unfolding grow
  grow-Keeps n s = ground arith

  waited-Keeps :
      (fuel : ℕ) (s s' : LoopState W) (a : Waited × W)
      → ((w : W)
          → wait_epoll_fd p cb listenfd fuel (record s { outside = w }) ≡ some s'
          → Keeps s s')
      → waited p cb listenfd (wait_epoll_fd p cb listenfd fuel) s a ≡ some s'
      → Keeps s s'
  unfolding waited
  waited-Keeps fuel s s' (Waited.interrupted, w) again e = again w e
  waited-Keeps fuel s s' (Waited.failed, w) again e = ground arith
  waited-Keeps fuel s s' (ready [], w) again e = ground arith
  waited-Keeps fuel s s' (ready (x ∷ es), w) again e = ground (
    arith,
    handle_events-Keeps (grow p cb listenfd (length (x ∷ es)) (record s { outside = w })) (x ∷ es),
    grow-Keeps (length (x ∷ es)) (record s { outside = w }),
  )

  pub wait_epoll_fd-Keeps :
      (fuel : ℕ) (s s' : LoopState W) → wait_epoll_fd p cb listenfd fuel s ≡ some s' → Keeps s s'
  unfolding wait_epoll_fd
  wait_epoll_fd-Keeps zero s s' e = ground arith
  wait_epoll_fd-Keeps (suc fuel) s s' e =
      waited-Keeps fuel s s' (p.wait s.outside s.evt_size)
        (λ w. wait_epoll_fd-Keeps fuel (record s { outside = w }) s') e

  waits-Keeps :
      (n inner : ℕ) (s s' : LoopState W) → waits p cb listenfd n inner s ≡ some s' → Keeps s s'
  unfolding Option.bind
  waits-Keeps zero inner s s' e = ground arith
  waits-Keeps (suc n) inner s s' e = elim (Option-cases (wait_epoll_fd p cb listenfd inner s)) [
    | inl q ↦ ground (arith, q)
    | inr (s1, q) ↦
        ground (arith, waits-Keeps n inner s1 s' (rw q at e), wait_epoll_fd-Keeps inner s s1 q)
  ]

  -- When fewer than `inner` interruptions come in a row, `waitEpollFd` returns however often it is
  -- called, and the size of the list that it gives to `epoll_wait` is 1024 afterwards, as the
  -- constructor made it, also after the list was full.
  waits-evt_size :
      (patience : W → ℕ)
      → ((w : W) (n : ℕ) (w' : W)
          → p.wait w n ≡ (Waited.interrupted, w')
          → patience w' < patience w)
      → (n inner : ℕ) (w : W) → ((w : W) → patience w < inner)
      → (s : LoopState W) × (waits p cb listenfd n inner (start p cb listenfd w) ≡ some s)
        × (s.evt_size ≡ 1024)
  waits-evt_size patience patient n inner w calm =
      let (s, e, t) = waits-Tracks p cb listenfd patience patient n inner w calm in
      (s, e, (waits-Keeps n inner (start p cb listenfd w) s e).0 ∙ (unfold start in refl))

  -- After `handleMessage` has found a connection closed, it does nothing for further events of this
  -- descriptor, of which the same `epoll_wait` may have returned more.
  handle_message-closed :
      (s : LoopState W) (fd : ℕ) (w : W)
      → p.peek s.outside fd ≡ (bytes [], w)
      → handle_message p cb listenfd (handle_message p cb listenfd s fd) fd
        ≡ handle_message p cb listenfd s fd
  unfolding handle_message is_closed handle_known
  handle_message-closed s fd w e = elim (Bool-cases (has fd s.conns)) [
    | inl h ↦ rw (h, e, has-erase fd fd s.conns) (ground arith)
    | inr h ↦ rw (h, h)
  ]
