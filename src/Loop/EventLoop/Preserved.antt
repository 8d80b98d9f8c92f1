-- ===== src/Loop/EventLoop/Preserved.antt =====
-- What every operation of the event loop keeps, the loop keeps.
use mathlib.Core.Option
use filedisk_server.Common.{
  ℕ, zero, suc, ◌≡◌, subst, Bool, true, false, some, List, [], ◌∷◌, length, arith, Bool-cases,
  Option-cases, inl, inr, ◌==◌, ltb, ◌*◌, if◌then◌else◌,
}
use filedisk_server.Loop.Poll.{Waited, ready, Poll, Callbacks}
use filedisk_server.Loop.EventLoop.{
  LoopState, handle_new_connection, handle_message, handle_event, handle_events, grow, waited,
  wait_epoll_fd,
}
use filedisk_server.Loop.EventLoop.Lifecycle.{waits}

module _ {W : Type 0} (p : Poll W) (cb : Callbacks W) (listenfd : ℕ) where
  -- A property that an answer of `epoll_wait`, a larger list, a new connection and a message keep.
  pub record IsKept (I : LoopState W → Type 0) : Type 0 where
    pub waiting :
        (s : LoopState W) (n : ℕ) → I s → I (record s { outside = (p.wait s.outside n).1 })
    pub growing : (s : LoopState W) (n : ℕ) → I s → I (record s { evt_capacity = n })
    pub connecting : (s : LoopState W) → I s → I (handle_new_connection p cb listenfd s)
    pub receiving : (s : LoopState W) (fd : ℕ) → I s → I (handle_message p cb listenfd s fd)

  module _ (I : LoopState W → Type 0) (k : IsKept I) where
    handle_event-kept : (s : LoopState W) (e : ℕ × Bool) → I s → I (handle_event p cb listenfd s e)
    unfolding handle_event
    handle_event-kept s (fd, false) h = h
    handle_event-kept s (fd, true) h = elim (Bool-cases (fd == listenfd)) [
      | inl same ↦ rw same (k.connecting s h)
      | inr differ ↦ rw differ (k.receiving s fd h)
    ]

    handle_events-kept :
        (s : LoopState W) (es : List (ℕ × Bool)) → I s → I (handle_events p cb listenfd s es)
    unfolding handle_events
    handle_events-kept s [] h = h
    handle_events-kept s (e ∷ es) h =
        handle_events-kept (handle_event p cb listenfd s e) es (handle_event-kept s e h)

    grow-kept : (n : ℕ) (s : LoopState W) → I s → I (grow p cb listenfd n s)
    unfolding grow
    grow-kept n s h = elim (Bool-cases (n == s.evt_size)) [
      | inl full ↦
          rw full (k.growing s (if ltb s.evt_capacity (2 * n) then 2 * n else s.evt_capacity) h)
      | inr room ↦ rw room h
    ]

    waited-kept :
        (fuel : ℕ) (s s' : LoopState W) (a : Waited × W)
        → ((t : LoopState W) → wait_epoll_fd p cb listenfd fuel t ≡ some s' → I t → I s')
        → I (record s { outside = a.1 })
        → waited p cb listenfd (wait_epoll_fd p cb listenfd fuel) s a ≡ some s'
        → I s'
    unfolding waited
    waited-kept fuel s s' (Waited.interrupted, w) again h e = again (record s { outside = w }) e h
    waited-kept fuel s s' (Waited.failed, w) again h e = subst I (Option.some-injective _ _ e) h
    waited-kept fuel s s' (ready [], w) again h e = subst I (Option.some-injective _ _ e) h
    waited-kept fuel s s' (ready (x ∷ es), w) again h e =
        subst I (Option.some-injective _ _ e)
          (handle_events-kept _ (x ∷ es) (grow-kept (length (x ∷ es)) (record s { outside = w }) h))

    wait_epoll_fd-kept :
        (fuel : ℕ) (s s' : LoopState W) → wait_epoll_fd p cb listenfd fuel s ≡ some s' → I s → I s'
    unfolding wait_epoll_fd
    wait_epoll_fd-kept zero s s' e h = ground arith
    wait_epoll_fd-kept (suc fuel) s s' e h =
        waited-kept fuel s s' (p.wait s.outside s.evt_size) (λ t. wait_epoll_fd-kept fuel t s')
          (k.waiting s s.evt_size h) e

    pub waits-kept :
        (n inner : ℕ) (s s' : LoopState W) → waits p cb listenfd n inner s ≡ some s' → I s → I s'
    unfolding Option.bind
    waits-kept zero inner s s' e h = subst I (Option.some-injective _ _ e) h
    waits-kept (suc n) inner s s' e h = elim (Option-cases (wait_epoll_fd p cb listenfd inner s)) [
      | inl q ↦ ground (arith, q)
      | inr (s1, q) ↦ waits-kept n inner s1 s' (rw q at e) (wait_epoll_fd-kept inner s s1 q h)
    ]
