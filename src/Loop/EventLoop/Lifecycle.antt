-- ===== src/Loop/EventLoop/Lifecycle.antt =====
-- Which callbacks the event loop calls for a descriptor, and in which order.
use filedisk_server.Common.{
  ℕ, zero, suc, ◌<◌, ◌≡◌, refl, sym, ap, ◌∙◌, inl, inr, Bool, true, false, not, ◌&&◌, ◌||◌, Option,
  none, some, List, [], ◌∷◌, ◌++◌, length, arith, Bool-cases, ◌==◌, if◌then◌else◌,
}
use mathlib.Core.Option
use filedisk_server.Loop.Poll.{Waited, ready, Poll, Callbacks}
use filedisk_server.Loop.EventLoop.{
  Call, opened, message, closed, LoopState, has, put, erase, is_closed, start, accepted,
  handle_new_connection, handle_known, handle_message, handle_event, handle_events, grow, waited,
  wait_epoll_fd,
}

-- Whether a descriptor has a connection after some calls, starting from `b`: `opened` begins one, and
-- `message` and `closed` may only come while there is one, `closed` being the last.
pub phase : ℕ → Bool → List Call → Option Bool
phase fd b [] = some b
phase fd b (opened x ∷ l) = phase fd (x == fd || b) l
phase fd b (message x ∷ l) = if x == fd && not b then none else phase fd b l
phase fd b (closed x ∷ l) = if x == fd && not b then none else phase fd (not (x == fd) && b) l

phase-append :
    (fd : ℕ) (b c : Bool) (l : List Call) (k : Call)
    → phase fd b l ≡ some c
    → phase fd b (l ++ (k ∷ [])) ≡ phase fd c (k ∷ [])
unfolding phase
phase-append fd b c [] k e = ground arith
phase-append fd b c (opened x ∷ l) k e = phase-append fd (x == fd || b) c l k e
phase-append fd b c (message x ∷ l) k e = ground (arith, phase-append fd b c l k)
phase-append fd b c (closed x ∷ l) k e = ground (arith, phase-append fd (not (x == fd) && b) c l k)

has-same : (fd x : ℕ) (xs : List ℕ) → has x xs ≡ true → has fd xs ≡ (x == fd || has fd xs)
unfolding has
has-same fd x [] h = ground arith
has-same fd x (y ∷ ys) h = ground (arith, has-same fd x ys)

pub has-put : (fd x : ℕ) (xs : List ℕ) → has fd (put x xs) ≡ (x == fd || has fd xs)
unfolding put has
has-put fd x xs = ground (arith, has-same fd x xs)

pub has-erase : (fd x : ℕ) (xs : List ℕ) → has fd (erase x xs) ≡ (not (x == fd) && has fd xs)
unfolding has erase
has-erase fd x [] = ground arith
has-erase fd x (y ∷ ys) = ground (arith, has-erase fd x ys)

-- The map has the descriptors that the calls so far leave with a connection.
abbrev pub Tracks : {W : Type 0} → LoopState W → Type 0
Tracks s = (fd : ℕ) → phase fd false s.log ≡ some (has fd s.conns)

module _ {W : Type 0} (p : Poll W) (cb : Callbacks W) (listenfd : ℕ) where
  accepted-Tracks :
      (s : LoopState W) (a : Option ℕ × W) → Tracks s → Tracks (accepted p cb listenfd s a)
  unfolding accepted
  accepted-Tracks s (none, w) t fd = t fd
  accepted-Tracks s (some connfd, w) t fd =
      phase-append fd false (has fd s.conns) s.log (opened connfd) (t fd)
      ∙ (unfold phase in sym (ap some (has-put fd connfd s.conns)))

  handle_known-Tracks :
      (s : LoopState W) (x : ℕ) (a : Bool × W)
      → has x s.conns ≡ true
      → Tracks s
      → Tracks (handle_known p cb listenfd s x a)
  unfolding handle_known
  handle_known-Tracks s x (true, w) h t fd =
      phase-append fd false (has fd s.conns) s.log (closed x) (t fd)
      ∙ (unfold phase in ground (arith, has-erase fd x s.conns, has-same fd x s.conns h))
  handle_known-Tracks s x (false, w) h t fd =
      phase-append fd false (has fd s.conns) s.log (message x) (t fd)
      ∙ (unfold phase in ground (arith, has-same fd x s.conns h))

  handle_message-Tracks :
      (s : LoopState W) (fd : ℕ) → Tracks s → Tracks (handle_message p cb listenfd s fd)
  unfolding handle_message
  handle_message-Tracks s fd t = elim (Bool-cases (has fd s.conns)) [
    | inl h ↦ rw h (handle_known-Tracks s fd (is_closed (p.peek s.outside fd)) h t)
    | inr h ↦ rw h t
  ]

  handle_event-Tracks :
      (s : LoopState W) (e : ℕ × Bool) → Tracks s → Tracks (handle_event p cb listenfd s e)
  unfolding handle_event handle_new_connection
  handle_event-Tracks s (fd, false) t = t
  handle_event-Tracks s (fd, true) t = elim (Bool-cases (fd == listenfd)) [
    | inl h ↦ rw h (accepted-Tracks s (p.accept s.outside) t)
    | inr h ↦ rw h (handle_message-Tracks s fd t)
  ]

  handle_events-Tracks :
      (s : LoopState W) (es : List (ℕ × Bool))
      → Tracks s
      → Tracks (handle_events p cb listenfd s es)
  unfolding handle_events
  handle_events-Tracks s [] t = t
  handle_events-Tracks s (e ∷ es) t =
      handle_events-Tracks (handle_event p cb listenfd s e) es (handle_event-Tracks s e t)

  waited-Tracks :
      (fuel : ℕ) (s : LoopState W) (a : Waited × W)
      → ((w : W)
          → a ≡ (Waited.interrupted, w)
          → (s' : LoopState W) × (wait_epoll_fd p cb listenfd fuel (record s { outside = w })
              ≡ some s')
            × Tracks s')
      → Tracks s
      → (s' : LoopState W) × (waited p cb listenfd (wait_epoll_fd p cb listenfd fuel) s a ≡ some s')
        × Tracks s'
  unfolding waited grow
  waited-Tracks fuel s (Waited.interrupted, w) again t = again w refl
  waited-Tracks fuel s (Waited.failed, w) again t = (record s { outside = w }, refl, t)
  waited-Tracks fuel s (ready [], w) again t = (record s { outside = w }, refl, t)
  waited-Tracks fuel s (ready (e ∷ es), w) again t =
      (_, refl, handle_events-Tracks _ (e ∷ es) (λ fd. grow-same fd))
    where
      grow-same :
          (fd : ℕ)
          → phase fd false (grow p cb listenfd (length (e ∷ es)) (record s { outside = w })).log
            ≡ some (has fd (grow p cb listenfd (length (e ∷ es)) (record s { outside = w })).conns)
      grow-same fd = ground (arith, t fd)

  -- `waitEpollFd`, `n` times over.
  abbrev pub waits : ℕ → ℕ → LoopState W → Option (LoopState W)
  waits zero inner s = some s
  waits (suc n) inner s = Option.bind (wait_epoll_fd p cb listenfd inner s) (waits n inner)

  module _ (patience : W → ℕ)
      (patient : (w : W) (n : ℕ) (w' : W)
        → p.wait w n ≡ (Waited.interrupted, w')
        → patience w' < patience w) where
    wait_epoll_fd-Tracks :
        (fuel : ℕ) (s : LoopState W)
        → patience s.outside < fuel
        → Tracks s
        → (s' : LoopState W) × (wait_epoll_fd p cb listenfd fuel s ≡ some s') × Tracks s'
    unfolding wait_epoll_fd
    wait_epoll_fd-Tracks zero s h t = absurd (omega arith)
    wait_epoll_fd-Tracks (suc fuel) s h t =
        waited-Tracks fuel s (p.wait s.outside s.evt_size)
          (λ w e.
            wait_epoll_fd-Tracks fuel (record s { outside = w })
              (omega (arith, patient s.outside s.evt_size w e)) t)
          t

    -- When fewer than `inner` interruptions come in a row, `waitEpollFd` returns each time, however
    -- often it is called. From the constructor on, every message and every close that is handed to
    -- a callback is for a connection that was handed to one as new and not as closed since, and the
    -- map has the descriptors of these connections and no others.
    pub waits-Tracks :
        (n inner : ℕ) (w : W)
        → ((w : W) → patience w < inner)
        → (s : LoopState W) × (waits n inner (start p cb listenfd w) ≡ some s) × Tracks s
    unfolding start phase has Option.bind
    waits-Tracks n inner w calm = go n (start p cb listenfd w) (λ fd. refl)
      where
        go :
            (n : ℕ) (s : LoopState W)
            → Tracks s
            → (s' : LoopState W) × (waits n inner s ≡ some s') × Tracks s'
        go zero s t = (s, refl, t)
        go (suc n) s t =
            let (s1, e1, t1) = wait_epoll_fd-Tracks inner s (calm s.outside) t in
            let (s2, e2, t2) = go n s1 t1 in (s2, rw e1 e2, t2)
