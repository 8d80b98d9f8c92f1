-- ===== src/Server/FileServer/Dispatch/Acts.antt =====
-- A call of `waitEpollFd` is a list of acts.
use mathlib.Core.Option
use filedisk_server.Common.{
  ℕ, zero, suc, ◌≡◌, refl, sym, ap, ◌∙◌, Bool, Option, some, List, [], ◌∷◌, ◌++◌, length, arith,
}
use filedisk_server.Loop.Poll.{Waited, ready, Poll, Callbacks}
use filedisk_server.Loop.EventLoop.{LoopState, handle_events, waited, wait_epoll_fd}
use filedisk_server.Server.FileServer.Dispatch.{Act, polls, grows, handles, apply}

module _ {W : Type 0} (p : Poll W) (cb : Callbacks W) (listenfd : ℕ) where
  unfoldable pub replay : List Act → LoopState W → LoopState W
  replay [] s = s
  replay (x ∷ xs) s = replay xs (apply p cb listenfd x s)

  pub replay-append :
      (xs ys : List Act) (s : LoopState W) → replay (xs ++ ys) s ≡ replay ys (replay xs s)
  unfolding replay
  replay-append [] ys s = refl
  replay-append (x ∷ xs) ys s = replay-append xs ys (apply p cb listenfd x s)

  pub replay-last :
      (xs : List Act) (x : Act) (s : LoopState W)
      → replay (xs ++ (x ∷ [])) s ≡ apply p cb listenfd x (replay xs s)
  unfolding replay
  replay-last xs x s = replay-append xs (x ∷ []) s

  handled : List (ℕ × Bool) → List Act
  handled [] = []
  handled (e ∷ es) = handles e ∷ handled es

  replay-handled :
      (es : List (ℕ × Bool)) (s : LoopState W)
      → replay (handled es) s ≡ handle_events p cb listenfd s es
  unfolding replay handled handle_events apply
  replay-handled [] s = refl
  replay-handled (e ∷ es) s = replay-handled es (apply p cb listenfd (handles e) s)

  polled :
      (s : LoopState W) (r : Waited × W)
      → r ≡ p.wait s.outside s.evt_size
      → apply p cb listenfd polls s ≡ record s { outside = r.1 }
  unfolding apply
  polled s r e = ap (λ x. record s { outside = x }) (sym (ap (λ x. x.1) e))

  abbrev pub Replays : LoopState W → LoopState W → Type 0
  Replays s s' = (acts : List Act) × (replay acts s ≡ s')

  waited-Replays :
      (again : LoopState W → Option (LoopState W)) (s s' : LoopState W) (r : Waited × W)
      → ((s1 s2 : LoopState W) → again s1 ≡ some s2 → Replays s1 s2)
      → r ≡ p.wait s.outside s.evt_size
      → waited p cb listenfd again s r ≡ some s'
      → Replays s s'
  unfolding replay waited apply
  waited-Replays again s s' (Waited.interrupted, w) ih e h =
      let (acts, q) = ih (record s { outside = w }) s' h in
      (polls ∷ acts, ap (replay acts) (polled s (Waited.interrupted, w) e) ∙ q)
  waited-Replays again s s' (Waited.failed, w) ih e h =
      (polls ∷ [], polled s (Waited.failed, w) e ∙ Option.some-injective _ _ h)
  waited-Replays again s s' (ready [], w) ih e h =
      (polls ∷ [], polled s (ready [], w) e ∙ Option.some-injective _ _ h)
  waited-Replays again s s' (ready (x ∷ xs), w) ih e h = (
    polls ∷ (grows (length (x ∷ xs)) ∷ handled (x ∷ xs)),
    ap (λ s1. replay (handled (x ∷ xs)) (apply p cb listenfd (grows (length (x ∷ xs))) s1))
          (polled s (ready (x ∷ xs), w) e)
        ∙ replay-handled (x ∷ xs)
            (apply p cb listenfd (grows (length (x ∷ xs))) (record s { outside = w }))
        ∙ Option.some-injective _ _ h,
  )

  -- Whenever `waitEpollFd` returns, some acts one after the other have the same effect.
  wait_epoll_fd-Replays :
      (fuel : ℕ) (s s' : LoopState W) → wait_epoll_fd p cb listenfd fuel s ≡ some s' → Replays s s'
  unfolding wait_epoll_fd
  wait_epoll_fd-Replays zero s s' h = absurd (ground (arith, h))
  wait_epoll_fd-Replays (suc fuel) s s' h =
      waited-Replays (wait_epoll_fd p cb listenfd fuel) s s' (p.wait s.outside s.evt_size)
        (wait_epoll_fd-Replays fuel) refl h
