-- ===== src/Loop/EventLoop/Unloop.antt =====
-- When `EventLoop::loop` returns.
use mathlib.Core.Option
use filedisk_server.Common.{
  ℕ, zero, suc, ◌<◌, ◌≡◌, refl, ◌∙◌, inl, inr, true, false, some, arith, Option-cases,
}
use filedisk_server.Loop.Poll.{Poll, Callbacks}
use filedisk_server.Loop.EventLoop.{LoopState, wait_epoll_fd, unloop, tested, rounds, loop}
use filedisk_server.Loop.EventLoop.Lifecycle.{waits}
use filedisk_server.Loop.EventLoop.EvtList.{wait_epoll_fd-Keeps}

module _ {W : Type 0} (p : Poll W) (cb : Callbacks W) (listenfd inner : ℕ) where
  -- The first test of `_isLooping` before which another thread calls `unloop` is the one after `k`
  -- calls of `waitEpollFd`, in `s'`.
  abbrev pub UnloopedAt : ℕ → LoopState W → LoopState W → Type 0
  UnloopedAt k s s' =
      (waits p cb listenfd k inner s ≡ some s')
      × (p.unloops s'.outside ≡ true)
      × ((j : ℕ) (t : LoopState W)
          → j < k
          → waits p cb listenfd j inner s ≡ some t
          → p.unloops t.outside ≡ false)

  tested-not_yet : (s : LoopState W) → p.unloops s.outside ≡ false → tested p cb listenfd s ≡ s
  unfolding tested
  tested-not_yet s h = rw h

  rounds-more :
      (fuel : ℕ) (s s1 : LoopState W)
      → p.unloops s.outside ≡ false
      → s.is_looping ≡ true
      → wait_epoll_fd p cb listenfd inner s ≡ some s1
      → rounds p cb listenfd (suc fuel) inner s ≡ rounds p cb listenfd fuel inner s1
  unfolding rounds Option.bind
  rounds-more fuel s s1 not_yet on q = cc (tested-not_yet s not_yet, on, q)

  rounds-unlooped :
      (k : ℕ) (s s' : LoopState W)
      → s.is_looping ≡ true
      → UnloopedAt k s s'
      → rounds p cb listenfd (suc k) inner s ≡ some (record s' { is_looping = false })
  unfolding rounds tested unloop Option.bind
  rounds-unlooped zero s s' on (e, now, before) = ground arith
  rounds-unlooped (suc k) s s' on (e, now, before) =
      elim (Option-cases (wait_epoll_fd p cb listenfd inner s)) [
        | inl q ↦ ground (arith, q)
        | inr (s1, q) ↦
            rounds-more (suc k) s s1 (before zero s (omega arith) refl) on q
            ∙ rounds-unlooped k s1 s' ((wait_epoll_fd-Keeps p cb listenfd inner s s1 q).1 ∙ on)
                (rw q at e, now, λ j t lt f. before (suc j) t (omega arith) (rw q f))
      ]

  -- Let no other thread call `unloop` between the start of `loop` and its first k tests, and let one
  -- call it before the next, which comes after `k` calls of `waitEpollFd`. Then `loop` returns with
  -- what these calls have done, and makes no other. An `unloop` before `loop` makes no difference: it
  -- is lost, and the loop runs on until the other one.
  pub loop-UnloopedAt :
      (k : ℕ) (s s' : LoopState W)
      → UnloopedAt k (record s { is_looping = true }) s'
      → (loop p cb listenfd (suc k) inner s ≡ some (record s' { is_looping = false }))
        × (loop p cb listenfd (suc k) inner (unloop p cb listenfd s)
            ≡ some (record s' { is_looping = false }))
  unfolding loop unloop
  loop-UnloopedAt k s s' u =
      let run = rounds-unlooped k (record s { is_looping = true }) s' refl u in (run, run)
