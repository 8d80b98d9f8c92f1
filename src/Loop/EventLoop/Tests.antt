-- ===== src/Loop/EventLoop/Tests.antt =====
-- The theorems on `EventLoop` at concrete inputs.
use filedisk_server.Common.{
  ◌==◌, zero, suc, ℕ, ◌<◌, ◌≡◌, refl, Bool, true, false, some, List, [], ◌∷◌, arith, if◌then◌else◌,
}
use mathlib.Core.Option
use filedisk_server.Net.Kernel.{Received, bytes}
use filedisk_server.Loop.Poll.{Waited, ready, Poll, Callbacks}
use filedisk_server.Loop.EventLoop.{opened, message, loop, unloop, wait_epoll_fd, LoopState, start}
use filedisk_server.Loop.EventLoop.Lifecycle.{Tracks, waits, waits-Tracks}
use filedisk_server.Loop.EventLoop.Unloop.{UnloopedAt, loop-UnloopedAt}

-- Every second answer of `epoll_wait` is an interruption. `left` is how often the peer is still there.
record Peers : Type 0 where
  tired : Bool
  left : ℕ
  said : List ℕ

abbrev waiting : Bool → Peers → Waited × Peers
waiting true w = (Waited.interrupted, record w { tired = false })
waiting false w = (ready ((3, true) ∷ (5, true) ∷ []), record w { tired = true })

abbrev peeked : ℕ → Peers → Received × Peers
peeked zero w = (bytes [], w)
peeked (suc n) w = (bytes (1 ∷ []), record w { left = n })

-- The listening descriptor is 3, and every connection is 5.
abbrev peers : Poll Peers
peers = record {
  wait = λ w n. waiting w.tired w;
  accept = λ w. (some 5, w);
  peek = λ w fd. peeked w.left w;
  add = λ w fd. w;
  del = λ w fd. w;
  release = λ w fd. w;
  unloops = λ w. false;
}

abbrev echo : Callbacks Peers
echo = record {
  on_new_connection = some (λ fd w. record w { said = fd ∷ w.said });
  on_message = some (λ fd w. record w { said = 1 ∷ w.said });
  on_close = some (λ fd w. record w { said = 0 ∷ w.said });
}

abbrev quiet : Peers
quiet = record { tired = true; left = 1; said = [] }

abbrev patience : Peers → ℕ
patience w = if w.tired then 1 else 0

patience-wait :
    (w : Peers) (n : ℕ) (w' : Peers)
    → peers.wait w n ≡ (Waited.interrupted, w')
    → patience w' < patience w
patience-wait w n w' e = ground arith

patience_bound : (w : Peers) → patience w < 2
patience_bound w = ground arith

waits-Tracks_example :
    (s : LoopState Peers) × (waits peers echo 3 3 2 (start peers echo 3 quiet) ≡ some s) × Tracks s
waits-Tracks_example = waits-Tracks peers echo 3 patience patience-wait 3 2 quiet patience_bound

-- Another thread calls `unloop` when the peer has gone.
abbrev stopping : Poll Peers
stopping = record peers { unloops = λ w. w.left == 0 }

abbrev begun : LoopState Peers
begun = record (start stopping echo 3 quiet) { is_looping = true }

abbrev served : LoopState Peers
served = record {
  is_looping = true;
  evt_size = 1024;
  evt_capacity = 1024;
  conns = 5 ∷ [];
  log = opened 5 ∷ message 5 ∷ [];
  outside = record { tired = true; left = 0; said = 1 ∷ 5 ∷ [] };
}

unlooped : UnloopedAt stopping echo 3 2 1 begun served
unfolding start Option.bind wait_epoll_fd
unlooped = (refl, refl, not_before)
  where
    not_before :
        (j : ℕ) (t : LoopState Peers)
        → j < 1
        → waits stopping echo 3 j 2 begun ≡ some t
        → (t.outside.left == 0) ≡ false
    not_before zero t lt e = ground arith
    not_before (suc j) t lt e = absurd (omega arith)

loop-UnloopedAt_example :
    (loop stopping echo 3 2 2 (start stopping echo 3 quiet)
      ≡ some (record served { is_looping = false }))
    × (loop stopping echo 3 2 2 (unloop stopping echo 3 (start stopping echo 3 quiet))
        ≡ some (record served { is_looping = false }))
loop-UnloopedAt_example =
    loop-UnloopedAt stopping echo 3 2 1 (start stopping echo 3 quiet) served unlooped
