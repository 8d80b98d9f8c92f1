-- ===== src/Pool/Sync/Rides.antt =====
-- A producer that waits in `push` until the worker has taken a task, and `push` after it.
use filedisk_server.Common.{
  Bool, true, false, ℕ, zero, suc, ◌<◌, ◌≡◌, ◌≢◌, refl, some, List, [], ◌∷◌, arith, ◌==◌,
  if◌then◌else◌, ℕ_discrete,
}
use filedisk_server.Pool.Worker.{
  Pc, idle, pop_asleep, adds, push_locks, push_full, push_room, push_sleeps, push_relocks,
  push_puts, push_unlocks, works, pop_locks, pop_ready, pop_live, pop_takes, pop_unlocks,
}
use filedisk_server.Pool.System.{
  System, Role, producer, worker, init, Reach, here, later, Step, move, signals_nobody,
  signals_push,
}
use filedisk_server.Pool.Sync.{
  not_full, not_empty, SyncCall, locks, unlocks, waits, signals, Shared, push,
}
use filedisk_server.Pool.Sync.During.{During, begins, goes}
use filedisk_server.Pool.Sync.Replay.{replay, start_with, push-replay}

-- Thread 0 is the producer, thread 1 the worker, and the queue has room for one task.
abbrev pair : ℕ → Role
pair i = if i == 0 then producer else worker

abbrev begin : System
begin = init 1 pair

record Run : Type 0 where
  last : System
  reach : Reach 2 begin last

abbrev step : (r : Run) {t : System} → Step 2 r.last t → Run
step r st = record { last = _; reach = later r.reach st }

-- The producer has put task 5 into the queue.
abbrev placed : Run
unfolding ℕ_discrete
placed =
    step
      (step
        (step (step (record { last = begin; reach = here }) (move 0 (omega arith) (adds {t = 5})))
          (move 0 (omega arith) (push_locks refl)))
        (move 0 (omega arith) (push_room refl)))
      (move 0 (omega arith) push_puts)

placed_awake : (j : ℕ) → j < 2 → placed.last.pc j ≢ pop_asleep
unfolding ℕ_discrete
placed_awake zero lt e = cc
placed_awake (suc zero) lt e = cc
placed_awake (suc (suc j)) lt e = absurd (omega arith)

-- `push` is called with task 9.
abbrev called : Run
unfolding ℕ_discrete
called =
    step
      (step (step placed (signals_nobody 0 (omega arith) refl placed_awake))
        (move 0 (omega arith) push_unlocks))
      (move 0 (omega arith) (adds {t = 9}))

record Ride : Type 0 where
  made_calls : List SyncCall
  seen : List (List ℕ)
  last : System
  during : During 2 0 called.last made_calls seen last

abbrev is_idle : Pc → Bool
is_idle idle = true
is_idle _ = false

busy : (p : Pc) → is_idle p ≡ false → p ≢ idle
busy p h e = absurd (ground (arith, h, e))

abbrev ride : (r : Ride) {t : System} → is_idle (r.last.pc 0) ≡ false → Step 2 r.last t → Ride
ride r h st = record { made_calls = _; seen = _; last = _; during = goes r.during (busy _ h) st }

-- The producer finds the queue full and sleeps; the worker takes task 5 and wakes it.
abbrev woken : Ride
unfolding ℕ_discrete
woken =
    ride
      (ride
        (ride
          (ride
            (ride
              (ride
                (ride
                  (ride
                    (ride
                      (ride
                        (record { made_calls = []; seen = []; last = called.last; during = begins })
                        refl (move 0 (omega arith) (push_locks refl)))
                      refl (move 0 (omega arith) (push_full refl)))
                    refl (move 0 (omega arith) push_sleeps))
                  refl (move 1 (omega arith) (works refl)))
                refl (move 1 (omega arith) (pop_locks refl)))
              refl (move 1 (omega arith) (pop_ready refl)))
            refl (move 1 (omega arith) (pop_live refl)))
          refl (move 1 (omega arith) (pop_takes refl)))
        refl (signals_push 1 0 5 9 (omega arith) (omega arith) refl refl))
      refl (move 1 (omega arith) pop_unlocks)

abbrev replaced : Ride
unfolding ℕ_discrete
replaced =
    ride
      (ride (ride woken refl (move 0 (omega arith) (push_relocks refl))) refl
        (move 0 (omega arith) (push_room refl)))
      refl (move 0 (omega arith) push_puts)

replaced_awake : (j : ℕ) → j < 2 → replaced.last.pc j ≢ pop_asleep
unfolding ℕ_discrete
replaced_awake zero lt e = cc
replaced_awake (suc zero) lt e = cc
replaced_awake (suc (suc j)) lt e = absurd (omega arith)

abbrev returned : Ride
unfolding ℕ_discrete
returned =
    ride (ride replaced refl (signals_nobody 0 (omega arith) refl replaced_awake)) refl
      (move 0 (omega arith) push_unlocks)

push-replay_example :
    (out : Shared (List (List ℕ))) × (push replay 3 9 (start_with 1 ((5 ∷ []) ∷ [] ∷ []))
      ≡ some out)
    × (out.queue.que ≡ 9 ∷ [])
    × (out.log ≡ locks ∷ waits not_full ∷ signals not_empty ∷ unlocks ∷ [])
unfolding ℕ_discrete
push-replay_example = push-replay 1 pair 2 0 9 called.reach refl returned.during refl
