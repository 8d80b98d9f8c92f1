-- ===== src/Pool/Tests.antt =====
-- Runs of a pool with a worker, a thread that stops it and a producer, and the theorems at them.
use filedisk_server.Common.{
  inl, ℕ, zero, suc, ◌<◌, ◌≤◌, ◌≡◌, ◌≢◌, refl, List, [], ◌∷◌, ◌++◌, length, arith, ◌==◌,
  if◌then◌else◌, ℕ_discrete,
}
use filedisk_server.Common.Family.{update}
use filedisk_server.Pool.Worker.{
  stop_join, wake, pop_asleep, pop_woken, pop_take, adds, push_locks, push_room, push_puts,
  push_unlocks, works, pop_locks, pop_empty, pop_ready, pop_live, pop_dead, null_unlocks,
  pop_relocks, polls_empty, sets_exit, clears_flag, pop_sleeps, pop_spurious,
}
use filedisk_server.Pool.System.{
  System, Role, producer, worker, stopper, init, Reach, here, later, Step, move, signals_pop,
  signals_nobody, broadcasts,
}
use filedisk_server.Pool.Safety.{mutual_exclusion, queue_bounded, queue_fifo, front_exists}
use filedisk_server.Pool.Progress.Freedom.{Goer, no_deadlock}
use filedisk_server.Pool.Worker.{exits}
use filedisk_server.Pool.Shutdown.{IsClosed, Reach-IsClosed, team, hung, Stirs, stop_hangs}

abbrev roles : ℕ → Role
roles i = if i == 0 then worker else if i == 1 then stopper else producer

abbrev begin : System
begin = init 4 roles

record Run (s : System) : Type 0 where
  last : System
  reach : Reach 3 s last

abbrev start : (s : System) → Run s
start s = record { last = s; reach = here }

abbrev step : {s : System} (r : Run s) {t : System} → Step 3 r.last t → Run s
step r st = record { last = _; reach = later r.reach st }

-- The worker sleeps, and `stop` runs up to its broadcast.
abbrev asleep : Run begin
unfolding ℕ_discrete
asleep =
    step
      (step
        (step
          (step
            (step
              (step (step (start begin) (move 0 (omega arith) (works refl)))
                (move 0 (omega arith) (pop_locks refl)))
              (move 0 (omega arith) (pop_empty refl)))
            (move 0 (omega arith) pop_sleeps))
          (move 1 (omega arith) (polls_empty refl)))
        (move 1 (omega arith) sets_exit))
      (move 1 (omega arith) clears_flag)

abbrev roused : System
roused = record asleep.last { pc = update (λ j. wake (asleep.last.pc j)) 1 stop_join }

-- The worker wakes, takes its way through `pop`, which gives it no task, and ends.
abbrev ended : Run roused
unfolding ℕ_discrete
ended =
    step
      (step
        (step
          (step (step (start roused) (move 0 (omega arith) (pop_relocks refl)))
            (move 0 (omega arith) (pop_ready refl)))
          (move 0 (omega arith) (pop_dead refl)))
        (move 0 (omega arith) null_unlocks))
      (move 0 (omega arith) (exits refl))

-- The worker has seen the queue empty and the flag up, and has not gone to sleep yet.
abbrev tested : Run begin
unfolding ℕ_discrete
tested =
    step
      (step (step (start begin) (move 0 (omega arith) (works refl)))
        (move 0 (omega arith) (pop_locks refl)))
      (move 0 (omega arith) (pop_empty refl))

-- `stop` runs up to its joins in between.
abbrev broadcast : Run begin
unfolding ℕ_discrete
broadcast =
    step
      (step
        (step (step tested (move 1 (omega arith) (polls_empty refl)))
          (move 1 (omega arith) sets_exit))
        (move 1 (omega arith) clears_flag))
      (broadcasts 1 (omega arith) refl)

-- Then the worker goes to sleep.
abbrev missed : Run begin
unfolding ℕ_discrete
missed = step broadcast (move 0 (omega arith) pop_sleeps)

-- The producer has put task 7 into the queue.
abbrev loaded : Run begin
unfolding ℕ_discrete
loaded =
    step
      (step
        (step (step (start begin) (move 2 (omega arith) (adds {t = 7})))
          (move 2 (omega arith) (push_locks refl)))
        (move 2 (omega arith) (push_room refl)))
      (move 2 (omega arith) push_puts)

loaded_awake : (j : ℕ) → j < 3 → loaded.last.pc j ≢ pop_asleep
unfolding ℕ_discrete
loaded_awake zero h e = cc
loaded_awake (suc zero) h e = cc
loaded_awake (suc (suc zero)) h e = cc
loaded_awake (suc (suc (suc j))) h e = absurd (omega arith)

-- The worker is about to take it.
abbrev taking : Run begin
unfolding ℕ_discrete
taking =
    step
      (step
        (step
          (step
            (step (step loaded (signals_nobody 2 (omega arith) refl loaded_awake))
              (move 2 (omega arith) push_unlocks))
            (move 0 (omega arith) (works refl)))
          (move 0 (omega arith) (pop_locks refl)))
        (move 0 (omega arith) (pop_ready refl)))
      (move 0 (omega arith) (pop_live refl))

-- After `stop` has cleared the flag, the producer pushes task 9.
abbrev late : Run begin
unfolding ℕ_discrete
late =
    step
      (step
        (step (step missed (move 2 (omega arith) (adds {t = 9})))
          (move 2 (omega arith) (push_locks refl)))
        (move 2 (omega arith) (push_room refl)))
      (move 2 (omega arith) push_puts)

-- The worker wakes up, and `pop` gives it no task.
abbrev dropped : Run late.last
unfolding ℕ_discrete
dropped =
    step
      (step
        (step
          (step
            (step (step (start late.last) (signals_pop 2 0 (omega arith) (omega arith) refl refl))
              (move 2 (omega arith) push_unlocks))
            (move 0 (omega arith) (pop_relocks refl)))
          (move 0 (omega arith) (pop_ready refl)))
        (move 0 (omega arith) (pop_dead refl)))
      (move 0 (omega arith) null_unlocks)

late_nobody : (j : ℕ) → late.last.pc j ≢ pop_take
unfolding ℕ_discrete
late_nobody zero e = cc
late_nobody (suc zero) e = cc
late_nobody (suc (suc zero)) e = cc
late_nobody (suc (suc (suc j))) e = ground arith

-- The task is in the queue, and no worker is left to take it: the flag is down.
late_queue : late.last.mem.que ≡ 9 ∷ []
unfolding ℕ_discrete
late_queue = refl

mutual_exclusion_example : ◌≡◌ {A = ℕ} 0 0
unfolding ℕ_discrete
mutual_exclusion_example = mutual_exclusion 4 roles taking.reach 0 0 refl refl

queue_bounded_example : length taking.last.mem.que ≤ 4
unfolding ℕ_discrete
queue_bounded_example = queue_bounded 4 roles taking.reach

queue_fifo_example : taking.last.mem.accepted ≡ taking.last.mem.taken ++ taking.last.mem.que
unfolding ℕ_discrete
queue_fifo_example = queue_fifo 4 roles taking.reach

front_exists_example : (t : ℕ) × (rest : List ℕ) × (taking.last.mem.que ≡ t ∷ rest)
unfolding ℕ_discrete
front_exists_example = front_exists 4 roles taking.reach 0 refl

Reach-IsClosed_example : IsClosed dropped.last × (dropped.last.mem.taken ≡ late.last.mem.taken)
unfolding ℕ_discrete
Reach-IsClosed_example = Reach-IsClosed dropped.reach (record { down = refl; nobody = late_nobody })

stop_hangs_example :
    Reach 3 (init 4 team) (hung 1 4)
    × ((hung 1 4).pc 0 ≡ pop_asleep)
    × ((hung 1 4).pc 1 ≡ stop_join)
    × (j : ℕ) × (j < 3)
    × Stirs ((hung 1 4).pc j) (update (hung 1 4).pc 0 pop_woken j)
unfolding ℕ_discrete
stop_hangs_example =
    stop_hangs 1 4 {t = record { mem = (hung 1 4).mem; pc = update (hung 1 4).pc 0 pop_woken }}
      (move 0 (omega arith) pop_spurious)

no_deadlock_example : Goer 3 loaded.last
unfolding ℕ_discrete
no_deadlock_example =
    no_deadlock 4 roles 0 loaded.reach (omega arith) (omega arith) refl refl (inl refl)
