-- ===== src/Pool/Shutdown.antt =====
-- What `ThreadPool::stop` leaves behind: tasks that come late, and a worker that it cannot wake.
use filedisk_server.Common.{
  ℕ, zero, suc, ℕ_discrete, ◌<◌, ◌≡◌, ◌≢◌, refl, Bool, true, false, ◌⊎◌, inl, inr, arith, subst,
  sym, ◌∙◌,
}
use filedisk_server.Common.Family.{update_same}
use filedisk_server.Pool.Memory.{Memory}
use filedisk_server.Pool.Worker.{
  Pc, idle, push_lock, pop_asleep, pop_woken, pop_take, finished, stop_join, Move, adds,
  pop_spurious, pop_live, pop_takes, works, pop_locks, pop_empty, polls_empty, sets_exit,
  clears_flag, pop_sleeps,
}
use filedisk_server.Pool.System.{
  System, Step, move, signals_pop, signals_nobody, signals_push, signals_no_push, broadcasts, joins,
  Reach, here, later, Role, producer, worker, stopper, init,
}

-- `wakeup` has run, and no worker is on its way to the front of the queue.
pub record IsClosed (s : System) : Type 0 where
  pub down : s.mem.flag ≡ false
  pub nobody : (i : ℕ) → s.pc i ≢ pop_take

Move-IsClosed :
    (i : ℕ) {m m' : Memory} {p p' : Pc}
    → Move i m p m' p'
    → m.flag ≡ false
    → p ≢ pop_take
    → (m'.flag ≡ false) × (p' ≢ pop_take) × (m'.taken ≡ m.taken)
Move-IsClosed i (pop_live g) d h = absurd (ground arith)
Move-IsClosed i (pop_takes g) d h = absurd (h refl)
Move-IsClosed i mv d h = ground arith

Step-IsClosed :
    {n : ℕ} {s t : System} → Step n s t → IsClosed s → IsClosed t × (t.mem.taken ≡ s.mem.taken)
Step-IsClosed (move i lt mv) c =
    let (d, h, e) = Move-IsClosed i mv c.down (c.nobody i) in
    (record { down = d; nobody = λ j. ground (arith, h, c.nobody j) }, e)
Step-IsClosed (signals_pop i j li lj ei ej) c =
    (record { down = c.down; nobody = λ h. ground (arith, c.nobody h) }, refl)
Step-IsClosed (signals_nobody i li ei no_one) c =
    (record { down = c.down; nobody = λ h. ground (arith, c.nobody h) }, refl)
Step-IsClosed (signals_push i j t u li lj ei ej) c =
    (record { down = c.down; nobody = λ h. ground (arith, c.nobody h) }, refl)
Step-IsClosed (signals_no_push i t li ei no_one) c =
    (record { down = c.down; nobody = λ h. ground (arith, c.nobody h) }, refl)
Step-IsClosed (broadcasts i li ei) c =
    (record { down = c.down; nobody = λ h. ground (arith, c.nobody h) }, refl)
Step-IsClosed (joins i li ei all) c =
    (record { down = c.down; nobody = λ h. ground (arith, c.nobody h) }, refl)

-- After `wakeup`, once no worker is about to take a task, no task is taken any more, in whatever
-- order the threads go on: what the queue holds then, and what is pushed later, never runs.
pub Reach-IsClosed :
    {n : ℕ} {s t : System} → Reach n s t → IsClosed s → IsClosed t × (t.mem.taken ≡ s.mem.taken)
Reach-IsClosed here c = (c, refl)
Reach-IsClosed (later r st) c =
    let (c1, e1) = Reach-IsClosed r c in let (c2, e2) = Step-IsClosed st c1 in (c2, e2 ∙ e1)

-- Where a thread stands that waits for others: a producer without a task, a worker asleep in `pop`
-- or at its end, and `stop` at its joins.
abbrev pub is_parked : Pc → Bool
is_parked idle = true
is_parked pop_asleep = true
is_parked finished = true
is_parked stop_join = true
is_parked _ = false

-- Thread `j` comes out of its sleep without a signal, or is given a new task.
abbrev pub Stirs : Pc → Pc → Type 0
Stirs p p' = ((p ≡ pop_asleep) × (p' ≡ pop_woken)) ⊎ ((p ≡ idle) × ((x : ℕ) × (p' ≡ push_lock x)))

Move-parked :
    (i : ℕ) {m m' : Memory} {p p' : Pc} → Move i m p m' p' → is_parked p ≡ true → Stirs p p'
Move-parked i (adds {t}) h = inr (refl, (t, refl))
Move-parked i pop_spurious h = inl (refl, refl)
Move-parked i mv h = absurd (ground arith)

-- With every thread parked and a worker asleep among them, a step is a wake-up without a signal or
-- a new task for a producer.
parked-Stirs :
    {n : ℕ} {s t : System} (a : ℕ)
    → a < n
    → s.pc a ≡ pop_asleep
    → ((j : ℕ) → j < n → is_parked (s.pc j) ≡ true)
    → Step n s t
    → (j : ℕ) × (j < n) × Stirs (s.pc j) (t.pc j)
parked-Stirs {s} a la ea parked (move i {p} lt mv) =
    (i, lt, subst (Stirs (s.pc i)) (sym (update_same s.pc i p)) (Move-parked i mv (parked i lt)))
parked-Stirs a la ea parked (signals_pop i j li lj ei ej) = absurd (ground (arith, parked i li))
parked-Stirs a la ea parked (signals_nobody i li ei no_one) = absurd (ground (arith, parked i li))
parked-Stirs a la ea parked (signals_push i j t u li lj ei ej) =
    absurd (ground (arith, parked i li))
parked-Stirs a la ea parked (signals_no_push i t li ei no_one) =
    absurd (ground (arith, parked i li))
parked-Stirs a la ea parked (broadcasts i li ei) = absurd (ground (arith, parked i li))
parked-Stirs a la ea parked (joins i li ei all) = absurd (ground (arith, all a la))

-- A pool with one worker, thread 0, and any number of producers; thread 1 calls `stop`.
abbrev pub team : ℕ → Role
team zero = worker
team (suc zero) = stopper
team (suc (suc j)) = producer

pub record Run (n cap : ℕ) : Type 0 where
  pub last : System
  pub reach : Reach n (init cap team) last

abbrev pub step : {n cap : ℕ} (r : Run n cap) {t : System} → Step n r.last t → Run n cap
step r st = record { last = _; reach = later r.reach st }

-- The worker has found the queue empty and the flag up; `stop` runs up to its joins, with its
-- broadcast; then the worker goes to sleep.
abbrev pub lost : (n cap : ℕ) → Run (suc (suc n)) cap
unfolding ℕ_discrete
lost n cap =
    step
      (step
        (step
          (step
            (step
              (step
                (step
                  (step (record { last = init cap team; reach = here })
                    (move 0 (omega arith) (works refl)))
                  (move 0 (omega arith) (pop_locks refl)))
                (move 0 (omega arith) (pop_empty refl)))
              (move 1 (omega arith) (polls_empty refl)))
            (move 1 (omega arith) sets_exit))
          (move 1 (omega arith) clears_flag))
        (broadcasts 1 (omega arith) refl))
      (move 0 (omega arith) pop_sleeps)

abbrev pub hung : (n cap : ℕ) → System
hung n cap = (lost n cap).last

hung_parked : (n cap j : ℕ) → is_parked ((hung n cap).pc j) ≡ true
unfolding ℕ_discrete
hung_parked n cap zero = refl
hung_parked n cap (suc zero) = refl
hung_parked n cap (suc (suc j)) = ground arith

-- On every pool with one worker, whatever the number of the other threads and the room of the queue,
-- the threads can come from the start to a state in which `stop` has made its broadcast and waits in
-- its join, while the worker sleeps in `pop`; and each step from there is a wake-up without a signal
-- or the call of addTask by a producer. Without these `stop` never returns.
pub stop_hangs :
    (n cap : ℕ) {t : System}
    → Step (suc (suc n)) (hung n cap) t
    → Reach (suc (suc n)) (init cap team) (hung n cap)
      × ((hung n cap).pc 0 ≡ pop_asleep)
      × ((hung n cap).pc 1 ≡ stop_join)
      × (j : ℕ) × (j < suc (suc n))
      × Stirs ((hung n cap).pc j) (t.pc j)
unfolding ℕ_discrete
stop_hangs n cap st =
    let (j, lt, stirs) = parked-Stirs 0 (omega arith) refl (λ j lt. hung_parked n cap j) st in
    ((lost n cap).reach, refl, refl, j, lt, stirs)
