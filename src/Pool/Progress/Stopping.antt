-- ===== src/Pool/Progress/Stopping.antt =====
-- `ThreadPool::stop` when its broadcast reaches every worker that sleeps: the workers come to their end.
use filedisk_server.Common.{ℕ, ◌+◌, ◌≡◌, ◌≢◌, true, false}
use filedisk_server.Pool.Memory.{Memory}
use filedisk_server.Pool.Worker.{pop_wait, pop_asleep}
use filedisk_server.Pool.System.{
  System, Step, move, signals_push, signals_no_push, Reach, here, later,
}
use filedisk_server.Pool.Progress.Sends.{Sends}
use filedisk_server.Pool.Progress.Ranks.{cost}

-- Whether a worker takes the step.
abbrev pub step_cost : {n : ℕ} {s t : System} → Step n s t → ℕ
step_cost {s} (move i lt mv) = cost (s.pc i)
step_cost (signals_push i j t u li lj ei ej) = 1
step_cost (signals_no_push i t li ei no_one) = 1
step_cost _ = 0

abbrev pub worker_steps : {n : ℕ} {s t : System} → Reach n s t → ℕ
worker_steps here = 0
worker_steps (later r st) = worker_steps r + step_cost st

-- `_flag` is down, `_isExit` is up, and no worker sleeps or is about to.
pub record IsFreed (s : System) : Type 0 where
  pub down : s.mem.flag ≡ false
  pub out : s.mem.is_exit ≡ true
  pub awake : (i : ℕ) → (s.pc i ≢ pop_wait) × (s.pc i ≢ pop_asleep)
