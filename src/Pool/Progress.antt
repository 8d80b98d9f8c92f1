-- ===== src/Pool/Progress.antt =====
-- Who can go on while there is work for the pool: the conditions `_notEmpty` and `_notFull`.
pub mod Wakeups
pub mod Sends
pub mod Steps
pub mod Actions
pub mod Freedom
pub mod Ranks
pub mod Stopping
use filedisk_server.Common.{
  ℕ, ◌≤◌, ◌<◌, ◌≡◌, ◌≢◌, refl, sym, ap, ◌∙◌, inl, inr, Bool, Bool-cases, true, false, ◌&&◌, Option,
  none, some, [], ◌∷◌, ◌++◌, length, length-append, arith, ◌==◌, ℕ_discrete,
}
use filedisk_server.Common.Family.{update}
use filedisk_server.Pool.Memory.{Memory, full, empty}
use filedisk_server.Pool.Worker.{
  Pc, push_lock, push_test, push_wait, push_asleep, push_woken, push_put, push_notify, push_unlock,
  work_loop, pop_lock, pop_test, pop_wait, pop_asleep, pop_woken, pop_flag, pop_take, pop_notify,
  pop_return, pop_null, running, finished, Move, holds, is_worker,
}
use filedisk_server.Pool.System.{System}

-- A worker that is awake, or a producer that is about to signal `_notEmpty`.
abbrev pub feeds : Pc → Bool
feeds pop_asleep = false
feeds finished = false
feeds push_notify = true
feeds p = is_worker p

-- A producer that is awake and on its way to the queue, or a worker about to signal `_notFull`.
abbrev pub fills : Pc → Bool
fills (push_test t) = true
fills (push_woken t) = true
fills (push_put t) = true
fills (pop_notify t) = true
fills _ = false

-- A thread inside `push` or `doTask` that does not sleep.
abbrev pub is_busy : Pc → Bool
is_busy (push_lock t) = true
is_busy (push_test t) = true
is_busy (push_wait t) = true
is_busy (push_woken t) = true
is_busy (push_put t) = true
is_busy push_notify = true
is_busy push_unlock = true
is_busy pop_asleep = false
is_busy finished = false
is_busy p = is_worker p

-- What a thread has seen before it sleeps or ends.
abbrev pub Seen : Memory → Pc → Type 0
Seen m (push_wait t) = full m ≡ true
Seen m pop_wait = empty m ≡ true
Seen m finished = m.is_exit ≡ true
Seen m _ = Unit

abbrev pub Some : ℕ → (ℕ → Pc) → (Pc → Bool) → Type 0
Some n pc test = (i : ℕ) × (i < n) × (test (pc i) ≡ true)

-- While no one has called `stop`, a worker `w` is there; whoever has the mutex is inside `push` or
-- `pop`; with a task in the queue somebody feeds a worker; and with a producer asleep at an empty
-- queue somebody is on the way to fill it.
pub record Live (n w : ℕ) (m : Memory) (pc : ℕ → Pc) : Type 0 where
  pub stays : is_worker (pc w) ≡ true
  pub owner_holds : (i : ℕ) → m.owner ≡ some i → (i < n) × (holds (pc i) ≡ true)
  pub seen : (i : ℕ) → Seen m (pc i)
  pub fed : m.is_exit ≡ false → empty m ≡ false → Some n pc feeds
  pub filled : (j u : ℕ) → j < n → empty m ≡ true → pc j ≡ push_asleep u → Some n pc fills
