-- ===== src/Pool/Worker.antt =====
-- One thread of the pool, from one shared access to the next: a producer in `ThreadPool::addTask`,
-- a worker in `ThreadPool::doTask`, or the thread that calls `ThreadPool::stop`.
use filedisk_server.Common.{ℕ, ◌≡◌, Bool, true, false, ◌&&◌, none, some, List, [], ◌∷◌, ◌++◌}
use filedisk_server.Pool.Memory.{Memory, full, empty}

-- Where a thread stands, with its local variables. `wait` is before the sleep of
-- `pthread_cond_wait`, with the mutex held; `asleep` is in it, with the mutex given back; `woken` is
-- behind it, before the mutex is taken again.
pub data Pc : Type 0 where
  idle : Pc
  push_lock : (task : ℕ) → Pc
  push_test : (task : ℕ) → Pc
  push_wait : (task : ℕ) → Pc
  push_asleep : (task : ℕ) → Pc
  push_woken : (task : ℕ) → Pc
  push_put : (task : ℕ) → Pc
  push_notify : Pc
  push_unlock : Pc
  work_loop : Pc
  pop_lock : Pc
  pop_test : Pc
  pop_wait : Pc
  pop_asleep : Pc
  pop_woken : Pc
  pop_flag : Pc
  pop_take : Pc
  pop_notify : (tmp : ℕ) → Pc
  pop_return : (tmp : ℕ) → Pc
  pop_null : Pc
  running : (taskcb : ℕ) → Pc
  finished : Pc
  stop_poll : Pc
  stop_exit : Pc
  stop_flag : Pc
  stop_broadcast : Pc
  stop_join : Pc
  stopped : Pc

-- A step of thread `i` that wakes no other. The waits may return with no signal, as POSIX allows.
pub data Move (i : ℕ) (m : Memory) : Pc → Memory → Pc → Type 0 where
  adds : {t : ℕ} → Move i m idle m (push_lock t)
  push_locks :
      {t : ℕ} → m.owner ≡ none → Move i m (push_lock t) (record m { owner = some i }) (push_test t)
  push_full : {t : ℕ} → full m ≡ true → Move i m (push_test t) m (push_wait t)
  push_room : {t : ℕ} → full m ≡ false → Move i m (push_test t) m (push_put t)
  push_sleeps : {t : ℕ} → Move i m (push_wait t) (record m { owner = none }) (push_asleep t)
  push_spurious : {t : ℕ} → Move i m (push_asleep t) m (push_woken t)
  push_relocks :
      {t : ℕ} → m.owner ≡ none → Move i m (push_woken t) (record m { owner = some i }) (push_test t)
  push_puts :
      {t : ℕ}
      → Move i m
          (push_put t)
          (record m { que = m.que ++ (t ∷ []); accepted = m.accepted ++ (t ∷ []) })
          push_notify
  push_unlocks : Move i m push_unlock (record m { owner = none }) idle
  works : m.is_exit ≡ false → Move i m work_loop m pop_lock
  exits : m.is_exit ≡ true → Move i m work_loop m finished
  pop_locks : m.owner ≡ none → Move i m pop_lock (record m { owner = some i }) pop_test
  pop_empty : (empty m && m.flag) ≡ true → Move i m pop_test m pop_wait
  pop_ready : (empty m && m.flag) ≡ false → Move i m pop_test m pop_flag
  pop_sleeps : Move i m pop_wait (record m { owner = none }) pop_asleep
  pop_spurious : Move i m pop_asleep m pop_woken
  pop_relocks : m.owner ≡ none → Move i m pop_woken (record m { owner = some i }) pop_test
  pop_live : m.flag ≡ true → Move i m pop_flag m pop_take
  pop_dead : m.flag ≡ false → Move i m pop_flag m pop_null
  pop_takes :
      {t : ℕ} {rest : List ℕ}
      → m.que ≡ t ∷ rest
      → Move i m pop_take (record m { que = rest; taken = m.taken ++ (t ∷ []) }) (pop_notify t)
  pop_unlocks : {t : ℕ} → Move i m (pop_return t) (record m { owner = none }) (running t)
  null_unlocks : Move i m pop_null (record m { owner = none }) work_loop
  runs : {t : ℕ} → Move i m (running t) m work_loop
  polls_more : empty m ≡ false → Move i m stop_poll m stop_poll
  polls_empty : empty m ≡ true → Move i m stop_poll m stop_exit
  sets_exit : Move i m stop_exit (record m { is_exit = true }) stop_flag
  clears_flag : Move i m stop_flag (record m { flag = false }) stop_broadcast

-- Between the constructor and the destructor of `MutexLockGuard`, less the sleeps.
abbrev pub holds : Pc → Bool
holds (push_test t) = true
holds (push_wait t) = true
holds (push_put t) = true
holds push_notify = true
holds push_unlock = true
holds pop_test = true
holds pop_wait = true
holds pop_flag = true
holds pop_take = true
holds (pop_notify t) = true
holds (pop_return t) = true
holds pop_null = true
holds _ = false

-- A thread that runs `doTask`.
abbrev pub is_worker : Pc → Bool
is_worker work_loop = true
is_worker pop_lock = true
is_worker pop_test = true
is_worker pop_wait = true
is_worker pop_asleep = true
is_worker pop_woken = true
is_worker pop_flag = true
is_worker pop_take = true
is_worker (pop_notify t) = true
is_worker (pop_return t) = true
is_worker pop_null = true
is_worker (running t) = true
is_worker finished = true
is_worker _ = false

-- What `notifyAll` on `_notEmpty` does to a thread.
abbrev pub wake : Pc → Pc
wake pop_asleep = pop_woken
wake p = p
