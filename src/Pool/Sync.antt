-- ===== src/Pool/Sync.antt =====
-- tcppart/MutexLock.cc, tcppart/Condition.cc and, on them, `push`, `pop` and `wakeup` of
-- tcppart/TaskQueue.cc as one thread runs them: while it waits for the mutex or for a signal, the
-- other threads may change the queue. Between the test of `pop` and its `if` nobody writes `_flag`
-- here; `wakeup` does so without the mutex, and Worker, which has the same code as steps of many
-- threads, reads it at each of the two places.
pub mod Calls
pub mod During
pub mod Followed
pub mod Replay
mod Tests
mod Rides
use filedisk_server.Common.{
  ℕ, zero, suc, Bool, true, false, ◌&&◌, Option, none, some, List, [], ◌∷◌, ◌++◌, length, ◌==◌,
  if◌then◌else◌,
}
use mathlib.Core.Option

pub data Cond : Type 0 where
  not_full not_empty : Cond

-- The calls on the mutex and on the two conditions of the queue.
pub data SyncCall : Type 0 where
  locks try_locks unlocks : SyncCall
  waits signals broadcasts : Cond → SyncCall

pub record Queue : Type 0 where
  pub que_size : ℕ
  pub que : List ℕ
  pub flag : Bool

abbrev pub full : Queue → Bool
full q = q.que_size == length q.que

abbrev pub empty : Queue → Bool
empty q = 0 == length q.que

-- The condition of the loop of `pop`.
abbrev pub idle_queue : Queue → Bool
idle_queue q = empty q && q.flag

-- The pthread functions; each returns 0 or an error. `call` is about a mutex or a condition that
-- exists, and may take as long as the other threads do what they do.
pub record Pthread (W : Type 0) : Type 0 where
  pub call : SyncCall → Queue × W → ℕ × Queue × W
  pub mutex_init : W → ℕ × W
  pub mutex_destroy : W → ℕ × W
  pub cond_init : Cond → W → ℕ × W
  pub cond_destroy : Cond → W → ℕ × W
  pub perror : W → W

-- `log` records the calls of the thread; the code does not store it.
pub record Shared (W : Type 0) : Type 0 where
  pub queue : Queue
  pub outside : W
  pub log : List SyncCall

-- What `pop` returns, or a call of `front` on an empty queue.
pub data Popped : Type 0 where
  task_of : ℕ → Popped
  null_task undefined : Popped

module _ {W : Type 0} (k : Pthread W) where
  -- An error is printed, and nothing else.
  abbrev pub checked : ℕ × W → W
  checked (code, w) = if code == 0 then w else k.perror w

  abbrev pub called : SyncCall → List SyncCall → ℕ × Queue × W → Shared W
  called c log (code, q, w) = record {
    queue = q;
    outside = checked (code, w);
    log = log ++ (c ∷ []);
  }

  abbrev pub perform : SyncCall → Shared W → Shared W
  perform c s = called c s.log (k.call c (s.queue, s.outside))

  -- MutexLock
  pub new_mutex_lock : W → W
  new_mutex_lock w = checked (k.mutex_init w)

  pub delete_mutex_lock : W → W
  delete_mutex_lock w = checked (k.mutex_destroy w)

  pub lock : Shared W → Shared W
  lock s = perform locks s

  pub try_lock : Shared W → Shared W
  try_lock s = perform try_locks s

  pub unlock : Shared W → Shared W
  unlock s = perform unlocks s

  -- Condition
  pub new_condition : Cond → W → W
  new_condition c w = checked (k.cond_init c w)

  pub delete_condition : Cond → W → W
  delete_condition c w = checked (k.cond_destroy c w)

  pub wait : Cond → Shared W → Shared W
  wait c s = perform (waits c) s

  pub notify : Cond → Shared W → Shared W
  notify c s = perform (signals c) s

  pub notify_all : Cond → Shared W → Shared W
  notify_all c s = perform (broadcasts c) s

  -- TaskQueue. The members are made in the order of the class, and destroyed in the opposite order.
  pub new_task_queue : ℕ → W → Shared W
  unfolding new_mutex_lock new_condition
  new_task_queue que_size w = record {
    queue = record { que_size = que_size; que = []; flag = true };
    outside = new_condition not_empty (new_condition not_full (new_mutex_lock w));
    log = [];
  }

  pub delete_task_queue : W → W
  unfolding delete_mutex_lock delete_condition
  delete_task_queue w = delete_mutex_lock (delete_condition not_full (delete_condition not_empty w))

  -- The loops of `push` and `pop`: the thread waits on `c` as long as `test` holds of the queue.
  pub wait_while : Cond → (Queue → Bool) → ℕ → Shared W → Option (Shared W)
  unfolding wait
  wait_while c test zero s = none
  wait_while c test (suc fuel) s =
      let rest = wait_while c test fuel (wait c s) in if test s.queue then rest else some s

  -- `_que.push`, and the rest of `push`; `MutexLockGuard` unlocks at the end of the block.
  pub put_task : ℕ → Shared W → Shared W
  unfolding unlock notify
  put_task task s =
      let q = record s.queue { que = s.queue.que ++ (task ∷ []) } in
      unlock (notify not_empty (record s { queue = q }))

  pub push : ℕ → ℕ → Shared W → Option (Shared W)
  unfolding lock wait_while put_task
  push fuel task s = Option.map (put_task task) (wait_while not_full full fuel (lock s))

  pub take_front : Shared W → List ℕ → Popped × Shared W
  unfolding unlock notify
  take_front s [] = (undefined, s)
  take_front s (tmp ∷ rest) =
      (task_of tmp, unlock (notify not_full (record s { queue = record s.queue { que = rest } })))

  pub take_task : Shared W → Popped × Shared W
  unfolding take_front unlock
  take_task s = if s.queue.flag then take_front s s.queue.que else (null_task, unlock s)

  pub pop : ℕ → Shared W → Option (Popped × Shared W)
  unfolding lock wait_while take_task
  pop fuel s = Option.map take_task (wait_while not_empty idle_queue fuel (lock s))

  pub wakeup : Shared W → Shared W
  unfolding notify_all
  wakeup s = notify_all not_empty (record s { queue = record s.queue { flag = false } })
