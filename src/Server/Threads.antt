-- ===== src/Server/Threads.antt =====
-- tcppart/Thread.cc, and `ThreadPool::start` and the joins of `ThreadPool::stop`. `pthread_create` and
-- `pthread_join` are parameters.
pub mod Joins
use filedisk_server.Common.{
  ℕ, zero, suc, ◌≡◌, refl, ap, Bool, true, false, Option, none, some, List, [], ◌∷◌, ◌++◌,
  append_assoc, append-nil, length, All, arith, Bool-cases, inl, inr, if◌then◌else◌, sym, ◌∙◌,
}

-- `create` gives the id of the new thread, or fails; `join` tells whether it failed.
pub record Pthreads (T : Type 0) : Type 0 where
  pub create : T → Option ℕ × T
  pub join : T → ℕ → Bool × T

-- `_thid` has the value 0 until a thread is created.
pub record Thread : Type 0 where
  pub thid : ℕ
  pub is_running : Bool

-- `Thread::Thread`
abbrev new_thread : Thread
new_thread = record { thid = 0; is_running = false }

module _ {T : Type 0} (k : Pthreads T) where
  unfoldable pub with_id : Thread → Option ℕ × T → Thread × T
  with_id th (none, t) = (th, t)
  with_id th (some id, t) = (record { thid = id; is_running = true }, t)

  unfoldable pub thread_start : Thread → T → Thread × T
  unfolding with_id
  thread_start th t = with_id th (k.create t)

  pub joined : Thread → Bool × T → Thread × T
  joined th (false, t) = (th, t)
  joined th (true, t) = (record th { is_running = false }, t)

  pub thread_stop : Thread → T → Thread × T
  unfolding joined
  thread_stop th t = if th.is_running then joined th (k.join t th.thid) else (th, t)

  -- The two loops of `ThreadPool::start`: as many threads are made, and then all are started.
  unfoldable pub make_threads : ℕ → List Thread
  make_threads zero = []
  make_threads (suc n) = new_thread ∷ make_threads n

  unfoldable pub start_all : List Thread → T → List Thread × T
  unfolding thread_start
  start_all [] t = ([], t)
  start_all (th ∷ ths) t =
      let (th1, t1) = thread_start th t in let (ths1, t2) = start_all ths t1 in (th1 ∷ ths1, t2)

  unfoldable pub pool_start : ℕ → T → List Thread × T
  unfolding make_threads start_all
  pool_start n t = start_all (make_threads n) t

  -- The last loop of `ThreadPool::stop`.
  pub stop_all : List Thread → T → List Thread × T
  unfolding thread_stop
  stop_all [] t = ([], t)
  stop_all (th ∷ ths) t =
      let (th1, t1) = thread_stop th t in let (ths1, t2) = stop_all ths t1 in (th1 ∷ ths1, t2)

-- What `ThreadPool::stop` asks of the pool while the other threads go on: `empty` and `wakeup` of
-- TaskQueue, the `sleep` of a second, and the write to `_isExit`. Pool/Worker has these as steps.
pub record PoolCalls (T : Type 0) : Type 0 where
  pub queue_empty : T → Bool × T
  pub sleep : T → T
  pub set_exit : T → T
  pub wakeup : T → T

-- `ThreadPool::stop`; `fuel` is for the looks at the queue.
unfoldable pub pool_stop :
    {T : Type 0} → Pthreads T → PoolCalls T → ℕ → List Thread → T → Option (List Thread × T)
unfolding stop_all
pool_stop k q zero ths t = none
pool_stop k q (suc fuel) ths t =
    let (is_empty, t1) = q.queue_empty t in
    let rest = pool_stop k q fuel ths (q.sleep t1) in
    if is_empty then some (stop_all k ths (q.wakeup (q.set_exit t1))) else rest

-- The ids of the threads that run.
abbrev pub running : List Thread → List ℕ
running [] = []
running (th ∷ ths) = let rest = running ths in if th.is_running then th.thid ∷ rest else rest

-- What the calls have done so far: the ids that were created and those that were joined.
pub record History (T : Type 0) : Type 0 where
  pub created : T → List ℕ
  pub joins : T → List ℕ

-- pthread_create and pthread_join as POSIX describes them, a join without an error.
pub record Laws {T : Type 0} (k : Pthreads T) (h : History T) : Type 0 where
  pub create_some :
      (t t' : T) (id : ℕ)
      → k.create t ≡ (some id, t')
      → (h.created t' ≡ h.created t ++ (id ∷ [])) × (h.joins t' ≡ h.joins t)
  pub create_none :
      (t t' : T) → k.create t ≡ (none, t') → (h.created t' ≡ h.created t) × (h.joins t' ≡ h.joins t)
  pub join_all :
      (t : T) (id : ℕ)
      → ((k.join t id).0 ≡ true)
        × (h.joins (k.join t id).1 ≡ h.joins t ++ (id ∷ []))
        × (h.created (k.join t id).1 ≡ h.created t)

-- The calls on the pool neither create nor join threads.
pub record Quiet {T : Type 0} (q : PoolCalls T) (h : History T) : Type 0 where
  pub empty_quiet :
      (t : T)
      → (h.created (q.queue_empty t).1 ≡ h.created t) × (h.joins (q.queue_empty t).1 ≡ h.joins t)
  pub sleep_quiet :
      (t : T) → (h.created (q.sleep t) ≡ h.created t) × (h.joins (q.sleep t) ≡ h.joins t)
  pub exit_quiet :
      (t : T) → (h.created (q.set_exit t) ≡ h.created t) × (h.joins (q.set_exit t) ≡ h.joins t)
  pub wakeup_quiet :
      (t : T) → (h.created (q.wakeup t) ≡ h.created t) × (h.joins (q.wakeup t) ≡ h.joins t)
