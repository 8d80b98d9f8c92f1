-- ===== src/Pool/Sync/Tests.antt =====
-- Runs of `push` and `pop` of tcppart/TaskQueue.cc.
use filedisk_server.Common.{
  ℕ, zero, suc, ◌<◌, ◌≡◌, refl, Bool, true, false, some, List, [], ◌∷◌, arith,
}
use filedisk_server.Pool.Sync.{
  not_full, not_empty, SyncCall, locks, try_locks, unlocks, waits, signals, broadcasts, Queue, full,
  Pthread, Shared, lock, push, null_task, pop, wakeup, try_lock, new_task_queue, delete_task_queue,
  new_mutex_lock, new_condition, delete_mutex_lock, delete_condition, idle_queue,
}
use filedisk_server.Pool.Sync.Calls.{Laws, after_waits, popping, visit-calls, Visited}

-- What a wait returns: the queue that the other threads have left.
abbrev awaken : Queue → List Queue → ℕ × Queue × List Queue
awaken q [] = (0, q, [])
awaken q (left ∷ later) = (0, left, later)

-- The signals fail, which changes nothing but the output.
abbrev replied : SyncCall → Queue × List Queue → ℕ × Queue × List Queue
replied (waits c) (q, w) = awaken q w
replied locks (q, w) = (0, q, w)
replied try_locks (q, w) = (0, q, w)
replied unlocks (q, w) = (0, q, w)
replied (signals c) (q, w) = (22, q, w)
replied (broadcasts c) (q, w) = (0, q, w)

abbrev threads : Pthread (List Queue)
threads = record {
  call = replied;
  mutex_init = λ w. (0, w);
  mutex_destroy = λ w. (0, w);
  cond_init = λ c w. (0, w);
  cond_destroy = λ c w. (0, w);
  perror = λ w. w;
}

threads-Laws : Laws threads
threads-Laws = record { signal_keeps = λ c q w. refl; unlock_keeps = λ q w. refl }

abbrev queued : List ℕ → Bool → Queue
queued tasks flag = record { que_size = 1; que = tasks; flag = flag }

abbrev start : Queue → List Queue → Shared (List Queue)
start q later = record { queue = q; outside = later; log = [] }

-- The queue is full, and still full after a first wait; then a worker has taken the task.
abbrev crowded : Shared (List Queue)
crowded = start (queued (5 ∷ []) true) (queued (5 ∷ []) true ∷ queued [] true ∷ [])

-- The queue is empty until a thread has pushed.
abbrev bare : Shared (List Queue)
bare = start (queued [] true) (queued [] true ∷ queued (7 ∷ []) true ∷ [])

crowded_before :
    (i : ℕ) → i < 2 → full (after_waits threads not_full i (lock threads crowded)).queue ≡ true
unfolding lock after_waits
crowded_before zero lt = refl
crowded_before (suc zero) lt = refl
crowded_before (suc (suc i)) lt = absurd (omega arith)

crowded_then : full (after_waits threads not_full 2 (lock threads crowded)).queue ≡ false
unfolding lock after_waits
crowded_then = refl

bare_before :
    (i : ℕ) → i < 2 → idle_queue (after_waits threads not_empty i (lock threads bare)).queue ≡ true
unfolding lock after_waits
bare_before zero lt = refl
bare_before (suc zero) lt = refl
bare_before (suc (suc i)) lt = absurd (omega arith)

bare_then : idle_queue (after_waits threads not_empty 2 (lock threads bare)).queue ≡ false
unfolding lock after_waits
bare_then = refl

visit-calls_example :
    Visited threads popping bare 3 2 (after_waits threads not_empty 2 (lock threads bare))
visit-calls_example =
    visit-calls threads threads-Laws popping 3 2 bare bare_before bare_then (omega arith)

pushed_late :
    push threads 3 9 crowded
    ≡ some (record {
      queue = queued (9 ∷ []) true;
      outside = [];
      log = locks ∷ waits not_full ∷ waits not_full ∷ signals not_empty ∷ unlocks ∷ [];
    })
unfolding push
pushed_late = refl

-- A worker that looks after `wakeup` gets no task, though one is queued.
dismissed :
    pop threads 1 (wakeup threads (start (queued (4 ∷ []) true) []))
    ≡ some (
      null_task,
      record {
        queue = queued (4 ∷ []) false;
        outside = [];
        log = broadcasts not_empty ∷ locks ∷ unlocks ∷ [];
      },
    )
unfolding pop wakeup
dismissed = refl

-- A system in which every call fails; `perror` counts the reports.
abbrev refusing : Pthread ℕ
refusing = record {
  call = λ c (q, w). (22, q, w);
  mutex_init = λ w. (11, w);
  mutex_destroy = λ w. (16, w);
  cond_init = λ c w. (11, w);
  cond_destroy = λ c w. (16, w);
  perror = λ w. suc w;
}

reported : (new_task_queue refusing 1 0).outside ≡ 3
unfolding new_task_queue new_mutex_lock new_condition
reported = refl

reported_again : delete_task_queue refusing 3 ≡ 6
unfolding delete_task_queue delete_mutex_lock delete_condition
reported_again = refl

tried : (try_lock refusing (new_task_queue refusing 1 0)).outside ≡ 4
unfolding try_lock new_task_queue new_mutex_lock new_condition
tried = refl
