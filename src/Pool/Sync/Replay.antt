-- ===== src/Pool/Sync/Replay.antt =====
-- `push` of Pool/Sync and the steps of a producer in Pool/Worker: what a producer does among the
-- other threads is what `push` does when each of its tests sees the queue that they have left.
use filedisk_server.Common.{
  ℕ, zero, suc, ◌<◌, ◌≡◌, refl, sym, ap, subst, ◌∙◌, true, false, some, List, [], ◌∷◌, ◌++◌,
  append-nil, append_assoc, length, arith, All, length-append,
}
use mathlib.Core.Option
use filedisk_server.Pool.Worker.{idle, push_lock}
use filedisk_server.Pool.System.{System, Role, init, Reach}
use filedisk_server.Pool.Invariant.{Reach-Inv, init-Inv}
use filedisk_server.Pool.Sync.{
  not_full, not_empty, SyncCall, locks, unlocks, waits, signals, Queue, full, Pthread, Shared, push,
  wait, lock, wait_while, put_task, unlock, notify,
}
use filedisk_server.Pool.Sync.Calls.{repeat}
use filedisk_server.Pool.Sync.During.{During, queue_of, At}
use filedisk_server.Pool.Sync.Followed.{During-At}

-- Threads that leave the queues of a list, one at the lock and one at each wait.
abbrev pub shown : Queue → List (List ℕ) → ℕ × Queue × List (List ℕ)
shown q [] = (0, q, [])
shown q (que ∷ later) = (0, record q { que = que }, later)

abbrev pub replied : SyncCall → Queue × List (List ℕ) → ℕ × Queue × List (List ℕ)
replied locks (q, w) = shown q w
replied (waits c) (q, w) = shown q w
replied c (q, w) = (0, q, w)

abbrev pub replay : Pthread (List (List ℕ))
replay = record {
  call = replied;
  mutex_init = λ w. (0, w);
  mutex_destroy = λ w. (0, w);
  cond_init = λ c w. (0, w);
  cond_destroy = λ c w. (0, w);
  perror = λ w. w;
}

module _ (cap : ℕ) where
  at_test : List SyncCall → List ℕ → List (List ℕ) → Shared (List (List ℕ))
  at_test log old [] = record { queue = queue_of cap old; outside = []; log = log }
  at_test log old (que ∷ later) = record { queue = queue_of cap que; outside = later; log = log }

  wait-at_test :
      (log : List SyncCall) (old : List ℕ) (later : List (List ℕ))
      → wait replay not_full (record { queue = queue_of cap old; outside = later; log = log })
        ≡ at_test (log ++ (waits not_full ∷ [])) old later
  unfolding wait at_test
  wait-at_test log old [] = refl
  wait-at_test log old (que ∷ later) = refl

  lock-at_test :
      (later : List (List ℕ))
      → lock replay (record { queue = queue_of cap []; outside = later; log = [] })
        ≡ at_test (locks ∷ []) [] later
  unfolding lock at_test
  lock-at_test [] = refl
  lock-at_test (que ∷ later) = refl

  wait_while-replay :
      (hist : List (List ℕ)) (q old : List ℕ) (log : List SyncCall) (fuel : ℕ)
      → All (λ q1. full (queue_of cap q1) ≡ true) hist
      → full (queue_of cap q) ≡ false
      → length hist < fuel
      → wait_while replay not_full full fuel (at_test log old (hist ++ (q ∷ [])))
        ≡ some (record {
          queue = queue_of cap q;
          outside = [];
          log = log ++ repeat (length hist) (waits not_full);
        })
  unfolding wait_while at_test
  wait_while-replay hist q old log zero fulls room lt = absurd (omega arith)
  wait_while-replay [] q old log (suc fuel) fulls room lt = rw room (
      ap (λ l. some (record { queue = queue_of cap q; outside = []; log = l }))
        (sym (append-nil log)))
  wait_while-replay (x ∷ hist) q old log (suc fuel) (here, fulls) room lt = rw here (
      ap (wait_while replay not_full full fuel) (wait-at_test log x (hist ++ (q ∷ [])))
      ∙ wait_while-replay hist q x (log ++ (waits not_full ∷ [])) fuel fulls room (omega arith)
      ∙ ap (λ l. some (record { queue = queue_of cap q; outside = []; log = l }))
          (append_assoc log (waits not_full ∷ []) (repeat (length hist) (waits not_full))))

  abbrev pub start_with : List (List ℕ) → Shared (List (List ℕ))
  start_with qs = record { queue = queue_of cap []; outside = qs; log = [] }

-- In any interleaving of the threads of a pool let a thread be on its way from the call of push with
-- a task to its return. Then push itself returns, on a queue that its lock and its waits leave as
-- the tests of the thread have seen it, with one more fuel than there were tests: it makes the same
-- calls as the thread, in the same order, and leaves the same tasks in the queue.
pub push-replay :
    (cap : ℕ) (roles : ℕ → Role) (n i task : ℕ) {s u : System} {l : List SyncCall}
    {qs : List (List ℕ)}
    → Reach n (init cap roles) s
    → s.pc i ≡ push_lock task
    → During n i s l qs u
    → u.pc i ≡ idle
    → (out : Shared (List (List ℕ))) × (push replay (suc (length qs)) task (start_with cap qs)
        ≡ some out)
      × (out.queue.que ≡ u.mem.que)
      × (out.log ≡ l)
unfolding push put_task unlock notify
push-replay cap roles n i task {s} {u} {l} {qs} r e d back =
    let (inv, at) = During-At cap task (Reach-Inv r (init-Inv cap roles)) e d in
    let (hist, q, put, roomy) = subst (λ p. At cap task p u.mem l qs) back at in
    let seen : Shared (List (List ℕ)) = record {
      queue = queue_of cap q;
      outside = [];
      log = locks ∷ repeat (length hist) (waits not_full);
    } in
    (
      put_task replay task seen,
      ap (Option.map (put_task replay task)) (
          ap (wait_while replay not_full full (suc (length qs))) (lock-at_test cap qs)
          ∙ ap
              (λ qs1.
                wait_while replay not_full full (suc (length qs)) (at_test cap (locks ∷ []) [] qs1))
              roomy.queues
          ∙ wait_while-replay cap hist q [] (locks ∷ []) (suc (length qs)) roomy.fulls roomy.room
              (omega (arith, ap length roomy.queues, length-append hist (q ∷ [])))),
      sym put,
      append_assoc seen.log (signals not_empty ∷ []) (unlocks ∷ []) ∙ sym roomy.calls,
    )
