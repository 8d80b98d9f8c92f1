-- ===== src/Pool/Sync/Calls.antt =====
-- The calls that `push` and `pop` make, and what becomes of the queue.
use filedisk_server.Common.{
  ℕ, zero, suc, ◌<◌, ◌≡◌, refl, sym, ap, ◌∙◌, inl, inr, ◌⊎◌, Bool, Bool-cases, true, false, ◌&&◌,
  some, List, [], ◌∷◌, ◌++◌, append_assoc, append-nil, length, arith, ◌==◌, if◌then◌else◌,
}
use mathlib.Core.Option
use filedisk_server.Pool.Sync.{
  Cond, not_full, not_empty, SyncCall, locks, unlocks, waits, signals, Queue, full, Pthread, Shared,
  lock, unlock, wait, notify, wait_while, put_task, push, task_of, null_task, idle_queue,
  take_front, take_task, pop,
}

-- A thread that holds the mutex is the only one that changes the queue: a signal does not, nor does
-- the unlock itself.
pub record Laws {W : Type 0} (k : Pthread W) : Type 0 where
  pub signal_keeps : (c : Cond) (q : Queue) (w : W) → (k.call (signals c) (q, w)).1 ≡ q
  pub unlock_keeps : (q : Queue) (w : W) → (k.call unlocks (q, w)).1 ≡ q

abbrev pub repeat : ℕ → SyncCall → List SyncCall
repeat zero c = []
repeat (suc n) c = c ∷ repeat n c

-- The two calls that wait in the queue.
pub data Visit : Type 0 where
  pushing : ℕ → Visit
  popping : Visit

abbrev pub cond_of : Visit → Cond
cond_of (pushing task) = not_full
cond_of popping = not_empty

abbrev pub test_of : Visit → Queue → Bool
test_of (pushing task) q = full q
test_of popping q = idle_queue q

visit-log :
    (old : List SyncCall) (c : Cond) (m : ℕ) (rest : List SyncCall)
    → old ++ (locks ∷ []) ++ repeat m (waits c) ++ rest
      ≡ old ++ (locks ∷ (repeat m (waits c) ++ rest))
visit-log old c m rest =
    append_assoc (old ++ (locks ∷ [])) (repeat m (waits c)) rest
    ∙ append_assoc old (locks ∷ []) (repeat m (waits c) ++ rest)

module _ {W : Type 0} (k : Pthread W) where
  -- The state when the thread has after_waits `m` times.
  unfoldable pub after_waits : Cond → ℕ → Shared W → Shared W
  unfolding wait
  after_waits c zero s = s
  after_waits c (suc m) s = after_waits c m (wait k c s)

  after_waits-log :
      (c : Cond) (m : ℕ) (s : Shared W) → (after_waits c m s).log ≡ s.log ++ repeat m (waits c)
  unfolding wait after_waits
  after_waits-log c zero s = sym (append-nil s.log)
  after_waits-log c (suc m) s =
      after_waits-log c m (wait k c s) ∙ append_assoc s.log (waits c ∷ []) (repeat m (waits c))

  waits_until :
      (c : Cond)
      → (test : Queue → Bool) → (fuel m : ℕ) → (s : Shared W)
      → ((i : ℕ) → i < m → test (after_waits c i s).queue ≡ true)
      → test (after_waits c m s).queue ≡ false
      → m < fuel
      → wait_while k c test fuel s ≡ some (after_waits c m s)
  unfolding wait_while wait after_waits
  waits_until c test zero m s held ends lt = absurd (omega arith)
  waits_until c test (suc fuel) zero s held ends lt = rw ends refl
  waits_until c test (suc fuel) (suc m) s held ends lt = rw (held 0 (omega arith)) (
      waits_until c test fuel m (wait k c s) (λ i below. held (suc i) (omega arith)) ends
        (omega arith))

  visited-log :
      (c : Cond) (m : ℕ) (s : Shared W) (rest : List SyncCall)
      → (after_waits c m (lock k s)).log ++ rest ≡ s.log ++ (locks ∷ (repeat m (waits c) ++ rest))
  unfolding lock
  visited-log c m s rest =
      ap (λ l. l ++ rest) (after_waits-log c m (lock k s)) ∙ visit-log s.log c m rest

  abbrev pub Pushed : ℕ → Shared W → (fuel m : ℕ) → Shared W → Type 0
  Pushed task s fuel m seen =
      (out : Shared W) × (push k fuel task s ≡ some out)
      × (out.queue ≡ record seen.queue { que = seen.queue.que ++ (task ∷ []) })
      × (out.log
          ≡ s.log ++ (locks ∷ (repeat m (waits not_full) ++ (signals not_empty ∷ unlocks ∷ []))))

  push-calls :
      Laws k
      → (task fuel m : ℕ) → (s : Shared W)
      → ((i : ℕ) → i < m → full (after_waits not_full i (lock k s)).queue ≡ true)
      → full (after_waits not_full m (lock k s)).queue ≡ false
      → m < fuel
      → Pushed task s fuel m (after_waits not_full m (lock k s))
  unfolding push put_task unlock notify
  push-calls laws task fuel m s held ends lt =
      let seen = after_waits not_full m (lock k s) in
      (
        put_task k task seen,
        ap (Option.map (put_task k task))
            (waits_until not_full full fuel m (lock k s) held ends lt),
        laws.unlock_keeps _ _ ∙ laws.signal_keeps not_empty _ _,
        append_assoc seen.log (signals not_empty ∷ []) (unlocks ∷ []) ∙ visited-log not_full m s _,
      )

  -- What `pop` does when it has seen the queue of `seen` at the test that ends its loop.
  abbrev pub Taken : Shared W → (fuel m : ℕ) → Shared W → Type 0
  Taken s fuel m seen =
      (tmp : ℕ) × (rest : List ℕ) × (out : Shared W) × (seen.queue.que ≡ tmp ∷ rest)
      × (pop k fuel s ≡ some (task_of tmp, out))
      × (out.queue ≡ record seen.queue { que = rest })
      × (out.log
          ≡ s.log ++ (locks ∷ (repeat m (waits not_empty) ++ (signals not_full ∷ unlocks ∷ []))))

  abbrev pub Dismissed : Shared W → (fuel m : ℕ) → Shared W → Type 0
  Dismissed s fuel m seen =
      (out : Shared W) × (pop k fuel s ≡ some (null_task, out))
      × (out.queue ≡ seen.queue)
      × (out.log ≡ s.log ++ (locks ∷ (repeat m (waits not_empty) ++ (unlocks ∷ []))))

  front_of :
      (que : List ℕ) (flag : Bool)
      → flag ≡ true
      → (0 == length que) && flag ≡ false
      → (tmp : ℕ) × (rest : List ℕ) × (que ≡ tmp ∷ rest)
  front_of [] flag on busy = absurd cc
  front_of (tmp ∷ rest) flag on busy = (tmp, rest, refl)

  take_task-front :
      (s : Shared W) (tmp : ℕ) (rest : List ℕ)
      → s.queue.flag ≡ true
      → s.queue.que ≡ tmp ∷ rest
      → take_task k s ≡ (
        task_of tmp,
        unlock k (notify k not_full (record s { queue = record s.queue { que = rest } })),
      )
  unfolding take_task take_front
  take_task-front s tmp rest on front =
      ap (λ b. if b then take_front k s s.queue.que else (null_task, unlock k s)) on
      ∙ ap (take_front k s) front

  take_task-null : (s : Shared W) → s.queue.flag ≡ false → take_task k s ≡ (null_task, unlock k s)
  unfolding take_task
  take_task-null s off = rw off refl

  pop-take_task :
      (fuel m : ℕ)
      → (s : Shared W)
      → ((i : ℕ) → i < m → idle_queue (after_waits not_empty i (lock k s)).queue ≡ true)
      → idle_queue (after_waits not_empty m (lock k s)).queue ≡ false
      → m < fuel
      → pop k fuel s ≡ some (take_task k (after_waits not_empty m (lock k s)))
  unfolding pop
  pop-take_task fuel m s held ends lt =
      ap (Option.map (take_task k))
        (waits_until not_empty idle_queue fuel m (lock k s) held ends lt)

  abbrev pub Popping : Shared W → (fuel m : ℕ) → Shared W → Type 0
  Popping s fuel m seen =
      (seen.queue.flag ≡ true) × Taken s fuel m seen
      ⊎ (seen.queue.flag ≡ false) × Dismissed s fuel m seen

  pop-calls :
      Laws k
      → (fuel m : ℕ) → (s : Shared W)
      → ((i : ℕ) → i < m → idle_queue (after_waits not_empty i (lock k s)).queue ≡ true)
      → idle_queue (after_waits not_empty m (lock k s)).queue ≡ false
      → m < fuel
      → Popping s fuel m (after_waits not_empty m (lock k s))
  unfolding unlock notify
  pop-calls laws fuel m s held ends lt =
      let seen = after_waits not_empty m (lock k s) in
      let popped = pop-take_task fuel m s held ends lt in
      elim (Bool-cases seen.queue.flag) [
        | inl on ↦
            let (tmp, rest, front) = front_of seen.queue.que seen.queue.flag on ends in
            inl (
              on,
              (
                tmp,
                rest,
                unlock k
                    (notify k not_full (record seen { queue = record seen.queue { que = rest } })),
                front,
                popped ∙ ap some (take_task-front seen tmp rest on front),
                laws.unlock_keeps _ _ ∙ laws.signal_keeps not_full _ _,
                append_assoc seen.log (signals not_full ∷ []) (unlocks ∷ [])
                    ∙ visited-log not_empty m s _,
              ),
            )
        | inr off ↦ inr (
          off,
          (
            unlock k seen,
            popped ∙ ap some (take_task-null seen off),
            laws.unlock_keeps _ _,
            visited-log not_empty m s (unlocks ∷ []),
          ),
        )
      ]

  abbrev pub Visited : Visit → Shared W → (fuel m : ℕ) → Shared W → Type 0
  Visited (pushing task) s fuel m seen = Pushed task s fuel m seen
  Visited popping s fuel m seen = Popping s fuel m seen

  -- If a signal and an unlock of the mutex leave the queue alone, and the condition of the loop of
  -- push or of pop holds at the tests before the mth, counted from 0, and not at the mth, then with
  -- any fuel above m the call returns. Push has put its task behind those queued at that test. Pop
  -- has taken the first task if the flag is up, and is never asked for one that is not there; if
  -- the flag is down it returns no task, and leaves the queue. The calls of the thread are one lock,
  -- m waits for the condition of the loop, one signal of the other condition if a task was moved,
  -- and one unlock, in this order.
  pub visit-calls :
      Laws k
      → (v : Visit) → (fuel m : ℕ) → (s : Shared W)
      → ((i : ℕ) → i < m → test_of v (after_waits (cond_of v) i (lock k s)).queue ≡ true)
      → test_of v (after_waits (cond_of v) m (lock k s)).queue ≡ false
      → m < fuel
      → Visited v s fuel m (after_waits (cond_of v) m (lock k s))
  visit-calls laws (pushing task) fuel m s held ends lt = push-calls laws task fuel m s held ends lt
  visit-calls laws popping fuel m s held ends lt = pop-calls laws fuel m s held ends lt
