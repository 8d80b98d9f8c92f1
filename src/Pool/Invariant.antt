-- ===== src/Pool/Invariant.antt =====
-- What holds in every state that the threads can reach.
use filedisk_server.Common.{
  ℕ, ◌≤◌, ◌≡◌, refl, sym, ap, ◌∙◌, true, false, ◌&&◌, none, some, [], ◌∷◌, ◌++◌, length,
  length-append, append_assoc, arith,
}
use filedisk_server.Common.Family.{update}
use filedisk_server.Pool.Memory.{Memory, fresh, full, empty}
use filedisk_server.Pool.System.{
  System, Step, move, signals_pop, signals_nobody, signals_push, signals_no_push, broadcasts, joins,
  Role, producer, worker, stopper, start_of, init, Reach, here, later,
}
use filedisk_server.Pool.Worker.{
  Pc, push_put, push_notify, pop_flag, pop_take, Move, push_locks, push_puts, push_room,
  push_relocks, pop_locks, pop_ready, pop_relocks, pop_live, pop_takes, holds,
}

-- What a thread with the mutex has tested and may still rely on.
abbrev pub Tested : Memory → Pc → Type 0
Tested m (push_put t) = full m ≡ false
Tested m pop_flag = (empty m && m.flag) ≡ false
Tested m pop_take = empty m ≡ false
Tested m _ = Unit

pub record Inv (cap : ℕ) (m : Memory) (pc : ℕ → Pc) : Type 0 where
  pub sized : m.que_size ≡ cap
  pub small : length m.que ≤ m.que_size
  pub fifo : m.accepted ≡ m.taken ++ m.que
  pub owned : (i : ℕ) → holds (pc i) ≡ true → m.owner ≡ some i
  pub tested : (i : ℕ) → Tested m (pc i)

-- The premise of a move.
abbrev pub Guard : {i : ℕ} {m m' : Memory} {p p' : Pc} → Move i m p m' p' → Type 0
Guard {m} (push_locks _) = m.owner ≡ none
Guard {m} (push_room _) = full m ≡ false
Guard {m} (push_relocks _) = m.owner ≡ none
Guard {m} (pop_locks _) = m.owner ≡ none
Guard {m} (pop_ready _) = (empty m && m.flag) ≡ false
Guard {m} (pop_relocks _) = m.owner ≡ none
Guard {m} (pop_live _) = m.flag ≡ true
Guard {m} (pop_takes {t} {rest} _) = m.que ≡ t ∷ rest
Guard _ = Unit

pub guard : {i : ℕ} {m m' : Memory} {p p' : Pc} (mv : Move i m p m' p') → Guard mv
guard (push_locks g) = g
guard (push_room g) = g
guard (push_relocks g) = g
guard (pop_locks g) = g
guard (pop_ready g) = g
guard (pop_relocks g) = g
guard (pop_live g) = g
guard (pop_takes g) = g
guard _ = tt

module _ {cap : ℕ} {m : Memory} {pc : ℕ → Pc} (inv : Inv cap m pc) (i : ℕ) where
  open inv use {owned, tested}

  record Mover (p : Pc) : Type 0 where
    here : pc i ≡ p
    own : holds p ≡ true → m.owner ≡ some i
    knows : Tested m p

  Move-queue : {p p' : Pc} {m' : Memory} → Move i m p m' p' → Mover p → record {
    sized : m'.que_size ≡ cap;
    small : length m'.que ≤ m'.que_size;
    fifo : m'.accepted ≡ m'.taken ++ m'.que;
  }
  Move-queue {p' = push_notify} (push_puts {t}) f = record {
    sized = inv.sized;
    small = ground (arith, inv, f.knows, length-append m.que (t ∷ []));
    fifo = rw (inv.fifo) (append_assoc m.taken m.que (t ∷ []));
  }
  Move-queue (pop_takes {t} {rest} q) f = record {
    sized = inv.sized;
    small = omega (arith, inv, ap length q);
    fifo = inv.fifo ∙ ap (λ l. m.taken ++ l) q ∙ sym (append_assoc m.taken (t ∷ []) rest);
  }
  Move-queue mv f = ground (arith, inv)

  Move-owned :
      {p p' : Pc} {m' : Memory}
      → Move i m p m' p'
      → Mover p
      → (j : ℕ) → holds (update pc i p' j) ≡ true
      → m'.owner ≡ some j
  Move-owned (push_locks g) f j h = ground (arith, owned j)
  Move-owned mv f j h = ground (arith, guard mv, owned j)

  Move-tested :
      {p p' : Pc} {m' : Memory}
      → Move i m p m' p'
      → Mover p
      → (j : ℕ) → Tested m' (update pc i p' j)
  Move-tested (push_locks g) f j = ground (arith, owned j, tested j)
  Move-tested mv f j = ground (arith, guard mv, owned j, tested j)

  Move-Inv : {p' : Pc} {m' : Memory} → Move i m (pc i) m' p' → Inv cap m' (update pc i p')
  Move-Inv {p'} {m'} mv = record {
    sized = q.sized;
    small = q.small;
    fifo = q.fifo;
    owned = Move-owned mv f;
    tested = Move-tested mv f;
  }
    where
      f : Mover (pc i)
      f = record { here = refl; own = owned i; knows = tested i }

      q : record {
        sized : m'.que_size ≡ cap;
        small : length m'.que ≤ m'.que_size;
        fifo : m'.accepted ≡ m'.taken ++ m'.que;
      }
      q = Move-queue mv f

-- Steps that only send threads elsewhere.
Inv-elsewhere :
    {cap : ℕ} {m : Memory} {pc : ℕ → Pc} (pc' : ℕ → Pc)
    → Inv cap m pc
    → ((j : ℕ) → holds (pc' j) ≡ true → m.owner ≡ some j)
    → ((j : ℕ) → Tested m (pc' j))
    → Inv cap m pc'
Inv-elsewhere pc' inv owned tested = record {
  sized = inv.sized;
  small = inv.small;
  fifo = inv.fifo;
  owned = owned;
  tested = tested;
}

-- Every step of the pool keeps the invariant.
pub Step-Inv : {n cap : ℕ} {s t : System} → Step n s t → Inv cap s.mem s.pc → Inv cap t.mem t.pc
Step-Inv (move i lt mv) inv = Move-Inv inv i mv
Step-Inv {s} (signals_pop i j li lj ei ej) inv =
    Inv-elsewhere _ inv (λ h e. ground (arith, inv.owned h)) (λ h. ground (arith, inv.tested h))
Step-Inv {s} (signals_nobody i li ei no_one) inv =
    Inv-elsewhere _ inv (λ h e. ground (arith, inv.owned h)) (λ h. ground (arith, inv.tested h))
Step-Inv {s} (signals_push i j t u li lj ei ej) inv =
    Inv-elsewhere _ inv (λ h e. ground (arith, inv.owned h)) (λ h. ground (arith, inv.tested h))
Step-Inv {s} (signals_no_push i t li ei no_one) inv =
    Inv-elsewhere _ inv (λ h e. ground (arith, inv.owned h)) (λ h. ground (arith, inv.tested h))
Step-Inv {s} (broadcasts i li ei) inv =
    Inv-elsewhere _ inv (λ h e. ground (arith, inv.owned h)) (λ h. ground (arith, inv.tested h))
Step-Inv {s} (joins i li ei all) inv =
    Inv-elsewhere _ inv (λ h e. ground (arith, inv.owned h)) (λ h. ground (arith, inv.tested h))

Role-start : (r : Role) → (holds (start_of r) ≡ false) × ((m : Memory) → Tested m (start_of r))
Role-start producer = (refl, λ m. tt)
Role-start worker = (refl, λ m. tt)
Role-start stopper = (refl, λ m. tt)

pub init-Inv : (cap : ℕ) (roles : ℕ → Role) → Inv cap (init cap roles).mem (init cap roles).pc
init-Inv cap roles = record {
  sized = refl;
  small = omega arith;
  fifo = refl;
  owned = λ i h. absurd (ground (arith, (Role-start (roles i)).0));
  tested = λ i. (Role-start (roles i)).1 (fresh cap);
}

pub Reach-Inv : {n cap : ℕ} {s t : System} → Reach n s t → Inv cap s.mem s.pc → Inv cap t.mem t.pc
Reach-Inv here inv = inv
Reach-Inv (later r st) inv = Step-Inv st (Reach-Inv r inv)
