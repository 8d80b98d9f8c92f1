-- ===== src/Pool/Producer.antt =====
-- The producer's side of the pool: what a thread in `push` still has in its hand.
use filedisk_server.Common.{
  ℕ, ◌≡◌, ◌≢◌, refl, sym, ap, ◌∙◌, Bool, true, false, List, [], ◌∷◌, ◌++◌, append-nil, arith, subst,
  ℕ_discrete,
}
use filedisk_server.Common.Family.{update, update_same, update-cases}
use filedisk_server.Pool.Memory.{Memory}
use filedisk_server.Pool.Worker.{
  Pc, idle, push_lock, push_test, push_wait, push_asleep, push_woken, push_put, push_notify,
  push_unlock, pop_asleep, pop_woken, pop_return, stop_join, stopped, Move, adds, push_puts, wake,
}
use filedisk_server.Pool.System.{
  System, Step, move, signals_pop, signals_nobody, signals_push, signals_no_push, broadcasts, joins,
}
use filedisk_server.Pool.Progress.Sends.{sent, Sends, unlocks, wakes, returns, frees, waits, ends}

-- A thread that calls `addTask`, between the calls or in one.
abbrev pub is_producer : Pc → Bool
is_producer idle = true
is_producer (push_lock t) = true
is_producer (push_test t) = true
is_producer (push_wait t) = true
is_producer (push_asleep t) = true
is_producer (push_woken t) = true
is_producer (push_put t) = true
is_producer push_notify = true
is_producer push_unlock = true
is_producer _ = false

-- The task that is not in the queue yet.
abbrev pub in_hand : Pc → List ℕ
in_hand (push_lock t) = t ∷ []
in_hand (push_test t) = t ∷ []
in_hand (push_wait t) = t ∷ []
in_hand (push_asleep t) = t ∷ []
in_hand (push_woken t) = t ∷ []
in_hand (push_put t) = t ∷ []
in_hand _ = []

-- The same kind of thread, with the same task in its hand.
abbrev pub Same : Pc → Pc → Type 0
Same p p' = (is_producer p' ≡ is_producer p) × (in_hand p' ≡ in_hand p)

sends-Same : {p p' : Pc} → Sends p p' → Same p p'
sends-Same unlocks = (refl, refl)
sends-Same go = (refl, refl)

Same-sent :
    (pc : ℕ → Pc) (i : ℕ) {p : Pc} (p' : Pc)
    → pc i ≡ p
    → Sends p p'
    → (k : ℕ) → Same (pc k) (update pc i p' k)
Same-sent pc i p' e go k =
    let (a, b) = sends-Same go in
    sent (Same (pc k)) pc i p' e (λ h. (a ∙ h.0, b ∙ h.1)) k (refl, refl)

Same-trans : (p q r : Pc) → Same p q → Same q r → Same p r
Same-trans p q r (a, b) (a1, b1) = (a1 ∙ a, b1 ∙ b)

wake-Same : (p : Pc) → Same p (wake p)
wake-Same p = ground arith

Move-is_producer :
    {i : ℕ} {m m' : Memory} {p p' : Pc} → Move i m p m' p' → is_producer p' ≡ is_producer p
Move-is_producer adds = refl
Move-is_producer mv = refl

-- A step of a thread that is no producer puts nothing into the queue.
Move-others :
    {i : ℕ} {m m' : Memory} {p p' : Pc}
    → Move i m p m' p'
    → is_producer p ≡ false
    → m'.accepted ≡ m.accepted
Move-others (push_puts {t}) h = ground (arith, h)
Move-others mv h = refl

-- A task is in the hand until it is in the queue.
Move-in_hand :
    {i : ℕ} {m m' : Memory} {p p' : Pc}
    → Move i m p m' p'
    → (p ≡ idle → p' ≡ idle)
    → m'.accepted ++ in_hand p' ≡ m.accepted ++ in_hand p
Move-in_hand {m} (push_puts {t}) h = append-nil (m.accepted ++ (t ∷ []))
Move-in_hand (adds {t}) h = ground (arith, h refl)
Move-in_hand mv h = refl

-- The thread `l` is the only one that calls `addTask`.
abbrev pub Alone : ℕ → (ℕ → Pc) → Type 0
Alone l pc = (j : ℕ) → j ≢ l → is_producer (pc j) ≡ false

-- What a step keeps of a pool with the one producer `l`.
pub record Keeps (l : ℕ) (s t : System) : Type 0 where
  pub kinds : (k : ℕ) → is_producer (t.pc k) ≡ is_producer (s.pc k)
  pub hand : t.mem.accepted ++ in_hand (t.pc l) ≡ s.mem.accepted ++ in_hand (s.pc l)

elsewhere-Keeps :
    (l : ℕ) (m : Memory) (pc pc' : ℕ → Pc)
    → ((k : ℕ) → Same (pc k) (pc' k))
    → Keeps l (record { mem = m; pc = pc }) (record { mem = m; pc = pc' })
elsewhere-Keeps l m pc pc' same = record {
  kinds = λ k. (same k).0;
  hand = ap (λ h. m.accepted ++ h) (same l).1;
}

Move-Keeps :
    (l i : ℕ) (s : System) {p' : Pc} {m' : Memory}
    → Move i s.mem (s.pc i) m' p'
    → Alone l s.pc
    → (s.pc l ≡ idle → update s.pc i p' l ≡ idle)
    → Keeps l s (record { mem = m'; pc = update s.pc i p' })
Move-Keeps l i s {p'} {m'} mv alone quiet = record {
  kinds = λ k.
      update-cases (λ p. is_producer p ≡ is_producer (s.pc k)) s.pc i p' k
        (λ e. Move-is_producer mv ∙ ap (λ j. is_producer (s.pc j)) e) (λ d. refl);
  hand = elim (ℕ_discrete i l) [
    | yes e ↦ mine (sym e)
    | no d ↦
        update-cases (λ p. m'.accepted ++ in_hand p ≡ s.mem.accepted ++ in_hand (s.pc l)) s.pc i p'
          l (λ e. absurd (d e)) (λ _. ap (λ a. a ++ in_hand (s.pc l)) (Move-others mv (alone i d)))
  ];
}
  where
    mine : l ≡ i → m'.accepted ++ in_hand (update s.pc i p' l) ≡ s.mem.accepted ++ in_hand (s.pc l)
    mine e =
        subst
          (λ j.
            (s.pc j ≡ idle → update s.pc i p' j ≡ idle)
            → m'.accepted ++ in_hand (update s.pc i p' j) ≡ s.mem.accepted ++ in_hand (s.pc j))
          (sym e)
          (λ calm.
            subst (λ p. m'.accepted ++ in_hand p ≡ s.mem.accepted ++ in_hand (s.pc i))
              (sym (update_same s.pc i p'))
              (Move-in_hand mv (λ h. sym (update_same s.pc i p') ∙ calm h)))
          quiet

-- Any step that leaves an idle producer idle keeps the kinds of the threads, and what the producer
-- has put into the queue with what is still in its hand.
pub Step-Keeps :
    {n : ℕ} {s t : System} (l : ℕ)
    → Step n s t
    → Alone l s.pc
    → (s.pc l ≡ idle → t.pc l ≡ idle)
    → Keeps l s t
Step-Keeps {s} l (move i lt mv) alone quiet = Move-Keeps l i s mv alone quiet
Step-Keeps {s} l (signals_pop i j li lj ei ej) alone quiet = elsewhere-Keeps l s.mem s.pc _ (λ k.
    Same-trans (s.pc k) (pc1 k) _ (Same-sent s.pc i push_unlock ei unlocks k)
      (Same-sent pc1 j pop_woken ej1 wakes k))
  where
    pc1 : ℕ → Pc
    pc1 = update s.pc i push_unlock

    ej1 : pc1 j ≡ pop_asleep
    ej1 = sent (λ p. p ≡ pop_asleep) s.pc i push_unlock ei (λ e. absurd (ground (arith, e))) j ej
Step-Keeps {s} l (signals_nobody i li ei no_one) alone quiet =
    elsewhere-Keeps l s.mem s.pc _ (Same-sent s.pc i push_unlock ei unlocks)
Step-Keeps {s} l (signals_push i j t u li lj ei ej) alone quiet =
    elsewhere-Keeps l s.mem s.pc _ (λ k.
      Same-trans (s.pc k) (pc1 k) _ (Same-sent s.pc i (pop_return t) ei returns k)
        (Same-sent pc1 j (push_woken u) ej1 frees k))
  where
    pc1 : ℕ → Pc
    pc1 = update s.pc i (pop_return t)

    ej1 : pc1 j ≡ push_asleep u
    ej1 =
        sent (λ p. p ≡ push_asleep u) s.pc i (pop_return t) ei (λ e. absurd (ground (arith, e))) j
          ej
Step-Keeps {s} l (signals_no_push i t li ei no_one) alone quiet =
    elsewhere-Keeps l s.mem s.pc _ (Same-sent s.pc i (pop_return t) ei returns)
Step-Keeps {s} l (broadcasts i li ei) alone quiet = elsewhere-Keeps l s.mem s.pc _ (λ k.
    Same-trans (s.pc k) (wake (s.pc k)) _ (wake-Same (s.pc k))
      (Same-sent (λ j. wake (s.pc j)) i stop_join (ap wake ei) waits k))
Step-Keeps {s} l (joins i li ei all) alone quiet =
    elsewhere-Keeps l s.mem s.pc _ (Same-sent s.pc i stopped ei ends)
