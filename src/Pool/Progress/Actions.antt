-- ===== src/Pool/Progress/Actions.antt =====
-- Who has a step of its own: the thread with the mutex, or anyone who is awake if it is free.
use filedisk_server.Common.{
  ℕ, zero, suc, ◌<◌, ◌≡◌, ◌≢◌, refl, sym, ap, ◌∙◌, inl, inr, ◌⊎◌, Bool, Bool-cases, true, false,
  ◌&&◌, none, List, [], ◌∷◌, length, arith, ◌==◌, ℕ_discrete, subst,
}
use filedisk_server.Common.Family.{update, update_same, update-cases}
use filedisk_server.Pool.Memory.{Memory, full, empty}
use filedisk_server.Pool.Worker.{
  Pc, push_lock, push_test, push_wait, push_asleep, push_woken, push_put, push_notify, push_unlock,
  work_loop, pop_lock, pop_test, pop_wait, pop_asleep, pop_woken, pop_flag, pop_take, pop_notify,
  pop_return, pop_null, running, Move, holds, push_locks, push_full, push_room, push_sleeps,
  push_relocks, push_puts, push_unlocks, works, exits, pop_locks, pop_empty, pop_ready, pop_sleeps,
  pop_relocks, pop_live, pop_dead, pop_takes, pop_unlocks, null_unlocks, runs,
}
use filedisk_server.Pool.System.{
  System, Step, move, signals_pop, signals_nobody, signals_push, signals_no_push,
}
use filedisk_server.Pool.Invariant.{Inv, Tested}
use filedisk_server.Pool.Progress.{is_busy}

-- Thread `i` has a step of its own.
abbrev pub CanGo : ℕ → System → ℕ → Type 0
CanGo n s i = (t : System) × Step n s t × (t.pc i ≢ s.pc i)

-- A search among the first threads.
pub search_below :
    (n : ℕ) (test : ℕ → Bool)
    → ((j : ℕ) × (j < n) × (test j ≡ true)) ⊎ ((j : ℕ) → j < n → test j ≡ false)
search_below zero test = inr (λ j h. absurd (omega arith))
search_below (suc n) test = elim (Bool-cases (test n)) [
  | inl yes_here ↦ inl (n, omega arith, yes_here)
  | inr not_here ↦ elim (search_below n test) [
    | inl (j, h, e) ↦ inl (j, omega arith, e)
    | inr none_below ↦ inr (λ j h. elim (ℕ_discrete j n) [
      | yes e ↦ subst (λ k. test k ≡ false) (sym e) not_here
      | no d ↦ none_below j (ground arith)
    ])
  ]
]

abbrev sleeps_in_pop : Pc → Bool
sleeps_in_pop pop_asleep = true
sleeps_in_pop p = false

abbrev sleeps_in_push : Pc → Bool
sleeps_in_push (push_asleep u) = true
sleeps_in_push p = false

asleep_in_pop : (p : Pc) → sleeps_in_pop p ≡ true → p ≡ pop_asleep
asleep_in_pop pop_asleep h = refl
asleep_in_pop p h = ground arith

true-ne-false : ◌≢◌ {A = Bool} true false
true-ne-false h = ground (arith, h)

asleep_in_push : (p : Pc) → sleeps_in_push p ≡ true → (u : ℕ) × (p ≡ push_asleep u)
asleep_in_push (push_asleep u) h = (u, refl)
asleep_in_push p h = ground arith

module _ {n cap : ℕ} (s : System) (inv : Inv cap s.mem s.pc) (i : ℕ) (lt : i < n) where
  goes : {p p' : Pc} {m' : Memory} → s.pc i ≡ p → p' ≢ p → Move i s.mem p m' p' → CanGo n s i
  goes {p} {p'} {m'} e other mv = (
    record { mem = m'; pc = update s.pc i p' },
    move i lt (subst (λ q. Move i s.mem q m' p') (sym e) mv),
    λ same. other (sym (update_same s.pc i p') ∙ same ∙ e),
  )

  -- After a signal to `j`, thread `i` is where it was sent.
  moved :
      {p : Pc} (q r : Pc) (j : ℕ)
      → s.pc i ≡ p
      → q ≢ p
      → r ≢ p
      → update (update s.pc i q) j r i ≢ s.pc i
  moved {p} q r j e dq dr =
      update-cases (λ x. x ≢ s.pc i) (update s.pc i q) j r i (λ _ h. dr (h ∙ e))
        (λ _. update-cases (λ x. x ≢ s.pc i) s.pc i q i (λ _ h. dq (h ∙ e)) (λ d. absurd (d refl)))

  sent_away : {p : Pc} (q : Pc) → s.pc i ≡ p → q ≢ p → update s.pc i q i ≢ s.pc i
  sent_away q e dq h = dq (sym (update_same s.pc i q) ∙ h ∙ e)

  notifies_pop : s.pc i ≡ push_notify → CanGo n s i
  notifies_pop e = elim (search_below n (λ j. sleeps_in_pop (s.pc j))) [
    | inl (j, lj, h) ↦ (
      _,
      signals_pop i j lt lj e (asleep_in_pop (s.pc j) h),
      moved push_unlock pop_woken j e (λ h. ground (arith, h)) (λ h. ground (arith, h)),
    )
    | inr nobody ↦ (
      _,
      signals_nobody i lt e (λ j lj h. true-ne-false (ap sleeps_in_pop (sym h) ∙ nobody j lj)),
      sent_away push_unlock e (λ h. ground (arith, h)),
    )
  ]

  notifies_push : (t : ℕ) → s.pc i ≡ pop_notify t → CanGo n s i
  notifies_push t e = elim (search_below n (λ j. sleeps_in_push (s.pc j))) [
    | inl (j, lj, h) ↦
        let (u, eu) = asleep_in_push (s.pc j) h in
        (
          _,
          signals_push i j t u lt lj e eu,
          moved (pop_return t) (push_woken u) j e (λ h. ground (arith, h)) (λ h. ground (arith, h)),
        )
    | inr nobody ↦ (
      _,
      signals_no_push i t lt e
          (λ j u lj h. true-ne-false (ap sleeps_in_push (sym h) ∙ nobody j lj)),
      sent_away (pop_return t) e (λ h. ground (arith, h)),
    )
  ]

  takes : s.pc i ≡ pop_take → (q : List ℕ) → s.mem.que ≡ q → (0 == length q) ≡ false → CanGo n s i
  takes e [] h full_now = ground (arith, full_now)
  takes e (t ∷ rest) h full_now = goes e (λ d. ground (arith, d)) (pop_takes h)

  -- Whoever has the mutex.
  pub holder_goes : (p : Pc) → s.pc i ≡ p → holds p ≡ true → CanGo n s i
  holder_goes (push_test t) e h = elim (Bool-cases (full s.mem)) [
    | inl is_full ↦ goes e (λ d. ground (arith, d)) (push_full is_full)
    | inr has_room ↦ goes e (λ d. ground (arith, d)) (push_room has_room)
  ]
  holder_goes (push_wait t) e h = goes e (λ d. ground (arith, d)) push_sleeps
  holder_goes (push_put t) e h = goes e (λ d. ground (arith, d)) push_puts
  holder_goes push_notify e h = notifies_pop e
  holder_goes push_unlock e h = goes e (λ d. ground (arith, d)) push_unlocks
  holder_goes pop_test e h = elim (Bool-cases (empty s.mem && s.mem.flag)) [
    | inl no_task ↦ goes e (λ d. ground (arith, d)) (pop_empty no_task)
    | inr is_ready ↦ goes e (λ d. ground (arith, d)) (pop_ready is_ready)
  ]
  holder_goes pop_wait e h = goes e (λ d. ground (arith, d)) pop_sleeps
  holder_goes pop_flag e h = elim (Bool-cases s.mem.flag) [
    | inl up ↦ goes e (λ d. ground (arith, d)) (pop_live up)
    | inr down ↦ goes e (λ d. ground (arith, d)) (pop_dead down)
  ]
  holder_goes pop_take e h = takes e s.mem.que refl (subst (Tested s.mem) e (inv.tested i))
  holder_goes (pop_notify t) e h = notifies_push t e
  holder_goes (pop_return t) e h = goes e (λ d. ground (arith, d)) pop_unlocks
  holder_goes pop_null e h = goes e (λ d. ground (arith, d)) null_unlocks
  holder_goes p e h = ground (arith, h)

  -- A thread that is awake, when nobody has the mutex.
  pub free_goes :
      (p : Pc) → s.pc i ≡ p → is_busy p ≡ true → holds p ≡ false → s.mem.owner ≡ none → CanGo n s i
  free_goes (push_lock t) e b h free = goes e (λ d. ground (arith, d)) (push_locks free)
  free_goes (push_woken t) e b h free = goes e (λ d. ground (arith, d)) (push_relocks free)
  free_goes work_loop e b h free = elim (Bool-cases s.mem.is_exit) [
    | inl out ↦ goes e (λ d. ground (arith, d)) (exits out)
    | inr still ↦ goes e (λ d. ground (arith, d)) (works still)
  ]
  free_goes pop_lock e b h free = goes e (λ d. ground (arith, d)) (pop_locks free)
  free_goes pop_woken e b h free = goes e (λ d. ground (arith, d)) (pop_relocks free)
  free_goes (running t) e b h free = goes e (λ d. ground (arith, d)) runs
  free_goes p e b h free = ground (arith, b, h)
