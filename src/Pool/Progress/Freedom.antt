-- ===== src/Pool/Progress/Freedom.antt =====
-- While there is work for the pool, a thread that is awake can go on.
use filedisk_server.Common.{
  not, ℕ, ◌<◌, ◌≡◌, ◌≢◌, refl, inl, inr, ◌⊎◌, Bool, Bool-cases, true, false, ◌&&◌, Option-cases,
  none, arith,
}
use filedisk_server.Pool.Memory.{Memory, empty}
use filedisk_server.Pool.Worker.{Pc, push_asleep, holds, is_worker}
use filedisk_server.Pool.System.{
  System, Role, producer, worker, stopper, start_of, init, Reach, here, later,
}
use filedisk_server.Pool.Invariant.{Inv, init-Inv, Reach-Inv}
use filedisk_server.Pool.Progress.{feeds, fills, is_busy, Seen, Some, Live}
use filedisk_server.Pool.Progress.Actions.{CanGo, holder_goes, free_goes}
use filedisk_server.Pool.Progress.Steps.{Step-Live}

Role-Live :
    (m : Memory) (r : Role)
    → (holds (start_of r) ≡ false) × Seen m (start_of r) × ((u : ℕ) → start_of r ≢ push_asleep u)
Role-Live m producer = (refl, tt, λ u h. ground (arith, h))
Role-Live m worker = (refl, tt, λ u h. ground (arith, h))
Role-Live m stopper = (refl, tt, λ u h. ground (arith, h))

pub init-Live :
    {n : ℕ} (cap w : ℕ) (roles : ℕ → Role)
    → roles w ≡ worker
    → Live n w (init cap roles).mem (init cap roles).pc
init-Live cap w roles e = record {
  stays = rw e refl;
  owner_holds = λ i o. absurd (ground (arith, o));
  seen = λ i. (Role-Live (init cap roles).mem (roles i)).1;
  fed = λ out h. absurd (ground (arith, h));
  filled = λ j u lj h asleep. absurd ((Role-Live (init cap roles).mem (roles j)).2 u asleep);
}

pub Reach-Live :
    {n cap w : ℕ} {s t : System}
    → 0 < cap
    → w < n
    → Reach n s t
    → Inv cap s.mem s.pc
    → Live n w s.mem s.pc
    → Live n w t.mem t.pc
Reach-Live room lw here inv live = live
Reach-Live room lw (later r st) inv live =
    Step-Live room lw st (Reach-Inv r inv) (Reach-Live room lw r inv live)

-- Inside `push`, asleep or not.
abbrev pub in_push : Pc → Bool
in_push (push_asleep t) = true
in_push p = is_busy p && not (is_worker p)

feeds-busy : (p : Pc) → feeds p ≡ true → is_busy p ≡ true
feeds-busy p h = ground (arith, h)

fills-busy : (p : Pc) → fills p ≡ true → is_busy p ≡ true
fills-busy p h = ground (arith, h)

in_push-cases : (p : Pc) → in_push p ≡ true → (is_busy p ≡ true) ⊎ ((u : ℕ) × (p ≡ push_asleep u))
in_push-cases (push_asleep u) h = inr (u, refl)
in_push-cases p h = inl (ground (arith, h))

holds-busy : (p : Pc) → holds p ≡ true → is_busy p ≡ true
holds-busy p h = ground (arith, h)

-- A thread that is awake in `push` or `doTask` and has a step.
abbrev pub Goer : ℕ → System → Type 0
Goer n s = (i : ℕ) × (i < n) × (is_busy (s.pc i) ≡ true) × CanGo n s i

module _ {n cap w : ℕ} (s : System) (inv : Inv cap s.mem s.pc) (live : Live n w s.mem s.pc) where
  -- If somebody is awake, somebody can go on: who has the mutex, or else anyone.
  pub busy_goes : Some n s.pc is_busy → Goer n s
  busy_goes (k, lk, b) = elim (Option-cases s.mem.owner) [
    | inl free ↦ (
      k,
      lk,
      b,
      free_goes s inv k lk (s.pc k) refl b (unheld k free (Bool-cases (holds (s.pc k)))) free,
    )
    | inr (o, taken) ↦
        let (lo, h) = live.owner_holds o taken in
        (o, lo, holds-busy (s.pc o) h, holder_goes s inv o lo (s.pc o) refl h)
  ]
    where
      unheld :
          (k : ℕ)
          → s.mem.owner ≡ none
          → (holds (s.pc k) ≡ true) ⊎ (holds (s.pc k) ≡ false)
          → holds (s.pc k) ≡ false
      unheld k free (inl h) = ground (arith, free, inv.owned k h)
      unheld k free (inr h) = h

  fed_goes : s.mem.is_exit ≡ false → empty s.mem ≡ false → Goer n s
  fed_goes out e = let (k, lk, h) = live.fed out e in busy_goes (k, lk, feeds-busy (s.pc k) h)

  pushing_goes : s.mem.is_exit ≡ false → (j : ℕ) → j < n → in_push (s.pc j) ≡ true → Goer n s
  pushing_goes out j lj h = elim (in_push-cases (s.pc j) h) [
    | inl b ↦ busy_goes (j, lj, b)
    | inr (u, asleep) ↦ elim (Bool-cases (empty s.mem)) [
      | inl e ↦
          let (k, lk, f) = live.filled j u lj e asleep in busy_goes (k, lk, fills-busy (s.pc k) f)
      | inr e ↦ fed_goes out e
    ]
  ]

-- In every state that a pool with a worker and with room for a task can reach before `stop` sets
-- `_isExit`: if the queue holds a task, or some thread is inside `push`, be it asleep there, then a
-- thread that is awake in `push` or `doTask` has a step to another place. No wake-up is ever lost so
-- that all wait for each other.
pub no_deadlock :
    {n : ℕ} (cap : ℕ) (roles : ℕ → Role) {s : System} (w : ℕ)
    → Reach n (init cap roles) s
    → 0 < cap
    → w < n
    → roles w ≡ worker
    → s.mem.is_exit ≡ false
    → (empty s.mem ≡ false) ⊎ ((j : ℕ) × (j < n) × (in_push (s.pc j) ≡ true))
    → Goer n s
no_deadlock cap roles {s} w r room lw e out work =
    let inv = Reach-Inv r (init-Inv cap roles) in
    let live = Reach-Live room lw r (init-Inv cap roles) (init-Live cap w roles e) in
    elim work [
      | inl some_task ↦ fed_goes s inv live out some_task
      | inr (j, lj, h) ↦ pushing_goes s inv live out j lj h
    ]
