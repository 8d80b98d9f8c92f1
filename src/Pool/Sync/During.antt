-- ===== src/Pool/Sync/During.antt =====
-- A producer of Pool/Worker on its way through `push`: the calls that it makes, and the queues that
-- its tests see.
use filedisk_server.Common.{
  ℕ, zero, suc, ◌≡◌, ◌≢◌, refl, sym, ap, subst, ◌∙◌, Bool, true, false, List, [], ◌∷◌, ◌++◌,
  append-nil, append_assoc, length, arith, ◌==◌, All, All-append, length-append,
}
use filedisk_server.Pool.Memory.{Memory}
use filedisk_server.Pool.Worker.{
  Pc, idle, push_lock, push_test, push_wait, push_asleep, push_woken, push_put, push_notify,
  push_unlock, Move, adds, push_locks, push_full, push_room, push_sleeps, push_spurious,
  push_relocks, push_puts, push_unlocks,
}
use filedisk_server.Pool.System.{System, Step}
use filedisk_server.Pool.Sync.{
  not_full, not_empty, SyncCall, locks, unlocks, waits, signals, Queue, full,
}
use filedisk_server.Pool.Sync.Calls.{repeat}

-- The call that a thread makes on its way from one place in `push` to another.
abbrev pub made : Pc → Pc → List SyncCall
made (push_lock t) (push_test u) = locks ∷ []
made (push_wait t) (push_asleep u) = waits not_full ∷ []
made push_notify push_unlock = signals not_empty ∷ []
made push_unlock idle = unlocks ∷ []
made _ _ = []

-- The queue that a test sees.
abbrev pub saw : Pc → Pc → Memory → List (List ℕ)
saw (push_test t) (push_wait u) m = m.que ∷ []
saw (push_test t) (push_put u) m = m.que ∷ []
saw _ _ _ = []

-- Steps of the pool, none of them after thread `i` has left `push`, with the calls that `i` makes
-- and the queues that its tests see.
pub data During (n i : ℕ) (s : System) : List SyncCall → List (List ℕ) → System → Type 0 where
  begins : During n i s [] [] s
  goes :
      {l : List SyncCall} {qs : List (List ℕ)} {t u : System}
      → During n i s l qs t
      → t.pc i ≢ idle
      → Step n t u
      → During n i s (l ++ made (t.pc i) (u.pc i)) (qs ++ saw (t.pc i) (u.pc i) t.mem) u

length-snoc {ℓ} : {A : Type ℓ} (xs : List A) (x : A) → length (xs ++ (x ∷ [])) ≡ suc (length xs)
length-snoc xs x = ground (arith, length-append xs (x ∷ []))

repeat-snoc : (k : ℕ) (c : SyncCall) → repeat k c ++ (c ∷ []) ≡ repeat (suc k) c
repeat-snoc zero c = refl
repeat-snoc (suc k) c = ap (λ l. c ∷ l) (repeat-snoc k c)

abbrev pub queue_of : ℕ → List ℕ → Queue
queue_of cap q = record { que_size = cap; que = q; flag = true }

module _ (cap task : ℕ) where
  abbrev pub Full : List ℕ → Type 0
  Full q = full (queue_of cap q) ≡ true

  -- Behind the last test, which has seen `q` after the full queues of `hist`.
  pub record Roomy (hist : List (List ℕ)) (q : List ℕ) (rest : List SyncCall) (l : List SyncCall)
      (qs : List (List ℕ)) : Type 0 where
    pub queues : qs ≡ hist ++ (q ∷ [])
    pub fulls : All Full hist
    pub room : full (queue_of cap q) ≡ false
    pub calls : l ≡ locks ∷ (repeat (length hist) (waits not_full) ++ rest)

  abbrev pub Room : List SyncCall → List ℕ → List SyncCall → List (List ℕ) → Type 0
  Room rest que l qs =
      (hist : List (List ℕ)) × (q : List ℕ) × (que ≡ q ++ (task ∷ [])) × Roomy hist q rest l qs

  -- What thread `i` has done in `push` when it is at a place of it.
  abbrev pub At : Pc → Memory → List SyncCall → List (List ℕ) → Type 0
  At (push_lock t) m l qs = (t ≡ task) × (l ≡ []) × (qs ≡ [])
  At (push_test t) m l qs =
      (t ≡ task) × All Full qs × (l ≡ locks ∷ repeat (length qs) (waits not_full))
  At (push_wait t) m l qs =
      (t ≡ task)
      × All Full qs
      × (k : ℕ) × (suc k ≡ length qs)
      × (l ≡ locks ∷ repeat k (waits not_full))
  At (push_asleep t) m l qs =
      (t ≡ task) × All Full qs × (l ≡ locks ∷ repeat (length qs) (waits not_full))
  At (push_woken t) m l qs =
      (t ≡ task) × All Full qs × (l ≡ locks ∷ repeat (length qs) (waits not_full))
  At (push_put t) m l qs = (t ≡ task) × (hist : List (List ℕ)) × Roomy hist m.que [] l qs
  At push_notify m l qs = Room [] m.que l qs
  At push_unlock m l qs = Room (signals not_empty ∷ []) m.que l qs
  At idle m l qs = Room (signals not_empty ∷ unlocks ∷ []) m.que l qs
  At _ m l qs = ⊥

  abbrev pub Next : Pc → Memory → List SyncCall → List (List ℕ) → Pc → Memory → Type 0
  Next p m l qs p' m' = At p' m' (l ++ made p p') (qs ++ saw p p' m)

  pub At-nil :
      (p : Pc) (m : Memory) (l : List SyncCall) (qs : List (List ℕ))
      → At p m l qs
      → At p m (l ++ []) (qs ++ [])
  At-nil p m l qs at =
      subst (λ l1. At p m l1 (qs ++ [])) (sym (append-nil l))
        (subst (λ qs1. At p m l qs1) (sym (append-nil qs)) at)

  pub Roomy-more :
      (c rest l : List SyncCall) (hist qs : List (List ℕ)) (q : List ℕ)
      → Roomy hist q rest l qs
      → Roomy hist q (rest ++ c) (l ++ c) (qs ++ [])
  Roomy-more c rest l hist qs q r = record {
    queues = append-nil qs ∙ r.queues;
    fulls = r.fulls;
    room = r.room;
    calls =
        ap (λ l1. l1 ++ c) r.calls
        ∙ ap (λ l1. locks ∷ l1) (append_assoc (repeat (length hist) (waits not_full)) rest c);
  }

  seen_full :
      (m : Memory) (b : Bool)
      → m.que_size ≡ cap
      → (m.que_size == length m.que) ≡ b
      → full (queue_of cap m.que) ≡ b
  seen_full m b sz g = sym (ap (λ c. c == length m.que) sz) ∙ g

  pub Move-Next :
      {i : ℕ} {m m' : Memory} {p p' : Pc}
      → Move i m p m' p'
      → m.que_size ≡ cap
      → p ≢ idle
      → (l : List SyncCall) (qs : List (List ℕ)) → At p m l qs
      → Next p m l qs p' m'
  Move-Next adds sz busy l qs at = absurd (busy refl)
  Move-Next (push_locks g) sz busy l qs (e, el, eq) = (
    e,
    subst (λ qs1. All Full (qs1 ++ [])) (sym eq) tt,
    ap (λ l1. l1 ++ (locks ∷ [])) el
        ∙ ap (λ qs1. locks ∷ repeat (length (qs1 ++ [])) (waits not_full)) (sym eq),
  )
  Move-Next {m} (push_full g) sz busy l qs (e, fulls, el) = (
    e,
    All-append Full qs (m.que ∷ []) fulls (seen_full m true sz g, tt),
    length qs,
    sym (length-snoc qs m.que),
    append-nil l ∙ el,
  )
  Move-Next {m} (push_room g) sz busy l qs (e, fulls, el) = (
    e,
    qs,
    record {
      queues = refl;
      fulls = fulls;
      room = seen_full m false sz g;
      calls =
          append-nil l
          ∙ el
          ∙ ap (λ l1. locks ∷ l1) (sym (append-nil (repeat (length qs) (waits not_full))));
    },
  )
  Move-Next push_sleeps sz busy l qs (e, fulls, k, len, el) = (
    e,
    subst (All Full) (sym (append-nil qs)) fulls,
    ap (λ l1. l1 ++ (waits not_full ∷ [])) el
        ∙ ap (λ l1. locks ∷ l1) (repeat-snoc k (waits not_full))
        ∙ ap (λ j. locks ∷ repeat j (waits not_full)) (len ∙ ap length (sym (append-nil qs))),
  )
  Move-Next {m} (push_spurious {t}) sz busy l qs at = At-nil (push_woken t) m l qs at
  Move-Next {m} (push_relocks {t} g) sz busy l qs at = At-nil (push_test t) m l qs at
  Move-Next {m} push_puts sz busy l qs (e, hist, r) =
      (hist, m.que, ap (λ t. m.que ++ (t ∷ [])) e, Roomy-more [] [] l hist qs m.que r)
  Move-Next push_unlocks sz busy l qs (hist, q, e, r) =
      (hist, q, e, Roomy-more (unlocks ∷ []) (signals not_empty ∷ []) l hist qs q r)
  Move-Next mv sz busy l qs at = absurd at
