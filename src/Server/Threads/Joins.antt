-- ===== src/Server/Threads/Joins.antt =====
-- The threads that a pool creates and those that its end joins.
use filedisk_server.Common.{
  ℕ, zero, suc, ◌<◌, ap, true, ◌≡◌, refl, false, Option, none, some, List, [], ◌∷◌, ◌++◌,
  append_assoc, append-nil, All, arith, Bool-cases, inl, inr, sym, ◌∙◌,
}
use filedisk_server.Server.Threads.{
  Pthreads, Thread, with_id, thread_start, joined, thread_stop, make_threads, start_all, pool_start,
  stop_all, running, History, Laws, PoolCalls, pool_stop, Quiet,
}

-- What the world is when `stop` looks at the queue for the `m`th time, from 0.
abbrev pub look : {T : Type 0} → PoolCalls T → ℕ → T → T
look q zero t = t
look q (suc m) t = look q m (q.sleep (q.queue_empty t).1)

module _ {T : Type 0} (k : Pthreads T) (h : History T) (laws : Laws k h) where
  thread_start-created :
      (th : Thread) (t : T) (a : Option ℕ × T)
      → th.is_running ≡ false
      → k.create t ≡ a
      → let (th1, t1) = with_id k th a in
        (h.created t1 ≡ h.created t ++ running (th1 ∷ [])) × (h.joins t1 ≡ h.joins t)
  unfolding with_id
  thread_start-created th t (none, t1) off e =
      let (c, j) = laws.create_none t t1 e in (rw off (c ∙ sym (append-nil (h.created t))), j)
  thread_start-created th t (some id, t1) off e = laws.create_some t t1 id e

  running-cons :
      (th : Thread) (ths : List Thread) → running (th ∷ ths) ≡ running (th ∷ []) ++ running ths
  running-cons th ths = ground arith

  abbrev IsIdle : List Thread → Type 0
  IsIdle ths = All (λ th. th.is_running ≡ false) ths

  start_all-created :
      (ths : List Thread) (t : T)
      → IsIdle ths
      → let (ths1, t1) = start_all k ths t in
        (h.created t1 ≡ h.created t ++ running ths1) × (h.joins t1 ≡ h.joins t)
  unfolding start_all thread_start
  start_all-created [] t idle = (sym (append-nil (h.created t)), refl)
  start_all-created (th ∷ ths) t idle =
      let (th1, t1) = thread_start k th t in
      let (c, j) = thread_start-created th t (k.create t) idle.0 refl in
      let (cs, js) = start_all-created ths t1 idle.1 in
      (cs ∙ rw (c, append_assoc, ← running-cons th1 (start_all k ths t1).0) refl, js ∙ j)

  thread_stop-joins :
      (th : Thread) (t : T)
      → let (th1, t1) = thread_stop k th t in
        (h.joins t1 ≡ h.joins t ++ running (th ∷ []))
        × (h.created t1 ≡ h.created t)
        × (th1.is_running ≡ false)
  unfolding thread_stop joined
  thread_stop-joins th t = elim (Bool-cases th.is_running) [
    | inl on ↦ let (done, j, c) = laws.join_all t th.thid in ground (arith, on, done, j, c)
    | inr off ↦ ground (arith, off, append-nil (h.joins t))
  ]

  stop_all-joins :
      (ths : List Thread) (t : T)
      → let (ths1, t1) = stop_all k ths t in
        (h.joins t1 ≡ h.joins t ++ running ths) × (h.created t1 ≡ h.created t) × (running ths1 ≡ [])
  unfolding stop_all
  stop_all-joins [] t = (sym (append-nil (h.joins t)), refl, refl)
  stop_all-joins (th ∷ ths) t =
      let (th1, t1) = thread_stop k th t in
      let (j, c, off) = thread_stop-joins th t in
      let (js, cs, none_left) = stop_all-joins ths t1 in
      (js ∙ rw (j, append_assoc, ← running-cons th ths) refl, cs ∙ c, rw off none_left)

  make_threads-IsIdle : (n : ℕ) → IsIdle (make_threads k n)
  unfolding make_threads
  make_threads-IsIdle zero = tt
  make_threads-IsIdle (suc n) = (refl, make_threads-IsIdle n)

  module _ (q : PoolCalls T) (quiet : Quiet q h) where
    -- The threads `ths2` are what is left of `ths` when all that ran have been joined.
    abbrev pub Stopped : List Thread → T → Option (List Thread × T) → Type 0
    Stopped ths t r =
        (ths2 : List Thread) × (t2 : T) × (r ≡ some (ths2, t2))
        × (h.created t2 ≡ h.created t)
        × (h.joins t2 ≡ h.joins t ++ running ths)
        × (running ths2 ≡ [])

    woken-joins :
        (ths : List Thread) (t : T)
        → Stopped ths t (some (stop_all k ths (q.wakeup (q.set_exit (q.queue_empty t).1))))
    woken-joins ths t =
        let t1 = (q.queue_empty t).1 in
        let (c1, j1) = quiet.empty_quiet t in
        let (c2, j2) = quiet.exit_quiet t1 in
        let (c3, j3) = quiet.wakeup_quiet (q.set_exit t1) in
        let (js, cs, none_left) = stop_all-joins ths (q.wakeup (q.set_exit t1)) in
        let (ths2, t2) = stop_all k ths (q.wakeup (q.set_exit t1)) in
        (
          ths2,
          t2,
          refl,
          cs ∙ c3 ∙ c2 ∙ c1,
          js ∙ ap (λ ids. ids ++ running ths) (j3 ∙ j2 ∙ j1),
          none_left,
        )

    pool_stop-Stopped :
        (ths : List Thread) (t : T) (m fuel : ℕ)
        → (q.queue_empty (look q m t)).0 ≡ true
        → m < fuel
        → Stopped ths t (pool_stop k q fuel ths t)
    unfolding pool_stop
    pool_stop-Stopped ths t m zero e lt = absurd (omega arith)
    pool_stop-Stopped ths t zero (suc fuel) e lt = rw e (woken-joins ths t)
    pool_stop-Stopped ths t (suc m) (suc fuel) e lt = elim (Bool-cases (q.queue_empty t).0) [
      | inl now ↦ rw now (woken-joins ths t)
      | inr later ↦
          let t1 = (q.queue_empty t).1 in
          let (c1, j1) = quiet.empty_quiet t in
          let (c2, j2) = quiet.sleep_quiet t1 in
          let (ths2, t2, run, c, j, none_left) =
            pool_stop-Stopped ths (q.sleep t1) m fuel e (omega (arith, lt)) in
          (
            ths2,
            t2,
            rw later run,
            c ∙ c2 ∙ c1,
            j ∙ ap (λ ids. ids ++ running ths) (j2 ∙ j1),
            none_left,
          )
    ]

    -- Let each pthread_join of a thread that was created return, which is that the thread ends; when
    -- it does not, `stop` hangs. When a pool of any size has been started and is then stopped, and
    -- `stop` would see the queue empty at its `m`th look, it returns, with fuel above `m`. The threads that were joined are then
    -- those that were created, each once and in the order of their creation, whichever calls of
    -- pthread_create fail; and no thread of the pool counts as running.
    pool_stop-pool_start :
        (n : ℕ) (t : T) (m fuel : ℕ)
        → (q.queue_empty (look q m (pool_start k n t).1)).0 ≡ true
        → m < fuel
        → let (ths, t1) = pool_start k n t in
          (ths2 : List Thread) × (t2 : T) × (pool_stop k q fuel ths t1 ≡ some (ths2, t2))
          × (h.created t2 ≡ h.created t ++ running ths)
          × (h.joins t2 ≡ h.joins t ++ running ths)
          × (running ths2 ≡ [])
    unfolding pool_start
    pool_stop-pool_start n t m fuel seen lt =
        let (ths, t1) = start_all k (make_threads k n) t in
        let (c, j) = start_all-created (make_threads k n) t (make_threads-IsIdle n) in
        let (ths2, t2, run, cs, js, none_left) = pool_stop-Stopped ths t1 m fuel seen lt in
        (ths2, t2, run, cs ∙ c, js ∙ rw j refl, none_left)
