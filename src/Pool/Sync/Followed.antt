-- ===== src/Pool/Sync/Followed.antt =====
-- What is known of a producer in `push` is kept by the steps of all threads.
use filedisk_server.Common.{
  ℕ, ◌≡◌, ◌≢◌, refl, sym, ap, subst, ◌∙◌, true, List, [], ◌∷◌, ◌++◌, arith,
}
use filedisk_server.Common.Family.{update, update-cases}
use filedisk_server.Pool.Memory.{Memory}
use filedisk_server.Pool.Worker.{
  Pc, idle, push_lock, push_woken, push_put, push_notify, push_unlock, pop_asleep, pop_woken,
  pop_return, stop_join, stopped, Move, push_puts, pop_takes, holds, wake,
}
use filedisk_server.Pool.System.{
  System, Step, move, signals_pop, signals_nobody, signals_push, signals_no_push, broadcasts, joins,
}
use filedisk_server.Pool.Invariant.{Inv, Step-Inv}
use filedisk_server.Pool.Progress.Sends.{Sends}
use filedisk_server.Pool.Sync.{not_empty, SyncCall, signals}
use filedisk_server.Pool.Sync.During.{
  During, begins, goes, Roomy, Room, At, Next, At-nil, Roomy-more, Move-Next,
}

module _ (cap task : ℕ) where
  stay-Next :
      (p : Pc) (m m' : Memory) (l : List SyncCall) (qs : List (List ℕ))
      → p ≢ idle
      → (holds p ≡ true → m'.que ≡ m.que)
      → At cap task p m l qs
      → Next cap task p m l qs p m'
  stay-Next (push_put t) m m' l qs busy same at =
      subst
        (λ que.
          (t ≡ task) × (hist : List (List ℕ)) × Roomy cap task hist que [] (l ++ []) (qs ++ []))
        (sym (same refl)) (At-nil cap task (push_put t) m l qs at)
  stay-Next push_notify m m' l qs busy same at =
      subst (λ que. Room cap task [] que (l ++ []) (qs ++ [])) (sym (same refl))
        (At-nil cap task push_notify m l qs at)
  stay-Next push_unlock m m' l qs busy same at =
      subst (λ que. Room cap task (signals not_empty ∷ []) que (l ++ []) (qs ++ []))
        (sym (same refl)) (At-nil cap task push_unlock m l qs at)
  stay-Next idle m m' l qs busy same at = absurd (busy refl)
  stay-Next p m m' l qs busy same at = At-nil cap task p m l qs at

  Sends-Next :
      {p p' : Pc}
      → Sends p p'
      → (m : Memory) (l : List SyncCall) (qs : List (List ℕ)) → At cap task p m l qs
      → Next cap task p m l qs p' m
  Sends-Next Sends.unlocks m l qs (hist, q, e, r) =
      (hist, q, e, Roomy-more cap task (signals not_empty ∷ []) [] l hist qs q r)
  Sends-Next (Sends.frees {t}) m l qs at = At-nil cap task (push_woken t) m l qs at
  Sends-Next go m l qs at = absurd at

  wake-Next :
      (p : Pc) (m : Memory) (l : List SyncCall) (qs : List (List ℕ))
      → p ≢ idle
      → At cap task p m l qs
      → Next cap task p m l qs (wake p) m
  wake-Next pop_asleep m l qs busy at = absurd at
  wake-Next p m l qs busy at = stay-Next p m m l qs busy (λ h. refl) at

  -- Only a thread with the mutex changes the queue.
  Move-que :
      {i : ℕ} {m m' : Memory} {p p' : Pc} → Move i m p m' p' → holds p ≢ true → m'.que ≡ m.que
  Move-que push_puts h = absurd (h refl)
  Move-que (pop_takes q) h = absurd (h refl)
  Move-que mv h = refl

  module _ (i : ℕ) (s : System) (l : List SyncCall) (qs : List (List ℕ)) where
    sent_here :
        (a : ℕ) {p p' : Pc}
        → s.pc a ≡ p
        → Sends p p'
        → At cap task (s.pc i) s.mem l qs
        → a ≡ i
        → Next cap task (s.pc i) s.mem l qs p' s.mem
    sent_here a {p} {p'} e go at here =
        subst (λ p1. At cap task p1 s.mem l qs → Next cap task p1 s.mem l qs p' s.mem)
          (sym (ap s.pc (sym here) ∙ e)) (Sends-Next go s.mem l qs) at

    sent-Next :
        (a : ℕ) {p : Pc} (p' : Pc)
        → s.pc a ≡ p
        → Sends p p'
        → s.pc i ≢ idle
        → At cap task (s.pc i) s.mem l qs
        → Next cap task (s.pc i) s.mem l qs (update s.pc a p' i) s.mem
    sent-Next a p' e go busy at =
        update-cases (λ p1. Next cap task (s.pc i) s.mem l qs p1 s.mem) s.pc a p' i
          (sent_here a e go at) (λ _. stay-Next (s.pc i) s.mem s.mem l qs busy (λ h. refl) at)

    pub Step-Next :
        {n : ℕ} {u : System}
        → Step n s u
        → Inv cap s.mem s.pc
        → s.pc i ≢ idle
        → At cap task (s.pc i) s.mem l qs
        → Next cap task (s.pc i) s.mem l qs (u.pc i) u.mem
    Step-Next (move a {m} {p} lt mv) inv busy at =
        update-cases (λ p1. Next cap task (s.pc i) s.mem l qs p1 m) s.pc a p i
          (λ here.
            Move-Next cap task (subst (λ h. Move h s.mem (s.pc h) m p) here mv) inv.sized busy l qs
              at)
          (λ away.
            stay-Next (s.pc i) s.mem m l qs busy
              (λ h. Move-que mv (λ h1. away (ground (arith, inv.owned i h, inv.owned a h1)))) at)
    Step-Next (signals_pop a b la lb ea eb) inv busy at =
        update-cases (λ p1. Next cap task (s.pc i) s.mem l qs p1 s.mem) (update s.pc a push_unlock)
          b pop_woken i (sent_here b eb Sends.wakes at)
          (λ _. sent-Next a push_unlock ea Sends.unlocks busy at)
    Step-Next (signals_nobody a la ea no_one) inv busy at =
        sent-Next a push_unlock ea Sends.unlocks busy at
    Step-Next (signals_push a b t v la lb ea eb) inv busy at =
        update-cases (λ p1. Next cap task (s.pc i) s.mem l qs p1 s.mem)
          (update s.pc a (pop_return t)) b (push_woken v) i (sent_here b eb Sends.frees at)
          (λ _. sent-Next a (pop_return t) ea Sends.returns busy at)
    Step-Next (signals_no_push a t la ea no_one) inv busy at =
        sent-Next a (pop_return t) ea Sends.returns busy at
    Step-Next (broadcasts a la ea) inv busy at =
        update-cases (λ p1. Next cap task (s.pc i) s.mem l qs p1 s.mem) (λ j. wake (s.pc j)) a
          stop_join i (sent_here a ea Sends.waits at) (λ _. wake-Next (s.pc i) s.mem l qs busy at)
    Step-Next (joins a la ea all) inv busy at = sent-Next a stopped ea Sends.ends busy at

  pub During-At :
      {n i : ℕ} {s u : System} {l : List SyncCall} {qs : List (List ℕ)}
      → Inv cap s.mem s.pc
      → s.pc i ≡ push_lock task
      → During n i s l qs u
      → Inv cap u.mem u.pc × At cap task (u.pc i) u.mem l qs
  During-At {s} inv e begins =
      (inv, subst (λ p. At cap task p s.mem [] []) (sym e) (refl, refl, refl))
  During-At {i} inv e (goes {l} {qs} {t} d busy st) =
      let (inv1, at) = During-At inv e d in (Step-Inv st inv1, Step-Next i t l qs st inv1 busy at)
