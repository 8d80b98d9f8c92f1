-- ===== src/Pool/Progress/Steps.antt =====
-- Every step of the pool keeps `Live`.
use filedisk_server.Common.{
  ℕ, ◌<◌, ◌≡◌, refl, sym, ap, ◌∙◌, inl, inr, Bool, true, false, arith, subst,
}
use filedisk_server.Common.Family.{update, update_same, update-cases}
use filedisk_server.Pool.Memory.{Memory}
use filedisk_server.Pool.Worker.{
  Pc, push_asleep, push_woken, push_unlock, pop_asleep, pop_woken, pop_return, stop_broadcast,
  stop_join, stopped, Move, holds, is_worker, wake,
}
use filedisk_server.Pool.System.{
  System, Step, move, signals_pop, signals_nobody, signals_push, signals_no_push, broadcasts, joins,
}
use filedisk_server.Pool.Invariant.{Inv}
use filedisk_server.Pool.Progress.{feeds, fills, Seen, Some, Live}
use filedisk_server.Pool.Progress.Sends.{
  Alike, Alike-sent, Alike-trans, sends-Alike, sent, some_sent, wake-Alike, wake-feeds, wake-fills,
  worker_feeds, unlocks, wakes, returns, frees, waits, ends,
}
use filedisk_server.Pool.Progress.Wakeups.{
  Move-worker, Move-holds, Move-saw, Move-saw_other, Move-feeds, Move-puts, Move-fills,
  Move-empties, Move-exit, Move-sleeps,
}

both : {b : Bool} → b ≡ false → b ≡ true → ⊥
both e h = ground (arith, e, h)

module _ {n cap w : ℕ} (room : 0 < cap) {m : Memory} {pc : ℕ → Pc} (inv : Inv cap m pc)
    (live : Live n w m pc) where
  module _ (i : ℕ) (lt : i < n) {p' : Pc} {m' : Memory} (mv : Move i m (pc i) m' p') where
    by_mover : (test : Pc → Bool) → test p' ≡ true → Some n (update pc i p') test
    by_mover test h =
        (i, lt, update-cases (λ p. test p ≡ true) pc i p' i (λ e. h) (λ d. absurd (d refl)))

    by_other :
        (test : Pc → Bool) (k : ℕ)
        → k < n
        → test (pc k) ≡ true
        → (test (pc i) ≡ true → test p' ≡ true)
        → Some n (update pc i p') test
    by_other test k lk h go = (
      k,
      lk,
      update-cases (λ p. test p ≡ true) pc i p' k
          (λ e. go (subst (λ j. test (pc j) ≡ true) (sym e) h)) (λ d. h),
    )

    sized : 0 < m.que_size
    sized = omega (arith, room, inv.sized)

    Move-Live : Live n w m' (update pc i p')
    Move-Live = record {
      stays =
          update-cases (λ p. is_worker p ≡ true) pc i p' w
            (λ e. Move-worker mv ∙ ap (λ j. is_worker (pc j)) e ∙ live.stays) (λ d. live.stays);
      owner_holds = λ j o. elim (Move-holds mv (inv.owned i) (λ h. (live.owner_holds i h).1) j o) [
        | inl (e, h) ↦ (
          rw e lt,
          update-cases (λ p. holds p ≡ true) pc i p' j (λ _. h) (λ d. absurd (d (sym e))),
        )
        | inr (o1, d) ↦
            let (lj, h) = live.owner_holds j o1 in
            (lj, update-cases (λ p. holds p ≡ true) pc i p' j (λ e. absurd (d (sym e))) (λ _. h))
      ];
      seen = λ j.
          update-cases (Seen m') pc i p' j (λ e. Move-saw mv (live.seen i))
            (λ d.
              Move-saw_other mv (inv.owned i) (pc j) j (inv.owned j) (λ e. d (sym e))
                (live.seen j));
      fed = λ out e. elim (Move-puts mv e) [
        | inl e0 ↦
            let (k, lk, h) = live.fed (Move-exit mv out) e0 in
            by_other feeds k lk h (Move-feeds mv (live.seen i) out e)
        | inr h ↦ by_mover feeds h
      ];
      filled = λ j u lj e asleep. elim (Move-empties mv e) [
        | inl e0 ↦
            let (k, lk, h) =
              update-cases (λ p. p ≡ push_asleep u → Some n pc fills) pc i p' j
                (λ _ a. absurd (both (Move-sleeps u mv (live.seen i) sized a) e))
                (λ _ a. live.filled j u lj e0 a) asleep in
            by_other fills k lk h (Move-fills mv sized e)
        | inr h ↦ by_mover fills h
      ];
    }

-- Steps that only send threads elsewhere.
Live-elsewhere :
    {n w : ℕ} {m : Memory} {pc : ℕ → Pc} (pc' : ℕ → Pc)
    → Live n w m pc
    → ((k : ℕ) → Alike m (pc k) (pc' k))
    → (m.is_exit ≡ false → Some n pc feeds → Some n pc' feeds)
    → ((j u : ℕ) → j < n → pc j ≡ push_asleep u → Some n pc fills → Some n pc' fills)
    → Live n w m pc'
Live-elsewhere pc' live alike feeding filling = record {
  stays = (alike _).0 ∙ live.stays;
  owner_holds = λ i o. let (li, h) = live.owner_holds i o in (li, (alike i).1 ∙ h);
  seen = λ k. (alike k).2 (live.seen k);
  fed = λ out e. feeding out (live.fed out e);
  filled = λ j u lj e asleep.
      let before = (alike j).3 u asleep in filling j u lj before (live.filled j u lj e before);
}

pub Step-Live :
    {n cap w : ℕ} {s t : System}
    → 0 < cap
    → w < n
    → Step n s t
    → Inv cap s.mem s.pc
    → Live n w s.mem s.pc
    → Live n w t.mem t.pc
Step-Live room lw (move i lt mv) inv live = Move-Live room inv live i lt mv
Step-Live {s} room lw (signals_pop i j li lj ei ej) inv live =
    Live-elsewhere _ live
      (λ k.
        Alike-trans s.mem (Alike-sent s.mem s.pc i push_unlock ei (sends-Alike s.mem unlocks) k)
          (Alike-sent s.mem pc1 j pop_woken ej1 (sends-Alike s.mem wakes) k))
      (λ out h. (j, lj, rw (update_same pc1 j pop_woken) refl))
      (λ x u lx asleep h.
        some_sent fills pc1 j pop_woken ej1 (λ h. ground (arith, h))
          (some_sent fills s.pc i push_unlock ei (λ h. ground (arith, h)) h))
  where
    pc1 : ℕ → Pc
    pc1 = update s.pc i push_unlock

    ej1 : pc1 j ≡ pop_asleep
    ej1 = sent (λ p. p ≡ pop_asleep) s.pc i push_unlock ei (λ e. absurd (ground (arith, e))) j ej
Step-Live {w} {s} room lw (signals_nobody i li ei no_one) inv live =
    Live-elsewhere _ live (Alike-sent s.mem s.pc i push_unlock ei (sends-Alike s.mem unlocks))
      (λ out h. (
        w,
        lw,
        (sent (λ p. (is_worker p ≡ true) × (feeds p ≡ true)) s.pc i push_unlock ei
            (λ h. absurd (ground (arith, h))) w
            (live.stays, worker_feeds s.mem (s.pc w) (no_one w lw) (live.seen w) out live.stays)).1,
      ))
      (λ x u lx asleep. (some_sent fills s.pc i push_unlock ei (λ h. ground (arith, h))))
Step-Live {s} room lw (signals_push i j t u li lj ei ej) inv live =
    Live-elsewhere _ live
      (λ k.
        Alike-trans s.mem (Alike-sent s.mem s.pc i (pop_return t) ei (sends-Alike s.mem returns) k)
          (Alike-sent s.mem pc1 j (push_woken u) ej1 (sends-Alike s.mem frees) k))
      (λ out h.
        some_sent feeds pc1 j (push_woken u) ej1 (λ h. ground (arith, h))
          (some_sent feeds s.pc i (pop_return t) ei (λ h. refl) h))
      (λ x v lx asleep h. (j, lj, rw (update_same pc1 j (push_woken u)) refl))
  where
    pc1 : ℕ → Pc
    pc1 = update s.pc i (pop_return t)

    ej1 : pc1 j ≡ push_asleep u
    ej1 =
        sent (λ p. p ≡ push_asleep u) s.pc i (pop_return t) ei (λ e. absurd (ground (arith, e))) j
          ej
Step-Live {s} room lw (signals_no_push i t li ei no_one) inv live =
    Live-elsewhere _ live (Alike-sent s.mem s.pc i (pop_return t) ei (sends-Alike s.mem returns))
      (λ out. (some_sent feeds s.pc i (pop_return t) ei (λ h. refl)))
      (λ x u lx asleep h. absurd (no_one x u lx asleep))
Step-Live {s} room lw (broadcasts i li ei) inv live =
    Live-elsewhere _ live
      (λ k.
        Alike-trans s.mem (wake-Alike s.mem (s.pc k))
          (Alike-sent s.mem pc1 i stop_join ei1 (sends-Alike s.mem waits) k))
      (λ out h.
        some_sent feeds pc1 i stop_join ei1 (λ h. ground (arith, h))
          (h.0, h.1, wake-feeds (s.pc h.0) h.2))
      (λ x u lx asleep h.
        some_sent fills pc1 i stop_join ei1 (λ h. ground (arith, h))
          (h.0, h.1, wake-fills (s.pc h.0) h.2))
  where
    pc1 : ℕ → Pc
    pc1 j = wake (s.pc j)

    ei1 : pc1 i ≡ stop_broadcast
    ei1 = ap wake ei
Step-Live {s} room lw (joins i li ei all) inv live =
    Live-elsewhere _ live (Alike-sent s.mem s.pc i stopped ei (sends-Alike s.mem ends))
      (λ out. (some_sent feeds s.pc i stopped ei (λ h. ground (arith, h))))
      (λ x u lx asleep. (some_sent fills s.pc i stopped ei (λ h. ground (arith, h))))
