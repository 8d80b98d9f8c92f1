-- ===== src/Pool/Progress/Sends.antt =====
-- Steps that send a thread to another place: what this means for the places of all.
use filedisk_server.Common.{ℕ, ◌≡◌, ◌≢◌, refl, sym, ◌∙◌, Bool, true, false, arith, subst}
use filedisk_server.Common.Family.{update, update-cases}
use filedisk_server.Pool.Memory.{Memory}
use filedisk_server.Pool.Worker.{
  Pc, push_asleep, push_woken, push_notify, push_unlock, pop_asleep, pop_woken, pop_notify,
  pop_return, stop_broadcast, stop_join, stopped, holds, is_worker, wake,
}
use filedisk_server.Pool.Progress.{feeds, fills, Seen, Some}

-- What holds of where thread `k` stands still holds when `i` is sent from `p` to `p'`.
pub sent {ℓ} :
    (P : Pc → Type ℓ) (pc : ℕ → Pc) (i : ℕ) {p : Pc} (p' : Pc)
    → pc i ≡ p
    → (P p → P p')
    → (k : ℕ) → P (pc k)
    → P (update pc i p' k)
sent P pc i p' e go k h =
    update-cases P pc i p' k (λ same. go (subst P e (subst (λ j. P (pc j)) (sym same) h))) (λ _. h)

pub some_sent :
    {n : ℕ} (test : Pc → Bool) (pc : ℕ → Pc) (i : ℕ) {p : Pc} (p' : Pc)
    → pc i ≡ p
    → (test p ≡ true → test p' ≡ true)
    → Some n pc test
    → Some n (update pc i p') test
some_sent test pc i p' e go (k, lk, h) = (k, lk, sent (λ p. test p ≡ true) pc i p' e go k h)

-- A thread whose place is told by `p'` in place of `p`: the same kind of thread, with the mutex or
-- without as before.
abbrev pub Alike : Memory → Pc → Pc → Type 0
Alike m p p' =
    (is_worker p' ≡ is_worker p)
    × (holds p' ≡ holds p)
    × (Seen m p → Seen m p')
    × ((u : ℕ) → p' ≡ push_asleep u → p ≡ push_asleep u)

pub Alike-trans : (m : Memory) {p q r : Pc} → Alike m p q → Alike m q r → Alike m p r
Alike-trans m (a, b, c, d) (a1, b1, c1, d1) = (a1 ∙ a, b1 ∙ b, λ s. c1 (c s), λ u h. d u (d1 u h))

pub Alike-sent :
    (m : Memory) (pc : ℕ → Pc) (i : ℕ) {p : Pc} (p' : Pc)
    → pc i ≡ p
    → Alike m p p'
    → (k : ℕ) → Alike m (pc k) (update pc i p' k)
Alike-sent m pc i p' e go k =
    sent (Alike m (pc k)) pc i p' e (λ h. Alike-trans m h go) k (refl, refl, λ s. s, λ u h. h)

-- The places that a signal, a broadcast or the last join sends a thread to.
pub data Sends : Pc → Pc → Type 0 where
  unlocks : Sends push_notify push_unlock
  wakes : Sends pop_asleep pop_woken
  returns : {t : ℕ} → Sends (pop_notify t) (pop_return t)
  frees : {t : ℕ} → Sends (push_asleep t) (push_woken t)
  waits : Sends stop_broadcast stop_join
  ends : Sends stop_join stopped

pub sends-Alike : (m : Memory) {p p' : Pc} → Sends p p' → Alike m p p'
sends-Alike m unlocks = (refl, refl, λ s. s, λ u h. absurd (ground (arith, h)))
sends-Alike m go = (refl, refl, λ s. s, λ u h. absurd (ground (arith, h)))

pub wake-Alike : (m : Memory) (p : Pc) → Alike m p (wake p)
wake-Alike m pop_asleep = sends-Alike m wakes
wake-Alike m p = (refl, refl, λ s. s, λ u h. h)

pub wake-feeds : (p : Pc) → feeds p ≡ true → feeds (wake p) ≡ true
wake-feeds p h = ground (arith, h)

pub wake-fills : (p : Pc) → fills p ≡ true → fills (wake p) ≡ true
wake-fills p h = ground (arith, h)

pub worker_feeds :
    (m : Memory) (p : Pc)
    → p ≢ pop_asleep
    → Seen m p
    → m.is_exit ≡ false
    → is_worker p ≡ true
    → feeds p ≡ true
worker_feeds m p awake s out h = ground (arith, h)
