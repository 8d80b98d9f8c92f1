-- ===== src/Pool/Progress/Ranks.antt =====
-- How far the threads are from the end of `doTask` once `stop` has cleared `_flag` and set `_isExit`.
use filedisk_server.Common.{
  ℕ, zero, suc, ◌+◌, ◌*◌, ◌≤◌, ◌<◌, ◌≡◌, ◌≢◌, refl, true, false, arith, ℕ_discrete, subst,
  if◌then◌else◌,
}
use filedisk_server.Common.Family.{update, update_same}
use filedisk_server.Pool.Memory.{Memory}
use filedisk_server.Pool.Worker.{
  Pc, work_loop, pop_lock, pop_test, pop_wait, pop_asleep, pop_woken, pop_flag, pop_take,
  pop_notify, pop_return, pop_null, running, Move, is_worker, wake, works, pop_empty, pop_live,
}
use filedisk_server.Pool.Progress.Sends.{sent}

-- How many steps a worker still has to its end, if `_flag` is down and `_isExit` up.
abbrev pub rank : Pc → ℕ
rank work_loop = 1
rank pop_lock = 5
rank pop_test = 4
rank pop_wait = 7
rank pop_asleep = 6
rank pop_woken = 5
rank pop_flag = 3
rank pop_take = 5
rank (pop_notify t) = 4
rank (pop_return t) = 3
rank pop_null = 2
rank (running t) = 2
rank p = 0

abbrev pub cost : Pc → ℕ
cost p = if is_worker p then 1 else 0

abbrev pub sum_below : (ℕ → ℕ) → ℕ → ℕ
sum_below f zero = 0
sum_below f (suc n) = sum_below f n + f n

-- What the ranks of the first `n` threads come to.
abbrev pub total : ℕ → (ℕ → Pc) → ℕ
total n pc = sum_below (λ k. rank (pc k)) n

abbrev pub IsAwake : Pc → Type 0
IsAwake p = (p ≢ pop_wait) × (p ≢ pop_asleep)

pub sum_below-le : (f g : ℕ → ℕ) (n : ℕ) → ((k : ℕ) → f k ≤ g k) → sum_below f n ≤ sum_below g n
sum_below-le f g zero h = omega arith
sum_below-le f g (suc n) h = omega (arith, sum_below-le f g n h, h n)

pub sum_below-lt :
    (f g : ℕ → ℕ) (n i : ℕ)
    → i < n
    → ((k : ℕ) → f k ≤ g k)
    → f i < g i
    → sum_below f n < sum_below g n
sum_below-lt f g zero i lt h less = absurd (omega arith)
sum_below-lt f g (suc n) i lt h less = elim (ℕ_discrete i n) [
  | yes e ↦ omega (arith, sum_below-le f g n h, subst (λ k. f k < g k) e less)
  | no d ↦ omega (arith, sum_below-lt f g n i (ground arith) h less, h n)
]

pub Move-rank :
    {i : ℕ} {m m' : Memory} {p p' : Pc}
    → Move i m p m' p'
    → m.flag ≡ false
    → m.is_exit ≡ true
    → cost p + rank p' ≤ rank p
Move-rank (works g) d o = ground (arith, g, o)
Move-rank (pop_empty g) d o = ground (arith, g, d)
Move-rank (pop_live g) d o = ground (arith, g, d)
Move-rank mv d o = omega arith

module _ (n : ℕ) (pc : ℕ → Pc) (i : ℕ) {p : Pc} (p' : Pc) (e : pc i ≡ p) where
  sent-rank : rank p' ≤ rank p → (k : ℕ) → rank (update pc i p' k) ≤ rank (pc k)
  sent-rank le k =
      sent (λ q. rank q ≤ rank (pc k)) pc i p' e (λ h. omega (arith, h, le)) k (omega arith)

  pub sent-total : rank p' ≤ rank p → total n (update pc i p') ≤ total n pc
  sent-total le = sum_below-le _ _ n (sent-rank le)

  pub sent-falls : i < n → rank p' < rank p → total n (update pc i p') < total n pc
  sent-falls lt less =
      sum_below-lt _ _ n i lt (sent-rank (omega (arith, less))) (rw (update_same pc i p', e) less)

  pub sent-cost :
      (c : ℕ) → c ≤ 1 → i < n → c + rank p' ≤ rank p → c + total n (update pc i p') ≤ total n pc
  sent-cost zero one lt h = omega (arith, sent-total (omega (arith, h)))
  sent-cost (suc zero) one lt h = omega (arith, sent-falls lt (omega (arith, h)))
  sent-cost (suc (suc c)) one lt h = absurd (omega arith)

pub cost-le : (p : Pc) → cost p ≤ 1
cost-le p = ground arith

pub wake-rank : (p : Pc) → rank (wake p) ≤ rank p
wake-rank p = ground arith

pub wake-IsAwake : (p : Pc) → IsAwake p → IsAwake (wake p)
wake-IsAwake pop_asleep h = absurd (h.1 refl)
wake-IsAwake p h = h

pub rank-le : (p : Pc) → IsAwake p → rank p ≤ 5
rank-le pop_wait h = absurd (h.0 refl)
rank-le pop_asleep h = absurd (h.1 refl)
rank-le p h = ground arith

pub total-le : (n : ℕ) (pc : ℕ → Pc) → ((k : ℕ) → IsAwake (pc k)) → total n pc ≤ 5 * n
total-le zero pc h = omega arith
total-le (suc n) pc h = omega (arith, total-le n pc h, rank-le (pc n) (h n))
