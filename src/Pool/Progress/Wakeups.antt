-- ===== src/Pool/Progress/Wakeups.antt =====
-- Every step keeps `Live`.
use filedisk_server.Common.{
  ℕ, ◌<◌, ◌≡◌, ◌≢◌, refl, inl, inr, ◌⊎◌, true, false, some, [], ◌∷◌, length-append, arith,
}
use filedisk_server.Pool.Memory.{Memory, empty}
use filedisk_server.Pool.Worker.{
  Pc, push_asleep, Move, holds, is_worker, push_locks, push_puts, push_full, push_sleeps, pop_takes,
  pop_sleeps, pop_empty, exits, sets_exit,
}
use filedisk_server.Pool.Invariant.{guard}
use filedisk_server.Pool.Progress.{feeds, fills, Seen}

-- What one step of thread `i` does to its own place.
module _ {i : ℕ} {m : Memory} where
  pub Move-worker : {p p' : Pc} {m' : Memory} → Move i m p m' p' → is_worker p' ≡ is_worker p
  Move-worker (push_locks g) = refl
  Move-worker mv = refl

  pub Move-holds :
      {p p' : Pc} {m' : Memory}
      → Move i m p m' p'
      → (holds p ≡ true → m.owner ≡ some i)
      → (m.owner ≡ some i → holds p ≡ true)
      → (j : ℕ) → m'.owner ≡ some j
      → ((j ≡ i) × (holds p' ≡ true)) ⊎ ((m.owner ≡ some j) × (j ≢ i))
  Move-holds (push_locks g) own back j h = ground (arith, h)
  Move-holds mv own back j h = ground (arith, guard mv, h)

  -- The thread has seen what it needs, and another one too, unless both had the mutex.
  pub Move-saw : {p p' : Pc} {m' : Memory} → Move i m p m' p' → Seen m p → Seen m' p'
  Move-saw (push_full g) s = g
  Move-saw (pop_empty g) s = ground (arith, g)
  Move-saw (exits g) s = g
  Move-saw mv s = ground (arith, guard mv)

  pub Move-saw_other :
      {p p' : Pc} {m' : Memory}
      → Move i m p m' p'
      → (holds p ≡ true → m.owner ≡ some i)
      → (q : Pc) (j : ℕ) → (holds q ≡ true → m.owner ≡ some j)
      → j ≢ i
      → Seen m q
      → Seen m' q
  Move-saw_other (push_locks g) own q j owned differ s = ground arith
  Move-saw_other mv own q j owned differ s = ground arith

  -- A step under which the queue gets or keeps a task leaves its thread feeding, unless it sleeps.
  pub Move-feeds :
      {p p' : Pc} {m' : Memory}
      → Move i m p m' p'
      → Seen m p
      → m'.is_exit ≡ false
      → empty m' ≡ false
      → feeds p ≡ true
      → feeds p' ≡ true
  Move-feeds (exits g) s out e h = ground (arith, g, out)
  Move-feeds pop_sleeps s out e h = ground (arith, s, e)
  Move-feeds mv s out e h = ground (arith, h)

  pub Move-puts :
      {p p' : Pc} {m' : Memory}
      → Move i m p m' p'
      → empty m' ≡ false
      → (empty m ≡ false) ⊎ (feeds p' ≡ true)
  Move-puts (push_puts {t}) e = inr refl
  Move-puts (pop_takes q) e = inl (ground (arith, q))
  Move-puts mv e = inl e

  pub Move-fills :
      {p p' : Pc} {m' : Memory}
      → Move i m p m' p'
      → 0 < m.que_size
      → empty m' ≡ true
      → fills p ≡ true
      → fills p' ≡ true
  Move-fills (push_full g) room e h = ground (arith, g, room, e)
  Move-fills (push_puts {t}) room e h = ground (arith, e, length-append m.que (t ∷ []))
  Move-fills mv room e h = ground (arith, h)

  pub Move-empties :
      {p p' : Pc} {m' : Memory}
      → Move i m p m' p'
      → empty m' ≡ true
      → (empty m ≡ true) ⊎ (fills p' ≡ true)
  Move-empties (push_puts {t}) e = ground (arith, e, length-append m.que (t ∷ []))
  Move-empties (pop_takes q) e = inr refl
  Move-empties mv e = inl e

  pub Move-exit :
      {p p' : Pc} {m' : Memory} → Move i m p m' p' → m'.is_exit ≡ false → m.is_exit ≡ false
  Move-exit sets_exit e = ground (arith, e)
  Move-exit mv e = e

  pub Move-sleeps :
      {p p' : Pc} {m' : Memory} (u : ℕ)
      → Move i m p m' p'
      → Seen m p
      → 0 < m.que_size
      → p' ≡ push_asleep u
      → empty m' ≡ false
  Move-sleeps u push_sleeps s room e = ground (arith, s, room)
  Move-sleeps u mv s room e = ground (arith, e)
