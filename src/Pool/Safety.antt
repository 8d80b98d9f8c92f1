-- ===== src/Pool/Safety.antt =====
-- What the pool promises in every reachable state.
use filedisk_server.Common.{
  ℕ, ◌≤◌, ◌≡◌, refl, true, false, List, [], ◌∷◌, ◌++◌, length, arith, ◌==◌,
}
use filedisk_server.Pool.Worker.{pop_take, holds}
use filedisk_server.Pool.System.{System, Role, init, Reach}
use filedisk_server.Pool.Invariant.{Inv, Reach-Inv, init-Inv}

module _ {n : ℕ} (cap : ℕ) (roles : ℕ → Role) {s : System} (r : Reach n (init cap roles) s) where
  inv : Inv cap s.mem s.pc
  inv = Reach-Inv r (init-Inv cap roles)

  -- Two threads are never between the lock and the unlock of the queue's mutex together.
  pub mutual_exclusion : (i j : ℕ) → holds (s.pc i) ≡ true → holds (s.pc j) ≡ true → i ≡ j
  mutual_exclusion i j hi hj = ground (arith, inv.owned i, inv.owned j)

  -- In every reachable state the queue holds at most the tasks that it was made for.
  pub queue_bounded : length s.mem.que ≤ cap
  queue_bounded = omega (arith, inv)

  -- In every reachable state the tasks that were pushed are those that were popped, in the order of
  -- the pushes, followed by those that the queue holds: none is lost, doubled or overtaken.
  pub queue_fifo : s.mem.accepted ≡ s.mem.taken ++ s.mem.que
  queue_fifo = inv.fifo

  -- A worker that goes to take a task finds one: `front` is never called on an empty queue.
  pub front_exists :
      (i : ℕ) → s.pc i ≡ pop_take → (t : ℕ) × (rest : List ℕ) × (s.mem.que ≡ t ∷ rest)
  front_exists i e = first s.mem.que (ground (arith, inv.tested i))
    where
      first : (q : List ℕ) → (0 == length q) ≡ false → (t : ℕ) × (rest : List ℕ) × (q ≡ t ∷ rest)
      first [] h = ground arith
      first (t ∷ rest) h = (t, rest, refl)
