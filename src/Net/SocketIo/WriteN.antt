-- ===== src/Net/SocketIo/WriteN.antt =====
-- What `SocketIO::writen` hands to the kernel.
use Prim.Native.Nat.add
use filedisk_server.Common.{
  ap, ℕ, zero, suc, ◌+◌, ◌-◌, ◌≤◌, ◌≡◌, refl, ◌⊎◌, inl, inr, Option, some, List, [], ◌∷◌, ◌++◌,
  length, take, drop, append_assoc, append-nil, length-drop, take-append-drop, sym, ◌∙◌, arith,
}
use filedisk_server.Common.Int.{ℤ, pos, negsuc}
use filedisk_server.Net.Kernel.{Sent, count, Kernel, View, WriteOk, Laws}
use filedisk_server.Net.SocketIo.{write_turn, write_loop, write_n}

-- How `writen` ends that still has to write `msg` behind `base` other bytes: all of `msg` went out
-- in order, or there was an error after a part of it, from its front.
pub record Gave {W : Type 0} (v : View W) (base : ℕ) (msg : List ℕ) (w : W) (r : ℤ) (w' : W)
    : Type 0 where
  pub unread : v.incoming w' ≡ v.incoming w
  pub calmer : v.patience w' ≤ v.patience w
  pub outcome :
      ((r ≡ pos (base + length msg))
        × (v.outgoing w' ≡ v.outgoing w ++ msg)
        × (v.errors w' ≡ v.errors w))
      ⊎ ((r ≡ negsuc 0)
          × (v.errors w' ≡ suc (v.errors w))
          × ((m : ℕ) × (m ≤ length msg) × (v.outgoing w' ≡ v.outgoing w ++ take m msg)))

take-nil {ℓ} : {A : Type ℓ} (m : ℕ) → ◌≡◌ {A = List A} (take m []) []
take-nil zero = refl
take-nil (suc m) = refl

-- A piece, and then a piece of what follows it.
take-append-take-drop {ℓ} :
    {A : Type ℓ} (n m : ℕ) (xs : List A) → take n xs ++ take m (drop n xs) ≡ take (n + m) xs
take-append-take-drop zero m xs = ground arith
take-append-take-drop {A} (suc n) m [] = take-nil m ∙ sym (take-nil {A = A} (suc n + m))
take-append-take-drop (suc n) m (x ∷ xs) =
    rw (add.suc n m) (ap (λ l. x ∷ l) (take-append-take-drop n m xs))

take-take {ℓ} : {A : Type ℓ} (n m : ℕ) (xs : List A) → n ≤ m → take n (take m xs) ≡ take n xs
take-take zero m xs h = refl
take-take (suc n) zero xs h = absurd (omega arith)
take-take (suc n) (suc m) [] h = refl
take-take (suc n) (suc m) (x ∷ xs) h = ground (arith, take-take n m xs)

take-length {ℓ} : {A : Type ℓ} (n : ℕ) (xs : List A) → length xs ≡ n → take n xs ≡ xs
take-length zero [] h = refl
take-length zero (x ∷ xs) h = absurd (omega arith)
take-length (suc n) [] h = refl
take-length (suc n) (x ∷ xs) h = ground (arith, take-length n xs)

module _ {W : Type 0} (k : Kernel W) (v : View W) (laws : Laws k v) where
  abbrev Ends : ℕ → List ℕ → W → Option (ℤ × W) → Type 0
  Ends base msg w out = (r : ℤ) × (w' : W) × (out ≡ some (r, w')) × Gave v base msg w r w'

  -- The part of a message that a round has written, put before what the rest of the loop does.
  Gave-piece :
      (base c : ℕ) (msg : List ℕ) (w w' w2 : W) (r : ℤ)
      → c ≤ length msg
      → v.outgoing w' ≡ v.outgoing w ++ take c msg
      → v.incoming w' ≡ v.incoming w
      → v.patience w' ≤ v.patience w
      → v.errors w' ≡ v.errors w
      → Gave v (base + c) (drop c msg) w' r w2
      → Gave v base msg w r w2
  Gave-piece base c msg w w' w2 r fits out same calm steady g = record {
    unread = ground arith;
    calmer = omega (arith, g);
    outcome = join g.outcome;
  }
    where
      join :
          ((r ≡ pos (base + c + length (drop c msg)))
              × (v.outgoing w2 ≡ v.outgoing w' ++ drop c msg)
              × (v.errors w2 ≡ v.errors w'))
            ⊎ ((r ≡ negsuc 0)
                × (v.errors w2 ≡ suc (v.errors w'))
                × ((m : ℕ) × (m ≤ length (drop c msg))
                    × (v.outgoing w2 ≡ v.outgoing w' ++ take m (drop c msg))))
          → ((r ≡ pos (base + length msg))
              × (v.outgoing w2 ≡ v.outgoing w ++ msg)
              × (v.errors w2 ≡ v.errors w))
            ⊎ ((r ≡ negsuc 0)
                × (v.errors w2 ≡ suc (v.errors w))
                × ((m : ℕ) × (m ≤ length msg) × (v.outgoing w2 ≡ v.outgoing w ++ take m msg)))
      join (inl (e, o, n)) = inl (
        rw e (ap pos (omega (arith, length-drop c msg))),
        o ∙ rw (out, append_assoc, take-append-drop c msg),
        n ∙ steady,
      )
      join (inr (e, n, (m, lt, o))) = inr (
        e,
        n ∙ ap suc steady,
        (
          c + m,
          omega (arith, length-drop c msg),
          o ∙ rw (out, append_assoc, take-append-take-drop c m msg),
        ),
      )

  write_turn-Ends :
      (fuel n l base : ℕ) (msg : List ℕ) (w : W) (a : Sent × W)
      → length msg ≡ suc l
      → base + suc l ≡ n
      → v.patience w + suc l ≤ suc fuel
      → ((left base : ℕ) (msg : List ℕ) (w : W)
          → length msg ≡ left
          → base + left ≡ n
          → v.patience w + left ≤ fuel
          → Ends base msg w (write_loop k fuel n left msg w))
      → WriteOk v w msg a
      → Ends base msg w (write_turn (write_loop k fuel n) n (suc l) msg a)
  unfolding write_turn
  write_turn-Ends fuel n l base msg w (Sent.interrupted, w') el e h ih (same, quiet, less, tally) =
      let (r, w2, run, g) = ih (suc l) base msg w' el e (omega arith) in (r, w2, run, ground arith)
  write_turn-Ends fuel n l base msg w (Sent.failed, w') el e h ih (same, quiet, less, tally) = (
    negsuc 0,
    w',
    refl,
    record {
      unread = same;
      calmer = less;
      outcome = inr (refl, tally, (0, omega arith, rw (quiet, append-nil)));
    },
  )
  write_turn-Ends fuel n l base msg w (count zero, w') el e h ih ok =
      absurd (omega (arith, ok.5 (λ q. ground arith)))
  write_turn-Ends fuel n l base msg w (count (suc c), w') el e h ih ok =
      let (r, w2, run, g) =
        ih (suc l - suc c) (base + suc c) (drop (suc c) msg) w'
          (omega (arith, length-drop (suc c) msg, ok)) (omega (arith, ok)) (omega (arith, ok)) in
      (r, w2, run, Gave-piece base (suc c) msg w w' w2 r ok.0 ok.1 ok.2 ok.3 ok.4 g)

  write_loop-Ends :
      (fuel n left base : ℕ) (msg : List ℕ) (w : W)
      → length msg ≡ left
      → base + left ≡ n
      → v.patience w + left ≤ fuel
      → Ends base msg w (write_loop k fuel n left msg w)
  unfolding write_loop
  write_loop-Ends fuel n zero base [] w el e h = (
    pos base,
    w,
    ground arith,
    record {
      unread = refl;
      calmer = omega arith;
      outcome = inl (ground arith, sym (append-nil (v.outgoing w)), refl);
    },
  )
  write_loop-Ends fuel n zero base (x ∷ msg) w el e h = absurd (omega arith)
  write_loop-Ends zero n (suc l) base msg w el e h = absurd (omega arith)
  write_loop-Ends (suc fuel) n (suc l) base msg w el e h =
      write_turn-Ends fuel n l base msg w (k.write w (take (suc l) msg)) el e h
        (λ left base msg w. write_loop-Ends fuel n left base msg w)
        (rw (take-length (suc l) msg el) (laws.write_ok w msg))

  -- With fuel for the interruptions to come and for `length msg` rounds `writen` returns: with the
  -- whole message written behind what was written before, and no call failed with an error other
  -- than EINTR; or with -1 and a part of the message written, from its front, and exactly one call
  -- failed so.
  pub write_n-Gave :
      (fuel : ℕ) (msg : List ℕ) (w : W)
      → v.patience w + length msg ≤ fuel
      → (r : ℤ) × (w' : W) × (write_n k fuel msg (pos (length msg)) w ≡ some (r, w'))
        × Gave v 0 msg w r w'
  unfolding write_n
  write_n-Gave fuel msg w h =
      write_loop-Ends fuel (length msg) (length msg) 0 msg w refl (omega arith) h
