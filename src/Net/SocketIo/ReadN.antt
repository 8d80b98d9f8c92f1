-- ===== src/Net/SocketIo/ReadN.antt =====
-- What `SocketIO::readn` takes off the stream, for every way in which the kernel cuts it up.
use filedisk_server.Common.{
  ℕ, zero, suc, ◌+◌, ◌-◌, ◌≤◌, ◌≡◌, ◌⊎◌, Option, some, List, [], ◌∷◌, ◌++◌, length, take, drop,
  append_assoc, append-nil, length-append, take-split, arith,
}
use filedisk_server.Common.Int.{ℤ, pos, negsuc}
use filedisk_server.Net.Kernel.{Received, bytes, Kernel, View, ReadOk, Laws}
use filedisk_server.Net.SocketIo.{read_turn, read_loop, read_n}

-- How `readn` ends that still has to store `left` bytes behind `base` others: with an error, having
-- stored some of them, or with the next `left` bytes of the stream, or with all that is left of it.
pub record Took {W : Type 0} (v : View W) (base left : ℕ) (w : W) (r : ℤ) (more : List ℕ) (w' : W)
    : Type 0 where
  pub fits : length more ≤ left
  pub order : v.incoming w ≡ more ++ v.incoming w'
  pub silent : v.outgoing w' ≡ v.outgoing w
  pub calmer : v.patience w' ≤ v.patience w
  pub outcome :
      ((r ≡ negsuc 0) × (v.errors w' ≡ suc (v.errors w)))
      ⊎ ((r ≡ pos (base + length more))
          × (v.errors w' ≡ v.errors w)
          × ((length more ≡ left) ⊎ (v.incoming w' ≡ [])))

module _ {W : Type 0} (k : Kernel W) (v : View W) (laws : Laws k v) where
  -- The result of the loop, or of a round of it, with `got` already stored and `left` bytes to go.
  abbrev Ends : ℕ → List ℕ → W → Option (ℤ × List ℕ × W) → Type 0
  Ends left got w out =
      (r : ℤ) × (more : List ℕ) × (w' : W) × (out ≡ some (r, got ++ more, w'))
      × Took v (length got) left w r more w'

  read_turn-Ends :
      (fuel n l : ℕ) (got : List ℕ) (w : W) (a : Received × W)
      → length got + suc l ≡ n
      → v.patience w + suc l ≤ suc fuel
      → ((left : ℕ) (got : List ℕ) (w : W)
          → length got + left ≡ n
          → v.patience w + left ≤ fuel
          → Ends left got w (read_loop k fuel n left got w))
      → ReadOk v w (suc l) a
      → Ends (suc l) got w (read_turn (read_loop k fuel n) n (suc l) got a)
  unfolding read_turn
  read_turn-Ends fuel n l got w (Received.interrupted, w') e h ih (same, quiet, less, count) =
      let (r, more, w2, run, t) = ih (suc l) got w' e (omega arith) in
      (r, more, w2, run, ground arith)
  read_turn-Ends fuel n l got w (Received.failed, w') e h ih (same, quiet, less, count) =
      (negsuc 0, [], w', rw append-nil, ground arith)
  read_turn-Ends fuel n l got w (bytes [], w') e h ih ok =
      (pos (length got), [], w', ground (arith, append-nil got), ground arith)
  read_turn-Ends fuel n l got w (bytes (b ∷ bs), w') e h ih ok =
      let (r, more, w2, run, t) =
        ih (suc l - length (b ∷ bs)) (got ++ (b ∷ bs)) w'
          (omega (arith, length-append got (b ∷ bs))) (omega arith) in
      (
        r,
        (b ∷ bs) ++ more,
        w2,
        ground (arith, run, append_assoc got (b ∷ bs) more),
        ground (
          arith,
          length-append got (b ∷ bs),
          length-append bs more,
          append_assoc bs more (v.incoming w2),
        ),
      )

  read_loop-Ends :
      (fuel n left : ℕ) (got : List ℕ) (w : W)
      → length got + left ≡ n
      → v.patience w + left ≤ fuel
      → Ends left got w (read_loop k fuel n left got w)
  unfolding read_loop
  read_loop-Ends fuel n zero got w e h =
      (pos (length got), [], w, ground (arith, append-nil got), ground arith)
  read_loop-Ends zero n (suc l) got w e h = absurd (omega arith)
  read_loop-Ends (suc fuel) n (suc l) got w e h =
      read_turn-Ends fuel n l got w (k.read w (suc l)) e h (read_loop-Ends fuel n)
        (laws.read_ok w (suc l))

  -- With fuel for the interruptions to come and for `n` rounds `readn` returns: with -1, and
  -- exactly one of its calls has failed with an error other than EINTR; or with none that has failed
  -- so, and the number of bytes that it stored, `n` or all that were left until the peer closed the
  -- connection. In both cases the bytes stored, at most `n`, are the next ones of the stream.
  pub read_n-Took :
      (fuel n : ℕ) (w : W)
      → v.patience w + n ≤ fuel
      → (r : ℤ) × (got : List ℕ) × (w' : W) × (read_n k fuel (pos n) w ≡ some (r, got, w'))
        × Took v 0 n w r got w'
  unfolding read_n
  read_n-Took fuel n w h = read_loop-Ends fuel n n [] w (omega arith) h

  -- So a `readn` without an error is `take` on the stream, whatever pieces it comes in.
  read_n-take :
      (fuel n : ℕ) (w : W)
      → v.patience w + n ≤ fuel
      → (r : ℤ) × (got : List ℕ) × (w' : W) × (read_n k fuel (pos n) w ≡ some (r, got, w'))
        × ((r ≡ negsuc 0)
            ⊎ ((r ≡ pos (length got))
                × (got ≡ take n (v.incoming w))
                × (v.incoming w' ≡ drop n (v.incoming w))))
  read_n-take fuel n w h =
      let (r, got, w', run, t) = read_n-Took fuel n w h in
      (r, got, w', run, ground (arith, t, take-split n got (v.incoming w')))
