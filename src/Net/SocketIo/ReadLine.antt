-- ===== src/Net/SocketIo/ReadLine.antt =====
-- What `SocketIO::readLine` leaves in the caller's buffer, and what it returns.
use native.Mathlib.Numerals.{add-one}
use filedisk_server.Common.{
  ap, ℕ, zero, suc, ◌+◌, ◌-◌, ◌≤◌, ◌<◌, ◌≡◌, refl, ◌⊎◌, inl, inr, Option, none, some, List, [], ◌∷◌,
  ◌++◌, length, take, length-append, length-take, overlay, overlay-prefix, sym, ◌∙◌, arith,
  Option-cases,
}
use filedisk_server.Common.Int.{ℤ, pos, negsuc, sub_ℕ}
use filedisk_server.Net.Kernel.{Received, bytes, Kernel, View, PeekOk, Laws}
use filedisk_server.Net.SocketIo.{
  newline_at, line_end, line_more, line_bytes, line_turn, line_loop, read_line, read_n,
}
use filedisk_server.Net.SocketIo.ReadN.{read_n-Took}

newline_at-append_none :
    (xs ys : List ℕ) → newline_at xs ≡ none → newline_at ys ≡ none → newline_at (xs ++ ys) ≡ none
unfolding newline_at
newline_at-append_none [] ys hx hy = hy
newline_at-append_none (x ∷ xs) ys hx hy = ground (arith, newline_at-append_none xs ys)

newline_at-append_some :
    (xs ys : List ℕ) (i : ℕ)
    → newline_at xs ≡ none
    → newline_at ys ≡ some i
    → newline_at (xs ++ ys) ≡ some (length xs + i)
unfolding newline_at
newline_at-append_some [] ys i hx hy = ground arith
newline_at-append_some (x ∷ xs) ys i hx hy = ground (arith, newline_at-append_some xs ys i)

newline_at-take :
    (ys : List ℕ) (i : ℕ)
    → newline_at ys ≡ some i
    → (i < length ys) × (newline_at (take (suc i) ys) ≡ some i)
unfolding newline_at
newline_at-take [] i h = ground arith
newline_at-take (y ∷ ys) zero h = ground arith
newline_at-take (y ∷ ys) (suc i) h = ground (arith, newline_at-take ys i)

-- How `readLine` ends with a buffer of `m + 1` bytes. The terminator always has room behind the
-- bytes. Then the result is -1, and some call has failed with an
-- error other than EINTR; or the bytes end in their only '\n' and the result counts them; or
-- there is no '\n' among them, because `m` bytes came without one or the stream is at its end, and
-- the result is the number of bytes less the room that is left.
pub record Line {W : Type 0} (v : View W) (m : ℕ) (w : W) (r : ℤ) (line : List ℕ) (w' : W)
    : Type 0 where
  pub in_bounds : length line ≤ m
  pub outcome :
      ((r ≡ negsuc 0) × (v.errors w < v.errors w'))
      ⊎ (((i : ℕ) × (newline_at line ≡ some i) × (length line ≡ i + 1) × (r ≡ pos (length line)))
          ⊎ ((newline_at line ≡ none)
              × (r ≡ sub_ℕ (length line) (m - length line))
              × ((length line ≡ m) ⊎ (v.incoming w' ≡ []))))

module _ {W : Type 0} (k : Kernel W) (v : View W) (laws : Laws k v) where
  abbrev Ends : ℕ → W → Option (ℤ × List ℕ × W) → Type 0
  Ends m w out =
      (r : ℤ) × (line : List ℕ) × (w' : W) × (out ≡ some (r, line, w')) × Line v m w r line w'

  -- The `readn` of bytes that were peeked leaves them in the buffer as they are.
  read_n-peeked :
      (inner sz : ℕ) (peeked : List ℕ) (w : W)
      → v.patience w + sz ≤ inner
      → sz ≤ length peeked
      → peeked ≡ take (length peeked) (v.incoming w)
      → (r : ℤ) × (got : List ℕ) × (w' : W) × (read_n k inner (pos sz) w ≡ some (r, got, w'))
        × (overlay got peeked ≡ peeked)
        × (v.patience w' ≤ v.patience w)
        × (v.errors w ≤ v.errors w')
  read_n-peeked inner sz peeked w h le e =
      let (r, got, w', run, t) = read_n-Took k v laws inner sz w h in
      (
        r,
        got,
        w',
        run,
        overlay-prefix got (v.incoming w') peeked (omega (arith, t)) (rw (← t.order) e),
        t.calmer,
        counted t.outcome,
      )
    where
      counted :
          {r : ℤ} {w' : W} {A B : Type 0}
          → ((r ≡ negsuc 0) × (v.errors w' ≡ suc (v.errors w)))
            ⊎ (A × (v.errors w' ≡ v.errors w) × B)
          → v.errors w ≤ v.errors w'
      counted (inl (e, n)) = omega (arith, n)
      counted (inr (a, n, b)) = omega (arith, n)

  -- What holds from a state on holds from an earlier one.
  Ends-from :
      (m : ℕ) (w0 w : W) (out : Option (ℤ × List ℕ × W))
      → v.errors w0 ≤ v.errors w
      → Ends m w out
      → Ends m w0 out
  Ends-from m w0 w out le (r, line, w', run, l) =
      (r, line, w', run, record { in_bounds = l.in_bounds; outcome = from l.outcome })
    where
      from :
          {B : Type 0}
          → ((r ≡ negsuc 0) × (v.errors w < v.errors w')) ⊎ B
          → ((r ≡ negsuc 0) × (v.errors w0 < v.errors w')) ⊎ B
      from (inl (e, n)) = inl (e, omega (arith, n, le))
      from (inr b) = inr b

  -- No '\n' among the peeked bytes: they are read, and the loop goes on.
  line_more-Ends :
      (fuel inner m l : ℕ) (line peeked : List ℕ) (w : W)
      → newline_at line ≡ none
      → newline_at peeked ≡ none
      → length line + suc l ≡ m
      → 0 < length peeked
      → length peeked ≤ suc l
      → v.patience w + suc l ≤ suc fuel
      → v.patience w + m ≤ inner
      → ((left total : ℕ) (line : List ℕ) (w : W)
          → newline_at line ≡ none
          → length line + left ≡ m
          → total ≡ length line
          → v.patience w + left ≤ fuel
          → v.patience w + m ≤ inner
          → Ends m w (line_loop k fuel inner left total line w))
      → peeked ≡ take (length peeked) (v.incoming w)
      → Ends m w (
          line_more
            (line_loop k fuel inner)
            (suc l)
            (length line)
            line
            peeked
            (read_n k inner (pos (length peeked)) w))
  unfolding line_more
  line_more-Ends fuel inner m l line peeked w hx hy e some_bytes fit h hi ih pre =
      let (r, got, w2, run, same, calm, more) =
        read_n-peeked inner (length peeked) peeked w (omega arith) (omega arith) pre in
      rw (run, line_more, same)
        (Ends-from m w w2 _ more (
          ih (suc l - length peeked) (length line + length peeked) (line ++ peeked) w2
            (newline_at-append_none line peeked hx hy) (omega (arith, length-append line peeked))
            (sym (length-append line peeked)) (omega arith) (omega arith)))

  -- A '\n' among them: they are read up to it, and the result is the number of bytes of the line.
  line_end-Ends :
      (inner m l : ℕ) (line peeked : List ℕ) (w : W) (i : ℕ)
      → newline_at line ≡ none
      → newline_at peeked ≡ some i
      → length line + suc l ≡ m
      → length peeked ≤ suc l
      → v.patience w + m ≤ inner
      → peeked ≡ take (length peeked) (v.incoming w)
      → Ends m w (line_end (length line) line peeked (i + 1) (read_n k inner (pos (i + 1)) w))
  unfolding line_end
  line_end-Ends inner m l line peeked w i hx hy e fit hi pre =
      let (lt, cut) = newline_at-take peeked i hy in
      let (r, got, w2, run, same, calm, more) =
        read_n-peeked inner (i + 1) peeked w (omega arith) (omega arith) pre in
      let size : length (line ++ take (i + 1) peeked) ≡ length line + (i + 1) =
        length-append line (take (i + 1) peeked)
        ∙ ap (λ n. length line + n) (omega (arith, length-take (i + 1) peeked)) in
      (
        pos (length line + (i + 1)),
        line ++ take (i + 1) peeked,
        w2,
        rw (run, line_end, same),
        record {
          in_bounds = omega (arith, size);
          outcome = inr (
              inl (
                length line + i,
                newline_at-append_some line (take (i + 1) peeked) i hx (rw (add-one i) cut),
                omega (arith, size),
                ap pos (sym size),
              ));
        },
      )

  line_turn-Ends :
      (fuel inner m l : ℕ) (line : List ℕ) (w : W) (a : Received × W)
      → newline_at line ≡ none
      → length line + suc l ≡ m
      → v.patience w + suc l ≤ suc fuel
      → v.patience w + m ≤ inner
      → ((left total : ℕ) (line : List ℕ) (w : W)
          → newline_at line ≡ none
          → length line + left ≡ m
          → total ≡ length line
          → v.patience w + left ≤ fuel
          → v.patience w + m ≤ inner
          → Ends m w (line_loop k fuel inner left total line w))
      → PeekOk v w (suc l) a
      → Ends m w (line_turn (line_loop k fuel inner) k inner (suc l) (length line) line a)
  unfolding line_turn
  line_turn-Ends fuel inner m l line w (Received.interrupted, w') none_yet e h hi ih ok =
      Ends-from m w w' _ (omega (arith, ok.3))
        (ih (suc l) (length line) line w' none_yet e refl (omega (arith, ok)) (omega (arith, ok)))
  line_turn-Ends fuel inner m l line w (Received.failed, w') none_yet e h hi ih ok = (
    negsuc 0,
    line,
    w',
    refl,
    record { in_bounds = omega arith; outcome = inl (refl, omega (arith, ok.3)) },
  )
  line_turn-Ends fuel inner m l line w (bytes [], w') none_yet e h hi ih ok = (
    sub_ℕ (length line) (suc l),
    line,
    w',
    refl,
    record {
      in_bounds = omega arith;
      outcome =
          inr (inr (none_yet, ap (sub_ℕ (length line)) (omega arith), inr (ok.6 refl (λ q. cc))));
    },
  )
  line_turn-Ends fuel inner m l line w (bytes (b ∷ bs), w') none_yet e h hi ih ok =
      elim (Option-cases (newline_at (b ∷ bs))) [
        | inl q ↦ rw q (
            unfold line_bytes in
            Ends-from m w w' _ (omega (arith, ok.4)) (
              line_more-Ends fuel inner m l line (b ∷ bs) w' none_yet q e (omega arith) ok.0
                (omega (arith, ok)) (omega (arith, ok)) ih (rw ok.1 ok.5)))
        | inr (i, q) ↦ rw q (
            unfold line_bytes in
            Ends-from m w w' _ (omega (arith, ok.4)) (
              line_end-Ends inner m l line (b ∷ bs) w' i none_yet q e ok.0 (omega (arith, ok))
                (rw ok.1 ok.5)))
      ]

  line_loop-Ends :
      (fuel inner m left total : ℕ) (line : List ℕ) (w : W)
      → newline_at line ≡ none
      → length line + left ≡ m
      → total ≡ length line
      → v.patience w + left ≤ fuel
      → v.patience w + m ≤ inner
      → Ends m w (line_loop k fuel inner left total line w)
  unfolding line_loop
  line_loop-Ends fuel inner m zero total line w none_yet e t h hi = (
    sub_ℕ total 0,
    line,
    w,
    refl,
    record {
      in_bounds = omega arith;
      outcome = inr (inr (none_yet, ground arith, inl (omega arith)));
    },
  )
  line_loop-Ends zero inner m (suc l) total line w none_yet e t h hi = absurd (omega arith)
  line_loop-Ends (suc fuel) inner m (suc l) total line w none_yet e t h hi = rw t (
      line_turn-Ends fuel inner m l line w (k.peek w (suc l)) none_yet e h hi
        (λ left total line w. line_loop-Ends fuel inner m left total line w)
        (laws.peek_ok w (suc l)))

  pub read_line-Line :
      (fuel inner m : ℕ) (w : W)
      → v.patience w + m ≤ fuel
      → v.patience w + m ≤ inner
      → (r : ℤ) × (line : List ℕ) × (w' : W) × (read_line k fuel inner (pos (suc m)) w
          ≡ some (r, line, w'))
        × Line v m w r line w'
  unfolding read_line newline_at
  read_line-Line fuel inner m w h hi =
      line_loop-Ends fuel inner m m 0 [] w refl (omega arith) refl h hi
