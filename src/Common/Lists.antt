-- ===== src/Common/Lists.antt =====
-- Lists measured and indexed by native numbers, under the library's names, and what it means to
-- write bytes over the front of a buffer.
use Prim.Native.Nat.{ℕ, zero, suc, ◌+◌, ◌-◌, ◌≤◌, min}
use mathlib.Core.Path.{◌≡◌, refl, ap}
use mathlib.Core.Logic.{◌⊎◌}
use mathlib.Core.Bool.{Bool, true, false, ◌&&◌}
use mathlib.Core.List.{List, [], ◌∷◌, ◌++◌}
use mathlib.Core.Option.{Option, none, some}
use native.Mathlib.Omega.{arith}
use filedisk_server.Common.Tests.{◌==◌}

module _ {ℓ} {A : Type ℓ} where
  abbrev pub length : List A → ℕ
  length [] = 0
  length (x ∷ xs) = suc (length xs)

  abbrev pub get_elem? : List A → ℕ → Option A
  get_elem? [] i = none
  get_elem? (x ∷ xs) zero = some x
  get_elem? (x ∷ xs) (suc i) = get_elem? xs i

  abbrev pub take : ℕ → List A → List A
  take zero xs = []
  take (suc n) [] = []
  take (suc n) (x ∷ xs) = x ∷ take n xs

  abbrev pub drop : ℕ → List A → List A
  drop zero xs = xs
  drop (suc n) [] = []
  drop (suc n) (x ∷ xs) = drop n xs

  abbrev pub replicate : ℕ → A → List A
  replicate zero a = []
  replicate (suc n) a = a ∷ replicate n a

  abbrev pub All {κ} : (A → Type κ) → List A → Type κ
  All P [] = Unit
  All P (x ∷ xs) = P x × All P xs

  -- The buffer `buf` after `bytes` have been written from its start on.
  abbrev pub overlay : List A → List A → List A
  overlay [] buf = buf
  overlay (x ∷ xs) [] = x ∷ xs
  overlay (x ∷ xs) (b ∷ buf) = x ∷ overlay xs buf

  pub length-append : (xs ys : List A) → length (xs ++ ys) ≡ length xs + length ys
  length-append [] ys = omega arith
  length-append (x ∷ xs) ys = omega (arith, length-append xs ys)

  pub length-take : (n : ℕ) (xs : List A) → length (take n xs) ≡ min n (length xs)
  length-take zero xs = omega arith
  length-take (suc n) [] = omega arith
  length-take (suc n) (x ∷ xs) = omega (arith, length-take n xs)

  pub length-drop : (n : ℕ) (xs : List A) → length (drop n xs) ≡ length xs - n
  length-drop zero xs = omega arith
  length-drop (suc n) [] = omega arith
  length-drop (suc n) (x ∷ xs) = omega (arith, length-drop n xs)

  length-replicate : (n : ℕ) (a : A) → length (replicate n a) ≡ n
  length-replicate zero a = refl
  length-replicate (suc n) a = ap suc (length-replicate n a)

  pub take-append-drop : (n : ℕ) (xs : List A) → take n xs ++ drop n xs ≡ xs
  take-append-drop zero xs = refl
  take-append-drop (suc n) [] = refl
  take-append-drop (suc n) (x ∷ xs) = ap (λ l. x ∷ l) (take-append-drop n xs)

  pub take-length_append : (xs ys : List A) → take (length xs) (xs ++ ys) ≡ xs
  take-length_append [] ys = refl
  take-length_append (x ∷ xs) ys = ap (λ l. x ∷ l) (take-length_append xs ys)

  pub drop-length_append : (xs ys : List A) → drop (length xs) (xs ++ ys) ≡ ys
  drop-length_append [] ys = refl
  drop-length_append (x ∷ xs) ys = drop-length_append xs ys

  length-eq-zero : (xs : List A) → length xs ≡ 0 → xs ≡ []
  length-eq-zero [] h = refl
  length-eq-zero (x ∷ xs) h = absurd (omega arith)

  -- Bytes that fit do not change the size of the buffer.
  length-overlay : (xs buf : List A) → length xs ≤ length buf → length (overlay xs buf) ≡ length buf
  length-overlay [] buf h = refl
  length-overlay (x ∷ xs) [] h = absurd (omega arith)
  length-overlay (x ∷ xs) (b ∷ buf) h = ap suc (length-overlay xs buf (omega arith))

  -- Bytes that fill the buffer replace all of it.
  pub overlay-full : (xs buf : List A) → length xs ≡ length buf → overlay xs buf ≡ xs
  overlay-full [] [] h = refl
  overlay-full [] (b ∷ buf) h = absurd (omega arith)
  overlay-full (x ∷ xs) [] h = refl
  overlay-full (x ∷ xs) (b ∷ buf) h = ap (λ l. x ∷ l) (overlay-full xs buf (omega arith))

  pub All-append {κ} : (P : A → Type κ) (xs ys : List A) → All P xs → All P ys → All P (xs ++ ys)
  All-append P [] ys hx hy = hy
  All-append P (x ∷ xs) ys hx hy = (hx.0, All-append P xs ys hx.1 hy)

-- Equality of two byte strings.
abbrev pub eq_bytes : List ℕ → List ℕ → Bool
eq_bytes [] [] = true
eq_bytes [] (y ∷ ys) = false
eq_bytes (x ∷ xs) [] = false
eq_bytes (x ∷ xs) (y ∷ ys) = x == y && eq_bytes xs ys

pub eq_bytes→eq : (xs ys : List ℕ) → eq_bytes xs ys ≡ true → xs ≡ ys
eq_bytes→eq [] [] h = refl
eq_bytes→eq [] (y ∷ ys) h = ground arith
eq_bytes→eq (x ∷ xs) [] h = ground arith
eq_bytes→eq (x ∷ xs) (y ∷ ys) h = ground (arith, eq_bytes→eq xs ys)

pub eq_bytes_refl : (xs : List ℕ) → eq_bytes xs xs ≡ true
eq_bytes_refl [] = refl
eq_bytes_refl (x ∷ xs) = ground (arith, eq_bytes_refl xs)

module _ {ℓ} {A : Type ℓ} where
  -- What `take n` and `drop n` give where the first `n` elements, or all there are, are known.
  pub take-split :
      (n : ℕ) (xs ys : List A)
      → length xs ≤ n
      → (length xs ≡ n) ⊎ (ys ≡ [])
      → (take n (xs ++ ys) ≡ xs) × (drop n (xs ++ ys) ≡ ys)
  take-split zero [] ys h c = (refl, refl)
  take-split (suc n) [] [] h c = (refl, refl)
  take-split (suc n) [] (y ∷ ys) h c = ground arith
  take-split zero (x ∷ xs) ys h c = absurd (omega arith)
  take-split (suc n) (x ∷ xs) ys h c = ground (arith, take-split n xs ys (omega arith))

-- Writing a prefix of what stands in the buffer changes nothing.
pub overlay-prefix {ℓ} :
    {A : Type ℓ} (got rest peeked : List A)
    → length got ≤ length peeked
    → peeked ≡ take (length peeked) (got ++ rest)
    → overlay got peeked ≡ peeked
overlay-prefix [] rest peeked h e = refl
overlay-prefix (x ∷ got) rest [] h e = absurd (omega arith)
overlay-prefix (x ∷ got) rest (p ∷ peeked) h e =
    ground (arith, overlay-prefix got rest peeked (omega arith))
