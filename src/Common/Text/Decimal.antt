-- ===== src/Common/Text/Decimal.antt =====
-- Reading back a numeral that `std::to_string` wrote.
use Prim.Native.Nat.{ℕ, zero, suc, ◌+◌, ◌-◌, ◌*◌, ◌/◌, ◌%◌, ◌^◌, ◌<◌, ◌≤◌}
use native.Mathlib.Nat.{pow-suc}
use native.Mathlib.Omega.{arith}
use mathlib.Core.Path.{◌≡◌, refl, ◌∙◌, ap}
use mathlib.Core.Bool.{false}
use mathlib.Core.Logic.{◌≢◌, inl, inr}
use mathlib.Core.Option.{some}
use mathlib.Core.List.{List, [], ◌∷◌, ◌++◌}
use filedisk_server.Common.Tests.{ltb, Bool-cases}
use filedisk_server.Common.Lists.{All}
use filedisk_server.Common.Text.{
  digits_of, to_string, value_from, scan_digits, scan_sign, scan, to_u64, stoull,
}

abbrev IsDigit : ℕ → Type 0
IsDigit c = (48 ≤ c) × (c ≤ 57)

value_from-append :
    (acc : ℕ) (xs : List ℕ) (d : ℕ)
    → All IsDigit xs
    → d < 10
    → value_from acc (xs ++ ((48 + d) ∷ [])) ≡ value_from acc xs * 10 + d
unfolding value_from
value_from-append acc [] d h lt = ground arith
value_from-append acc (x ∷ xs) d h lt = ground (arith, value_from-append (acc * 10 + (x - 48)) xs d)

All-snoc : (xs : List ℕ) (d : ℕ) → All IsDigit xs → IsDigit d → All IsDigit (xs ++ (d ∷ []))
All-snoc [] d h k = (k, tt)
All-snoc (x ∷ xs) d h k = (h.0, All-snoc xs d h.1 k)

digits_of-IsDigit : (fuel n : ℕ) → All IsDigit (digits_of fuel n)
unfolding digits_of
digits_of-IsDigit zero n = tt
digits_of-IsDigit (suc fuel) n = elim (Bool-cases (ltb n 10)) [
  | inl small ↦ rw small (ground arith)
  | inr large ↦
      rw large
        (All-snoc (digits_of fuel (n / 10)) _ (digits_of-IsDigit fuel (n / 10)) (omega arith))
]

value_from-digits_of : (fuel n : ℕ) → n < 10 ^ fuel → value_from 0 (digits_of fuel n) ≡ n
unfolding digits_of
value_from-digits_of zero n h = unfold value_from in omega arith
value_from-digits_of (suc fuel) n h = elim (Bool-cases (ltb n 10)) [
  | inl small ↦ rw small (unfold value_from in ground arith)
  | inr large ↦ rw large (
      value_from-append 0 (digits_of fuel (n / 10)) (n % 10) (digits_of-IsDigit fuel (n / 10))
        (omega arith)
      ∙ omega (arith, value_from-digits_of fuel (n / 10) (omega (arith, pow-suc 10 fuel))))
]

-- A numeral begins with a digit, so no blank or sign is skipped.
scan-digits : (s : List ℕ) → All IsDigit s → s ≢ [] → scan s ≡ some (false, value_from 0 s)
unfolding scan scan_sign scan_digits
scan-digits [] h ne = absurd (ne refl)
scan-digits (x ∷ s) h ne = ground arith

snoc-ne : (xs : List ℕ) (d : ℕ) → xs ++ (d ∷ []) ≢ []
snoc-ne [] d e = cc
snoc-ne (x ∷ xs) d e = cc

digits_of-ne : (fuel n : ℕ) → digits_of (suc fuel) n ≢ []
unfolding digits_of
digits_of-ne fuel n = ground (arith, snoc-ne (digits_of fuel (n / 10)) (48 + n % 10))

scan-digits_of : (fuel n : ℕ) → n < 10 ^ suc fuel → scan (digits_of (suc fuel) n) ≡ some (false, n)
scan-digits_of fuel n h =
    scan-digits (digits_of (suc fuel) n) (digits_of-IsDigit (suc fuel) n) (digits_of-ne fuel n)
    ∙ ap (λ v. some (false, v)) (value_from-digits_of (suc fuel) n h)

-- `stoull` reads back every `unsigned long long` that `to_string` wrote.
pub stoull-to_string : (n : ℕ) → n < 2 ^ 64 → stoull (to_string n) ≡ some n
unfolding stoull to_string to_u64
stoull-to_string n h = rw (scan-digits_of 19 n (omega arith), stoull) (ground arith)
