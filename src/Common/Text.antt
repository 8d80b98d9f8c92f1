-- ===== src/Common/Text.antt =====
-- Texts as lists of bytes: decimal numerals, written as `std::to_string` does and read as the `strto`
-- functions do, and C strings.
pub mod Decimal
use Prim.Native.Char.{code}
use Prim.Native.String.{String}
use filedisk_server.Common.Tests.{ltb, leb, ◌==◌, if◌then◌else◌}
use filedisk_server.Common.Int.{ℤ, pos, negsuc, sub_ℕ, bits, narrow}
use Prim.Native.Nat.{ℕ, zero, suc, ◌+◌, ◌-◌, ◌*◌, ◌/◌, ◌%◌, ◌^◌}
use mathlib.Core.Bool.{Bool, true, false, ◌&&◌, ◌||◌}
use mathlib.Core.Option
use mathlib.Core.Option.{Option, none, some}
use mathlib.Core.List.{List, [], ◌∷◌, ◌++◌}

-- A literal as its bytes.
abbrev pub bytes_of : String → List ℕ
bytes_of String.[] = []
bytes_of (String.◌∷◌ c s) = code c ∷ bytes_of s

-- The decimal digits of `n`, which has at most `fuel` of them.
pub digits_of : ℕ → ℕ → List ℕ
digits_of zero n = []
digits_of (suc fuel) n =
    let rest = digits_of fuel (n / 10) ++ ((48 + n % 10) ∷ []) in
    if ltb n 10 then (48 + n) ∷ [] else rest

-- `to_string(unsigned long long)`: 2 ^ 64 has twenty digits.
unfoldable pub to_string : ℕ → List ℕ
unfolding digits_of
to_string n = digits_of 20 n

-- `to_string(long long)` and `to_string(int)`
unfoldable pub to_string_ℤ : ℤ → List ℕ
unfolding to_string
to_string_ℤ (pos n) = to_string n
to_string_ℤ (negsuc n) = b'-' ∷ to_string (n + 1)

abbrev pub is_digit : ℕ → Bool
is_digit c = leb 48 c && leb c 57

abbrev is_space : ℕ → Bool
is_space c = c == 32 || (leb 9 c && leb c 13)

-- The value of the digits at the front, behind the value `acc` of the digits before them.
pub value_from : ℕ → List ℕ → ℕ
value_from acc [] = acc
value_from acc (c ∷ s) = elim (is_digit c) [
  | true ↦ value_from (acc * 10 + (c - 48)) s
  | false ↦ acc
]

pub scan_digits : Bool → List ℕ → Option (Bool × ℕ)
unfolding value_from
scan_digits neg [] = none
scan_digits neg (c ∷ s) = if is_digit c then some (neg, value_from 0 (c ∷ s)) else none

pub scan_sign : List ℕ → Option (Bool × ℕ)
unfolding scan_digits
scan_sign [] = none
scan_sign (c ∷ s) =
    if c == b'-'
    then scan_digits true s
    else if c == b'+'
    then scan_digits false s
    else scan_digits false (c ∷ s)

-- What `strtol` and its kin read: blanks, a sign, digits. `none`: there is no number.
pub scan : List ℕ → Option (Bool × ℕ)
unfolding scan_sign
scan [] = none
scan (c ∷ s) = if is_space c then scan s else scan_sign (c ∷ s)

pub to_u64 : Bool × ℕ → Option ℕ
to_u64 (neg, m) = if leb (2 ^ 64) m then none else some (if neg then (2 ^ 64 - m) % 2 ^ 64 else m)

-- `stoull`; `none` is an exception.
unfoldable pub stoull : List ℕ → Option ℕ
unfolding scan to_u64
stoull s = elim (scan s) [ none ↦ none | some r ↦ to_u64 r ]

pub to_int : Bool × ℕ → Option ℤ
to_int (true, m) = if leb m (2 ^ 31) then some (sub_ℕ 0 m) else none
to_int (false, m) = if ltb m (2 ^ 31) then some (pos m) else none

-- `stoi`; `none` is an exception.
unfoldable pub stoi : List ℕ → Option ℤ
unfolding scan to_int
stoi s = elim (scan s) [ none ↦ none | some r ↦ to_int r ]

pub to_wide : Option (Bool × ℕ) → ℤ
to_wide none = pos 0
to_wide (some (neg, m)) = if neg then sub_ℕ 0 m else pos m

-- `atoi`, for numbers that `long` holds, and `atoll` converted to `unsigned long long`.
unfoldable pub atoi : List ℕ → ℤ
unfolding scan to_wide narrow
atoi s = narrow (to_wide (scan s))

unfoldable pub atoll : List ℕ → ℕ
unfolding scan to_wide
atoll s = bits (2 ^ 64) (to_wide (scan s))

-- `string(p)` for a `char *p`: the bytes before the first 0; `none` where the buffer has no 0, and
-- the constructor reads on behind it.
unfoldable pub c_string : List ℕ → Option (List ℕ)
c_string [] = none
c_string (c ∷ s) = if c == 0 then some [] else Option.map (λ r. c ∷ r) (c_string s)
