-- ===== src/Common/Int.antt =====
-- Signed integers over the native numbers, and the conversions of C++ between integer widths.
use Prim.Native.Nat.{ℕ, ◌-◌, ◌%◌, ◌^◌, ◌≤◌, ◌<◌}
use mathlib.Core.Path.{◌≡◌}
use native.Mathlib.Omega.{arith}
use filedisk_server.Common.Tests.{ltb, leb, if◌then◌else◌}

-- `negsuc n` is -(n + 1).
pub data ℤ : Type 0 where
  pos : ℕ → ℤ
  negsuc : ℕ → ℤ

-- a - b, as an integer.
abbrev pub sub_ℕ : ℕ → ℕ → ℤ
sub_ℕ a b = if leb b a then pos (a - b) else negsuc (b - a - 1)

-- The two's complement reading of the low 32 bits `w`, and of the low 64.
abbrev pub signed32 : ℕ → ℤ
signed32 w = if ltb w (2 ^ 31) then pos w else negsuc (2 ^ 32 - w - 1)

abbrev pub signed64 : ℕ → ℤ
signed64 w = if ltb w (2 ^ 63) then pos w else negsuc (2 ^ 64 - w - 1)

-- The two's complement bits of an integer, at a width whose modulus is `m`.
abbrev pub bits : ℕ → ℤ → ℕ
bits m (pos n) = n % m
bits m (negsuc n) = m - 1 - n % m

-- The implicit conversion of a `long long` argument to an `int` parameter.
unfoldable pub narrow : ℤ → ℤ
narrow z = signed32 (bits (2 ^ 32) z)

pub narrow-small : (n : ℕ) → n < 2 ^ 31 → narrow (pos n) ≡ pos n
unfolding narrow
narrow-small n h = ground arith

-- From 2 ^ 31 on the `int` is negative.
pub narrow-large : (n : ℕ) → 2 ^ 31 ≤ n → n < 2 ^ 32 → narrow (pos n) ≡ negsuc (2 ^ 32 - n - 1)
unfolding narrow
narrow-large n lo hi = ground arith
