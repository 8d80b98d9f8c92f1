-- ===== src/Web/Users/Salt.antt =====
-- The salts of `gen_salt`.
use filedisk_server.Common.{ℕ, zero, suc, ◌%◌, ◌<◌, ◌≡◌, refl, ap, length, All, arith}
use filedisk_server.Web.Library.{Library}
use filedisk_server.Web.Users.{charset, char_at, salt_loop, gen_salt}

-- A byte of the array, its final 0 included.
abbrev IsSaltByte : ℕ → Type 0
IsSaltByte b = (i : ℕ) × (i < length charset) × (b ≡ char_at charset i)

module _ {R Q G : Type 0} (l : Library R Q G) where
  salt_loop-IsSaltByte :
      (todo : ℕ) (g : G)
      → (length (salt_loop l todo g).0 ≡ todo) × All IsSaltByte (salt_loop l todo g).0
  unfolding salt_loop
  salt_loop-IsSaltByte zero g = (refl, tt)
  salt_loop-IsSaltByte (suc todo) g =
      let (n, g1) = l.rand g in
      let (len, all) = salt_loop-IsSaltByte todo g1 in
      (ap suc len, ((n % length charset, omega arith, refl), all))

  -- A salt has 16 bytes, each read from within the array, whatever the generator gives.
  gen_salt-IsSaltByte : (g : G) → (length (gen_salt l g).0 ≡ 16) × All IsSaltByte (gen_salt l g).0
  unfolding gen_salt
  gen_salt-IsSaltByte g = salt_loop-IsSaltByte 16 (l.seed g)
