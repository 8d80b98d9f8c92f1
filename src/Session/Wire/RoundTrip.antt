-- ===== src/Session/Wire/RoundTrip.antt =====
-- Reading a `fileheader` back from its bytes.
use filedisk_server.Common.{
  ℕ, zero, suc, ◌/◌, ◌^◌, ◌<◌, ◌≡◌, refl, ◌∙◌, sym, ap, append-nil, not, List, [], ◌++◌, length,
  take, drop, arith, take-length_append, drop-length_append, append_assoc, length-append, ◌==◌,
}
use filedisk_server.Common.Int.{ℤ, pos, negsuc, signed32, signed64, bits}
use native.Mathlib.Nat.{pow-suc}
use filedisk_server.Session.Wire.{
  le_bytes, from_le, bool_bytes, FileHeader, read_fileheader, fileheader_bytes,
}

length-le_bytes : (w n : ℕ) → length (le_bytes w n) ≡ w
unfolding le_bytes
length-le_bytes zero n = refl
length-le_bytes (suc w) n = ap suc (length-le_bytes w (n / 256))

from_le-le_bytes : (w n : ℕ) → n < 256 ^ w → from_le (le_bytes w n) ≡ n
unfolding le_bytes from_le
from_le-le_bytes zero n h = omega arith
from_le-le_bytes (suc w) n h =
    omega (arith, from_le-le_bytes w (n / 256) (omega (arith, pow-suc 256 w)))

-- The values that a `long long` and an `int` can have.
abbrev pub IsLong : ℤ → Type 0
IsLong (pos n) = n < 2 ^ 63
IsLong (negsuc n) = n < 2 ^ 63

abbrev pub IsInt : ℤ → Type 0
IsInt (pos n) = n < 2 ^ 31
IsInt (negsuc n) = n < 2 ^ 31

signed64-bits : (z : ℤ) → IsLong z → (bits (2 ^ 64) z < 256 ^ 8) × (signed64 (bits (2 ^ 64) z) ≡ z)
signed64-bits (pos n) h = ground arith
signed64-bits (negsuc n) h = ground arith

signed32-bits : (z : ℤ) → IsInt z → (bits (2 ^ 32) z < 256 ^ 4) × (signed32 (bits (2 ^ 32) z) ≡ z)
signed32-bits (pos n) h = ground arith
signed32-bits (negsuc n) h = ground arith

-- A field of `n` bytes at offset `k`.
field_at :
    (k n : ℕ) (before field after : List ℕ)
    → length before ≡ k
    → length field ≡ n
    → take n (drop k (before ++ (field ++ after))) ≡ field
field_at k n before field after hk hn =
    ap (λ j. take n (drop j (before ++ (field ++ after)))) (sym hk)
    ∙ ap (take n) (drop-length_append before (field ++ after))
    ∙ ap (λ j. take j (field ++ after)) (sym hn)
    ∙ take-length_append field after

module _ (h : FileHeader) (padding : List ℕ) (digest : length h.md5 ≡ 16)
    (pad : length padding ≡ 3) where
  abbrev d : List ℕ
  d = le_bytes 8 (bits (2 ^ 64) h.dirid)

  abbrev x : List ℕ
  x = le_bytes 4 (bits (2 ^ 32) h.index)

  abbrev l : List ℕ
  l = le_bytes 8 (bits (2 ^ 64) h.filelen)

  abbrev u : List ℕ
  u = bool_bytes h.upload

  abbrev rest3 : List ℕ
  rest3 = padding ++ l

  abbrev rest2 : List ℕ
  rest2 = u ++ rest3

  abbrev rest1 : List ℕ
  rest1 = x ++ rest2

  abbrev dm : List ℕ
  dm = d ++ h.md5

  abbrev dmx : List ℕ
  dmx = dm ++ x

  abbrev dmxu : List ℕ
  dmxu = dmx ++ u

  abbrev dmxup : List ℕ
  dmxup = dmxu ++ padding

  length-u : length u ≡ 1
  unfolding bool_bytes
  length-u = refl

  sizes : (length dm ≡ 24) × (length dmx ≡ 28) × (length dmxu ≡ 29) × (length dmxup ≡ 32)
  sizes = omega (
    arith,
    digest,
    pad,
    length-u,
    length-append d h.md5,
    length-append dm x,
    length-append dmx u,
    length-append dmxu padding,
    length-le_bytes 8 (bits (2 ^ 64) h.dirid),
    length-le_bytes 4 (bits (2 ^ 32) h.index),
  )

  bytes_dm : fileheader_bytes h padding ≡ dm ++ rest1
  unfolding fileheader_bytes
  bytes_dm = sym (append_assoc d h.md5 rest1)

  bytes_dmx : fileheader_bytes h padding ≡ dmx ++ rest2
  bytes_dmx = bytes_dm ∙ sym (append_assoc dm x rest2)

  bytes_dmxu : fileheader_bytes h padding ≡ dmxu ++ rest3
  bytes_dmxu = bytes_dmx ∙ sym (append_assoc dmx u rest3)

  bytes_dmxup : fileheader_bytes h padding ≡ dmxup ++ (l ++ [])
  bytes_dmxup =
      bytes_dmxu ∙ sym (append_assoc dmxu padding l) ∙ ap (λ t. dmxup ++ t) (sym (append-nil l))

  dirid_at : take 8 (fileheader_bytes h padding) ≡ d
  unfolding fileheader_bytes
  dirid_at = field_at 0 8 [] d (h.md5 ++ rest1) refl (length-le_bytes 8 (bits (2 ^ 64) h.dirid))

  md5_at : take 16 (drop 8 (fileheader_bytes h padding)) ≡ h.md5
  unfolding fileheader_bytes
  md5_at = field_at 8 16 d h.md5 rest1 (length-le_bytes 8 (bits (2 ^ 64) h.dirid)) digest

  index_at : take 4 (drop 24 (fileheader_bytes h padding)) ≡ x
  index_at = rw bytes_dm (field_at 24 4 dm x rest2 sizes.0 (length-le_bytes 4 _))

  upload_at : take 1 (drop 28 (fileheader_bytes h padding)) ≡ u
  upload_at = rw bytes_dmx (field_at 28 1 dmx u rest3 sizes.1 length-u)

  filelen_at : take 8 (drop 32 (fileheader_bytes h padding)) ≡ l
  filelen_at = rw bytes_dmxup (field_at 32 8 dmxup l [] sizes.3 (length-le_bytes 8 _))

  upload_flag : not (from_le u == 0) ≡ h.upload
  unfolding from_le bool_bytes
  upload_flag = ground arith

  length-fileheader_bytes : length (fileheader_bytes h padding) ≡ 40
  length-fileheader_bytes =
      ap length bytes_dmxup
      ∙ length-append dmxup (l ++ [])
      ∙ omega (arith, sizes, length-append l [], length-le_bytes 8 (bits (2 ^ 64) h.filelen))

  -- A `fileheader` with a digest of 16 bytes takes `sizeof(fileheader)` bytes, whatever the padding
  -- holds, and the receiver that overlays its structure on them reads the same five fields.
  pub read_fileheader-bytes :
      IsLong h.dirid
      → IsInt h.index
      → IsLong h.filelen
      → (length (fileheader_bytes h padding) ≡ 40)
        × (read_fileheader (fileheader_bytes h padding) ≡ h)
  unfolding read_fileheader
  read_fileheader-bytes hd hx hl = (
    length-fileheader_bytes,
    λ i. record {
      dirid =
          (ap (λ t. signed64 (from_le t)) dirid_at
              ∙ ap signed64 (from_le-le_bytes 8 _ (signed64-bits h.dirid hd).0)
              ∙ (signed64-bits h.dirid hd).1)
            i;
      md5 = md5_at i;
      index =
          (ap (λ t. signed32 (from_le t)) index_at
              ∙ ap signed32 (from_le-le_bytes 4 _ (signed32-bits h.index hx).0)
              ∙ (signed32-bits h.index hx).1)
            i;
      upload = (ap (λ t. not (from_le t == 0)) upload_at ∙ upload_flag) i;
      filelen =
          (ap (λ t. signed64 (from_le t)) filelen_at
              ∙ ap signed64 (from_le-le_bytes 8 _ (signed64-bits h.filelen hl).0)
              ∙ (signed64-bits h.filelen hl).1)
            i;
    },
  )
