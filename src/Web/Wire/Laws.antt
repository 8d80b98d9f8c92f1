-- ===== src/Web/Wire/Laws.antt =====
-- What the protobuf library documents of its wire format: a field is a tag, eight times its number
-- and the wire type, and then its value; a reader that meets the bytes of a writer gives the value
-- back, and no reader gives bytes back to the input.
use filedisk_server.Common.{
  ℕ, ◌+◌, ◌*◌, ◌≤◌, ◌<◌, ◌^◌, ◌≡◌, ◌≢◌, true, false, [], ◌∷◌, ◌++◌, length,
}
use filedisk_server.Common.Int.{ℤ}
use filedisk_server.Common.Runs.{Text}
use filedisk_server.Web.Wire.{WireFormat}
use filedisk_server.Web.Wire.Codec.{IsInt}

-- The bytes of a value behind its tag.
pub record Bodies (U : Type 0) : Type 0 where
  pub string_body : Text → Text
  pub int32_body : ℤ → Text
  pub int64_body : ℤ → Text
  pub unknown_body : U → Text

pub record Writes {U : Type 0} (lib : WireFormat U) (b : Bodies U) : Type 0 where
  pub string_bytes :
      (n : ℕ) (s out : Text)
      → 0 < n
      → n < 16
      → lib.write_string n s out ≡ out ++ ((8 * n + 2) ∷ b.string_body s)
  pub string_array :
      (n : ℕ) (s out : Text)
      → 0 < n
      → n < 16
      → lib.write_string_to_array n s out ≡ out ++ ((8 * n + 2) ∷ b.string_body s)
  pub int32_bytes :
      (n : ℕ) (v : ℤ) (out : Text)
      → 0 < n
      → n < 16
      → lib.write_int32 n v out ≡ out ++ ((8 * n) ∷ b.int32_body v)
  pub int32_array :
      (n : ℕ) (v : ℤ) (out : Text)
      → 0 < n
      → n < 16
      → lib.write_int32_to_array n v out ≡ out ++ ((8 * n) ∷ b.int32_body v)
  pub int64_bytes :
      (n : ℕ) (v : ℤ) (out : Text)
      → 0 < n
      → n < 16
      → lib.write_int64 n v out ≡ out ++ ((8 * n) ∷ b.int64_body v)
  pub int64_array :
      (n : ℕ) (v : ℤ) (out : Text)
      → 0 < n
      → n < 16
      → lib.write_int64_to_array n v out ≡ out ++ ((8 * n) ∷ b.int64_body v)
  pub unknown_bytes : (u : U) (out : Text) → lib.write_unknown u out ≡ out ++ b.unknown_body u
  pub unknown_array :
      (u : U) (out : Text) → lib.write_unknown_to_array u out ≡ out ++ b.unknown_body u
  pub string_sized : (s : Text) → lib.string_size s ≡ length (b.string_body s)
  pub int32_sized : (v : ℤ) → lib.int32_size v ≡ length (b.int32_body v)
  pub int64_sized : (v : ℤ) → lib.int64_size v ≡ length (b.int64_body v)
  pub unknown_sized : (u : U) → lib.unknown_size u ≡ length (b.unknown_body u)

pub record Reads {U : Type 0} (lib : WireFormat U) (b : Bodies U) : Type 0 where
  pub ends : lib.read_tag [] ≡ (0, false, [])
  pub tags : (t : ℕ) (rest : Text) → 8 ≤ t → t < 128 → lib.read_tag (t ∷ rest) ≡ (t, true, rest)
  pub numbers : (n w : ℕ) → w < 8 → lib.field_number (8 * n + w) ≡ n
  pub strings :
      (s old rest : Text)
      → length s < 2 ^ 31
      → lib.read_string old (b.string_body s ++ rest) ≡ (true, s, rest)
  pub int32s :
      (v old : ℤ) (rest : Text)
      → IsInt 31 v
      → lib.read_int32 old (b.int32_body v ++ rest) ≡ (true, v, rest)
  pub int64s :
      (v old : ℤ) (rest : Text)
      → IsInt 63 v
      → lib.read_int64 old (b.int64_body v ++ rest) ≡ (true, v, rest)
  pub merged : (u v : U) → lib.have_unknown v ≡ false → lib.merge_unknown u v ≡ u

-- What is left of the input after a reader.
pub record Consumes {U : Type 0} (lib : WireFormat U) : Type 0 where
  pub tag_shorter :
      (input : Text) → (lib.read_tag input).0 ≢ 0 → length (lib.read_tag input).2 < length input
  pub zero_number : lib.field_number 0 ≡ 0
  pub string_rest : (old input : Text) → length (lib.read_string old input).2 ≤ length input
  pub int32_rest : (old : ℤ) (input : Text) → length (lib.read_int32 old input).2 ≤ length input
  pub int64_rest : (old : ℤ) (input : Text) → length (lib.read_int64 old input).2 ≤ length input
  pub skip_rest :
      (tag : ℕ) (u : U) (input : Text) → length (lib.skip_field tag u input).2 ≤ length input
