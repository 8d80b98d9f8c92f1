-- ===== src/Web/Wire.antt =====
-- The wire form of the messages: what the methods of httppart/UserSign.pb.cc and
-- httppart/FileManager.pb.cc share. The functions of the protobuf library that they call are the
-- record `WireFormat`; a stream is the bytes that are written, or that are still to be read.
pub mod UserSign
pub mod UserRet
pub mod DirInfo
pub mod DirRet
pub mod Codec
pub mod Laws
pub mod Bytes
pub mod Sizes
pub mod Fields
pub mod Turns
pub mod Parse
pub mod RoundTrip
pub mod Ending
pub mod Sample
pub mod Tests
use filedisk_server.Common.{
  ℕ, zero, suc, Bool, true, false, ◌&&◌, Option, none, some, List, [], length, ltb, ◌==◌,
  if◌then◌else◌,
}
use filedisk_server.Common.Int.{ℤ, pos}
use filedisk_server.Common.Runs.{Text}

-- `U` holds the fields of a message that its type does not know. The readers give what stands in the
-- variable afterwards, and the bytes that are left; the Boolean says whether they have read a value.
-- With a tag they say whether it is in the range of the cutoff 127.
pub record WireFormat (U : Type 0) : Type 0 where
  pub read_tag : Text → ℕ × Bool × Text  -- ReadTagWithCutoffNoLastTag
  pub field_number : ℕ → ℕ  -- GetTagFieldNumber
  pub read_string : Text → Text → Bool × Text × Text
  pub read_int32 : ℤ → Text → Bool × ℤ × Text
  pub read_int64 : ℤ → Text → Bool × ℤ × Text
  pub verify_utf8_string : Text → Bool
  pub skip_field : ℕ → U → Text → Bool × U × Text
  pub write_string : ℕ → Text → Text → Text
  pub write_string_to_array : ℕ → Text → Text → Text
  pub write_int32 : ℕ → ℤ → Text → Text
  pub write_int32_to_array : ℕ → ℤ → Text → Text
  pub write_int64 : ℕ → ℤ → Text → Text
  pub write_int64_to_array : ℕ → ℤ → Text → Text
  pub string_size : Text → ℕ
  pub int32_size : ℤ → ℕ
  pub int64_size : ℤ → ℕ
  pub to_cached_size : ℕ → ℕ
  pub preserve_unknowns : Bool  -- GetProto3PreserveUnknownsDefault
  pub no_unknown : U
  pub have_unknown : U → Bool
  pub merge_unknown : U → U → U
  pub write_unknown : U → Text → Text
  pub write_unknown_to_array : U → Text → Text
  pub unknown_size : U → ℕ

-- An object of a message type: its fields, `_internal_metadata_` and `_cached_size_`.
pub record Stored (A U : Type 0) : Type 0 where
  pub fields : A
  pub unknown : U
  pub cached_size : ℕ

-- Where a case of the `switch` in `MergePartialFromCodedStream` leads to.
pub data Turn (A U : Type 0) : Type 0 where
  again : Stored A U → Text → Turn A U
  success : Stored A U → Text → Turn A U
  failure : Stored A U → Text → Turn A U

-- `if (x.size() > 0)` and `if (x != 0)`.
abbrev pub non_empty : Text → Bool
non_empty s = ltb 0 (length s)

abbrev pub is_nonzero : ℤ → Bool
is_nonzero (pos zero) = false
is_nonzero _ = true

abbrev pub write_if : Bool → (Text → Text) → Text → Text
write_if test write out = if test then write out else out

abbrev pub size_if : Bool → ℕ → ℕ
size_if test size = if test then size else 0

module _ {U : Type 0} (lib : WireFormat U) where
  module _ {A : Type 0} where
    -- `DO_` of `ReadPrimitive`, and of `SkipField`.
    abbrev pub read_step : {V : Type 0} → (V → Stored A U) → Bool × V × Text → Turn A U
    read_step put (done, value, rest) =
        if done then again (put value) rest else failure (put value) rest

    -- `DO_` of `ReadString`, and of `VerifyUtf8String`.
    abbrev pub text_step : (Text → Stored A U) → Bool × Text × Text → Turn A U
    text_step put (done, value, rest) =
        if done && lib.verify_utf8_string value
        then again (put value) rest
        else failure (put value) rest

    -- `handle_unusual`.
    unfoldable pub unusual : ℕ → Stored A U → Text → Turn A U
    unusual tag st input =
        if tag == 0
        then success st input
        else read_step (λ u. record st { unknown = u }) (lib.skip_field tag st.unknown input)

    abbrev pub after_turn :
        (Stored A U → Text → Option (Bool × Stored A U × Text))
        → Turn A U
        → Option (Bool × Stored A U × Text)
    after_turn go (again st rest) = go st rest
    after_turn go (success st rest) = some (true, st, rest)
    after_turn go (failure st rest) = some (false, st, rest)

    abbrev pub tag_turn :
        (ℕ → Stored A U → Text → Turn A U) → Stored A U → ℕ × Bool × Text → Turn A U
    tag_turn turn st (tag, in_range, rest) =
        if in_range then turn tag st rest else unusual tag st rest

    -- The loop of `MergePartialFromCodedStream`, with `turn` for its `switch`: what it returns, the
    -- object, and what is left of the input.
    unfoldable pub merge_loop :
        (ℕ → Stored A U → Text → Turn A U)
        → ℕ
        → Stored A U
        → Text
        → Option (Bool × Stored A U × Text)
    merge_loop turn zero st input = none
    merge_loop turn (suc fuel) st input =
        after_turn (merge_loop turn fuel) (tag_turn turn st (lib.read_tag input))

  abbrev pub writes_unknown : U → Bool
  writes_unknown u = lib.have_unknown u && lib.preserve_unknowns

  abbrev pub known_or_none : U → U
  known_or_none u = if lib.preserve_unknowns then u else lib.no_unknown
