-- ===== src/Web/Wire/Sizes.antt =====
-- Both serializers write the same bytes, and `ByteSizeLong` counts them.
use filedisk_server.Common.{
  ℕ, ◌+◌, ◌%◌, ◌<◌, ◌^◌, ◌≡◌, refl, sym, ap, ◌∙◌, Bool, true, false, ◌++◌, length, length-append,
  arith,
}
use filedisk_server.Common.Int.{ℤ}
use filedisk_server.Common.Runs.{Text}
use filedisk_server.Web.Wire.{
  WireFormat, Stored, non_empty, is_nonzero, size_if, writes_unknown, known_or_none,
}
use filedisk_server.Web.Wire.UserSign
use filedisk_server.Web.Wire.UserRet
use filedisk_server.Web.Wire.DirInfo
use filedisk_server.Web.Wire.DirRet
use filedisk_server.Web.Wire.Codec.{
  Kind, sign, ret, info, answer, Fields, serialize, serialize_to_array, byte_size,
}
use filedisk_server.Web.Wire.Laws.{Bodies, Writes}
use filedisk_server.Web.Wire.Bytes.{
  bytes_if, text_bytes, int32_bytes, int64_bytes, unknown_bytes, message_bytes, serialize-Adds,
  serialize_to_array-Adds,
}

size_if-length :
    (test : Bool) (size : ℕ) (body : Text)
    → size ≡ length body
    → size_if test size ≡ length (bytes_if test body)
size_if-length true size body e = e
size_if-length false size body e = refl

module _ {U : Type 0} (lib : WireFormat U) (b : Bodies U) (laws : Writes lib b) where
  text_sized :
      (n : ℕ) (s : Text)
      → size_if (non_empty s) (1 + lib.string_size s) ≡ length (text_bytes lib b n s)
  text_sized n s = size_if-length (non_empty s) _ _ (omega (arith, laws.string_sized s))

  int32_sized :
      (n : ℕ) (v : ℤ)
      → size_if (is_nonzero v) (1 + lib.int32_size v) ≡ length (int32_bytes lib b n v)
  int32_sized n v = size_if-length (is_nonzero v) _ _ (omega (arith, laws.int32_sized v))

  int64_sized :
      (n : ℕ) (v : ℤ)
      → size_if (is_nonzero v) (1 + lib.int64_size v) ≡ length (int64_bytes lib b n v)
  int64_sized n v = size_if-length (is_nonzero v) _ _ (omega (arith, laws.int64_sized v))

  unknown_sized :
      (u : U)
      → size_if (writes_unknown lib u) (lib.unknown_size (known_or_none lib u))
        ≡ length (unknown_bytes lib b u)
  unknown_sized u =
      size_if-length (writes_unknown lib u) _ _ (laws.unknown_sized (known_or_none lib u))

  sized3 :
      {u a b c : ℕ} (xs ys zs us : Text)
      → u ≡ length us
      → a ≡ length xs
      → b ≡ length ys
      → c ≡ length zs
      → u + a + b + c ≡ length (xs ++ (ys ++ (zs ++ us)))
  sized3 xs ys zs us eu ea eb ec = omega (
    arith,
    eu,
    ea,
    eb,
    ec,
    length-append xs (ys ++ (zs ++ us)),
    length-append ys (zs ++ us),
    length-append zs us,
  )

  -- The number is written first, and counted last.
  number_last : (u a b c : ℕ) → u + a + b + c ≡ u + c + a + b
  number_last u a b c = omega arith

  byte_size-bytes :
      (k : Kind) (st : Stored (Fields k) U)
      → byte_size lib k st ≡ length (message_bytes lib b k st) % 2 ^ 64
  unfolding UserSign.byte_size UserRet.byte_size DirInfo.byte_size DirRet.byte_size
  byte_size-bytes sign st =
      ap (λ n. n % 2 ^ 64)
        (sized3 (text_bytes lib b 1 st.fields.username) (text_bytes lib b 2 st.fields.password)
          (text_bytes lib b 3 st.fields.uuid) (unknown_bytes lib b st.unknown)
          (unknown_sized st.unknown) (text_sized 1 st.fields.username)
          (text_sized 2 st.fields.password) (text_sized 3 st.fields.uuid))
  byte_size-bytes ret st =
      ap (λ n. n % 2 ^ 64)
        (number_last _ _ _ _
          ∙ sized3 (int32_bytes lib b 1 st.fields.code) (text_bytes lib b 2 st.fields.msg)
              (text_bytes lib b 3 st.fields.uuid) (unknown_bytes lib b st.unknown)
              (unknown_sized st.unknown) (int32_sized 1 st.fields.code) (text_sized 2 st.fields.msg)
              (text_sized 3 st.fields.uuid))
  byte_size-bytes info st =
      ap (λ n. n % 2 ^ 64)
        (number_last _ _ _ _
          ∙ sized3 (int64_bytes lib b 1 st.fields.dirid) (text_bytes lib b 2 st.fields.name)
              (text_bytes lib b 3 st.fields.uuid) (unknown_bytes lib b st.unknown)
              (unknown_sized st.unknown) (int64_sized 1 st.fields.dirid)
              (text_sized 2 st.fields.name) (text_sized 3 st.fields.uuid))
  byte_size-bytes answer st =
      ap (λ n. n % 2 ^ 64)
        (omega (
          arith,
          unknown_sized st.unknown,
          int32_sized 1 st.fields.code,
          text_sized 2 st.fields.jsoninfo,
          length-append (int32_bytes lib b 1 st.fields.code)
              (text_bytes lib b 2 st.fields.jsoninfo ++ unknown_bytes lib b st.unknown),
          length-append (text_bytes lib b 2 st.fields.jsoninfo) (unknown_bytes lib b st.unknown),
        ))

  -- For a message of each of the four types, `SerializeWithCachedSizes` and
  -- `InternalSerializeWithCachedSizesToArray` write the same bytes behind what is there, fields of
  -- unknown numbers included, and `ByteSizeLong` is the number of these bytes, if that is below
  -- 2 ^ 64.
  pub serialize-byte_size :
      (k : Kind) (st : Stored (Fields k) U) (out : Text)
      → length (serialize_to_array lib k st out) < 2 ^ 64
      → (serialize lib k st out ≡ serialize_to_array lib k st out)
        × (length (serialize_to_array lib k st out) ≡ length out + byte_size lib k st)
  serialize-byte_size k st out small =
      let e = (serialize_to_array-Adds lib b laws k st).adds out in
      (
        (serialize-Adds lib b laws k st).adds out ∙ sym e,
        omega (
          arith,
          small,
          ap length e,
          length-append out (message_bytes lib b k st),
          byte_size-bytes k st,
        ),
      )
