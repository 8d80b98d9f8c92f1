-- ===== src/Web/Wire/Bytes.antt =====
-- The bytes that the serializers write.
use filedisk_server.Common.{
  ℕ, ◌+◌, ◌*◌, ◌<◌, ◌≡◌, sym, ap, ◌∙◌, Bool, true, false, [], ◌∷◌, ◌++◌, append_assoc, append-nil,
  arith, if◌then◌else◌,
}
use filedisk_server.Common.Int.{ℤ}
use filedisk_server.Common.Runs.{Text}
use filedisk_server.Web.Wire.{
  WireFormat, Stored, non_empty, is_nonzero, write_if, writes_unknown, known_or_none,
}
use filedisk_server.Web.Wire.UserSign
use filedisk_server.Web.Wire.UserRet
use filedisk_server.Web.Wire.DirInfo
use filedisk_server.Web.Wire.DirRet
use filedisk_server.Web.Wire.Codec.{
  Kind, sign, ret, info, answer, Fields, serialize, serialize_to_array,
}
use filedisk_server.Web.Wire.Laws.{Bodies, Writes}

-- A writer that adds the bytes `body`, if it is called at all.
abbrev pub bytes_if : Bool → Text → Text
bytes_if test body = if test then body else []

-- A writer that adds the bytes `body` to what is there.
pub record Adds (write : Text → Text) (body : Text) : Type 0 where
  pub adds : (out : Text) → write out ≡ out ++ body

if-Adds :
    (test : Bool) {write : Text → Text} {body : Text}
    → Adds write body
    → Adds (write_if test write) (bytes_if test body)
if-Adds true h = h
if-Adds false h = record { adds = λ out. sym (append-nil out) }

then-Adds :
    {write1 write2 : Text → Text} {body1 body2 : Text}
    → Adds write1 body1
    → Adds write2 body2
    → Adds (λ out. write2 (write1 out)) (body1 ++ body2)
then-Adds {write1} {write2} {body1} {body2} h1 h2 = record {
  adds = λ out. ap write2 (h1.adds out) ∙ h2.adds (out ++ body1) ∙ append_assoc out body1 body2;
}

module _ {U : Type 0} (lib : WireFormat U) (b : Bodies U) where
  abbrev pub text_bytes : ℕ → Text → Text
  text_bytes n s = bytes_if (non_empty s) ((8 * n + 2) ∷ b.string_body s)

  abbrev pub int32_bytes : ℕ → ℤ → Text
  int32_bytes n v = bytes_if (is_nonzero v) ((8 * n) ∷ b.int32_body v)

  abbrev pub int64_bytes : ℕ → ℤ → Text
  int64_bytes n v = bytes_if (is_nonzero v) ((8 * n) ∷ b.int64_body v)

  abbrev pub unknown_bytes : U → Text
  unknown_bytes u = bytes_if (writes_unknown lib u) (b.unknown_body (known_or_none lib u))

  -- The bytes of a message.
  abbrev pub message_bytes : (k : Kind) → Stored (Fields k) U → Text
  message_bytes sign st =
      text_bytes 1 st.fields.username
      ++ (text_bytes 2 st.fields.password
          ++ (text_bytes 3 st.fields.uuid ++ unknown_bytes st.unknown))
  message_bytes ret st =
      int32_bytes 1 st.fields.code
      ++ (text_bytes 2 st.fields.msg ++ (text_bytes 3 st.fields.uuid ++ unknown_bytes st.unknown))
  message_bytes info st =
      int64_bytes 1 st.fields.dirid
      ++ (text_bytes 2 st.fields.name ++ (text_bytes 3 st.fields.uuid ++ unknown_bytes st.unknown))
  message_bytes answer st =
      int32_bytes 1 st.fields.code ++ (text_bytes 2 st.fields.jsoninfo ++ unknown_bytes st.unknown)

  module _ (laws : Writes lib b) where
    text-Adds :
        (n : ℕ) (s : Text)
        → 0 < n
        → n < 16
        → Adds (write_if (non_empty s) (lib.write_string n s)) (text_bytes n s)
    text-Adds n s lo hi =
        if-Adds (non_empty s) (record { adds = λ out. laws.string_bytes n s out lo hi })

    text_array-Adds :
        (n : ℕ) (s : Text)
        → 0 < n
        → n < 16
        → Adds (write_if (non_empty s) (lib.write_string_to_array n s)) (text_bytes n s)
    text_array-Adds n s lo hi =
        if-Adds (non_empty s) (record { adds = λ out. laws.string_array n s out lo hi })

    int32-Adds :
        (n : ℕ) (v : ℤ)
        → 0 < n
        → n < 16
        → Adds (write_if (is_nonzero v) (lib.write_int32 n v)) (int32_bytes n v)
    int32-Adds n v lo hi =
        if-Adds (is_nonzero v) (record { adds = λ out. laws.int32_bytes n v out lo hi })

    int32_array-Adds :
        (n : ℕ) (v : ℤ)
        → 0 < n
        → n < 16
        → Adds (write_if (is_nonzero v) (lib.write_int32_to_array n v)) (int32_bytes n v)
    int32_array-Adds n v lo hi =
        if-Adds (is_nonzero v) (record { adds = λ out. laws.int32_array n v out lo hi })

    int64-Adds :
        (n : ℕ) (v : ℤ)
        → 0 < n
        → n < 16
        → Adds (write_if (is_nonzero v) (lib.write_int64 n v)) (int64_bytes n v)
    int64-Adds n v lo hi =
        if-Adds (is_nonzero v) (record { adds = λ out. laws.int64_bytes n v out lo hi })

    int64_array-Adds :
        (n : ℕ) (v : ℤ)
        → 0 < n
        → n < 16
        → Adds (write_if (is_nonzero v) (lib.write_int64_to_array n v)) (int64_bytes n v)
    int64_array-Adds n v lo hi =
        if-Adds (is_nonzero v) (record { adds = λ out. laws.int64_array n v out lo hi })

    unknown-Adds :
        (u : U)
        → Adds
            (write_if (writes_unknown lib u) (lib.write_unknown (known_or_none lib u)))
            (unknown_bytes u)
    unknown-Adds u =
        if-Adds (writes_unknown lib u)
          (record { adds = λ out. laws.unknown_bytes (known_or_none lib u) out })

    unknown_array-Adds :
        (u : U)
        → Adds
            (write_if (writes_unknown lib u) (lib.write_unknown_to_array (known_or_none lib u)))
            (unknown_bytes u)
    unknown_array-Adds u =
        if-Adds (writes_unknown lib u)
          (record { adds = λ out. laws.unknown_array (known_or_none lib u) out })

    pub serialize-Adds :
        (k : Kind) (st : Stored (Fields k) U) → Adds (serialize lib k st) (message_bytes k st)
    unfolding UserSign.serialize UserRet.serialize DirInfo.serialize DirRet.serialize
    serialize-Adds sign st =
        then-Adds (text-Adds 1 st.fields.username (omega arith) (omega arith)) (
          then-Adds (text-Adds 2 st.fields.password (omega arith) (omega arith)) (
            then-Adds (text-Adds 3 st.fields.uuid (omega arith) (omega arith))
              (unknown-Adds st.unknown)))
    serialize-Adds ret st = then-Adds (int32-Adds 1 st.fields.code (omega arith) (omega arith)) (
        then-Adds (text-Adds 2 st.fields.msg (omega arith) (omega arith)) (
          then-Adds (text-Adds 3 st.fields.uuid (omega arith) (omega arith))
            (unknown-Adds st.unknown)))
    serialize-Adds info st = then-Adds (int64-Adds 1 st.fields.dirid (omega arith) (omega arith)) (
        then-Adds (text-Adds 2 st.fields.name (omega arith) (omega arith)) (
          then-Adds (text-Adds 3 st.fields.uuid (omega arith) (omega arith))
            (unknown-Adds st.unknown)))
    serialize-Adds answer st = then-Adds (int32-Adds 1 st.fields.code (omega arith) (omega arith)) (
        then-Adds (text-Adds 2 st.fields.jsoninfo (omega arith) (omega arith))
          (unknown-Adds st.unknown))

    pub serialize_to_array-Adds :
        (k : Kind) (st : Stored (Fields k) U)
        → Adds (serialize_to_array lib k st) (message_bytes k st)
    unfolding UserSign.serialize_to_array UserRet.serialize_to_array DirInfo.serialize_to_array
        DirRet.serialize_to_array
    serialize_to_array-Adds sign st =
        then-Adds (text_array-Adds 1 st.fields.username (omega arith) (omega arith)) (
          then-Adds (text_array-Adds 2 st.fields.password (omega arith) (omega arith)) (
            then-Adds (text_array-Adds 3 st.fields.uuid (omega arith) (omega arith))
              (unknown_array-Adds st.unknown)))
    serialize_to_array-Adds ret st =
        then-Adds (int32_array-Adds 1 st.fields.code (omega arith) (omega arith)) (
          then-Adds (text_array-Adds 2 st.fields.msg (omega arith) (omega arith)) (
            then-Adds (text_array-Adds 3 st.fields.uuid (omega arith) (omega arith))
              (unknown_array-Adds st.unknown)))
    serialize_to_array-Adds info st =
        then-Adds (int64_array-Adds 1 st.fields.dirid (omega arith) (omega arith)) (
          then-Adds (text_array-Adds 2 st.fields.name (omega arith) (omega arith)) (
            then-Adds (text_array-Adds 3 st.fields.uuid (omega arith) (omega arith))
              (unknown_array-Adds st.unknown)))
    serialize_to_array-Adds answer st =
        then-Adds (int32_array-Adds 1 st.fields.code (omega arith) (omega arith)) (
          then-Adds (text_array-Adds 2 st.fields.jsoninfo (omega arith) (omega arith))
            (unknown_array-Adds st.unknown))
