-- ===== src/Web/Wire/UserRet.antt =====
-- `UserRet` in httppart/UserSign.pb.cc.
use filedisk_server.Common.{ℕ, ◌+◌, ◌%◌, ◌^◌, Bool, [], ◌==◌, if◌then◌else◌}
use filedisk_server.Common.Int.{ℤ}
use filedisk_server.Common.Runs.{Text}
use filedisk_server.Web.Message.{UserRet, user_ret}
use filedisk_server.Web.Wire.{
  WireFormat, Stored, Turn, non_empty, is_nonzero, write_if, size_if, read_step, text_step, unusual,
  writes_unknown, known_or_none,
}

abbrev pub set_code : {U : Type 0} → Stored UserRet U → ℤ → Stored UserRet U
set_code st v = record st { fields = record st.fields { code = v } }

abbrev pub set_msg : {U : Type 0} → Stored UserRet U → Text → Stored UserRet U
set_msg st v = record st { fields = record st.fields { msg = v } }

abbrev pub set_uuid : {U : Type 0} → Stored UserRet U → Text → Stored UserRet U
set_uuid st v = record st { fields = record st.fields { uuid = v } }

module _ {U : Type 0} (lib : WireFormat U) where
  unfoldable pub shared_ctor : Stored UserRet U
  shared_ctor = record { fields = user_ret; unknown = lib.no_unknown; cached_size = 0 }

  unfoldable pub clear : Stored UserRet U → Stored UserRet U
  clear st = record st { fields = user_ret; unknown = lib.no_unknown }

  unfoldable pub merge_from : Stored UserRet U → Stored UserRet U → Stored UserRet U
  merge_from st from = record st {
    fields = record {
      code = if is_nonzero from.fields.code then from.fields.code else st.fields.code;
      msg = if non_empty from.fields.msg then from.fields.msg else st.fields.msg;
      uuid = if non_empty from.fields.uuid then from.fields.uuid else st.fields.uuid;
    };
    unknown = lib.merge_unknown st.unknown from.unknown;
  }

  -- The copy constructor.
  unfoldable pub copy : Stored UserRet U → Stored UserRet U
  copy from = record {
    fields = record {
      code = from.fields.code;
      msg = if non_empty from.fields.msg then from.fields.msg else [];
      uuid = if non_empty from.fields.uuid then from.fields.uuid else [];
    };
    unknown = lib.merge_unknown lib.no_unknown from.unknown;
    cached_size = 0;
  }

  -- `same` says that both are one object.
  unfoldable pub copy_from : Bool → Stored UserRet U → Stored UserRet U → Stored UserRet U
  copy_from same st from = if same then st else merge_from (clear st) from

  -- The `switch` of `MergePartialFromCodedStream`.
  unfoldable pub merge_turn : ℕ → Stored UserRet U → Text → Turn UserRet U
  merge_turn tag st input =
      let n = lib.field_number tag in
      let low = tag % 256 in
      if n == 1
      then (if low == 8
          then read_step lib (set_code st) (lib.read_int32 st.fields.code input)
          else unusual lib tag st input)
      else if n == 2
      then (if low == 18
          then text_step lib (set_msg st) (lib.read_string st.fields.msg input)
          else unusual lib tag st input)
      else if n == 3
      then (if low == 26
          then text_step lib (set_uuid st) (lib.read_string st.fields.uuid input)
          else unusual lib tag st input)
      else unusual lib tag st input

  -- `SerializeWithCachedSizes`, less the checks of the texts: without success they write to the log
  -- and change nothing.
  unfoldable pub serialize : Stored UserRet U → Text → Text
  serialize st out =
      let out1 = write_if (is_nonzero st.fields.code) (lib.write_int32 1 st.fields.code) out in
      let out2 = write_if (non_empty st.fields.msg) (lib.write_string 2 st.fields.msg) out1 in
      let out3 = write_if (non_empty st.fields.uuid) (lib.write_string 3 st.fields.uuid) out2 in
      write_if (writes_unknown lib st.unknown) (lib.write_unknown (known_or_none lib st.unknown))
        out3

  -- `InternalSerializeWithCachedSizesToArray`: `target` is the bytes before the place it points at.
  unfoldable pub serialize_to_array : Stored UserRet U → Text → Text
  serialize_to_array st target =
      let target1 =
        write_if (is_nonzero st.fields.code) (lib.write_int32_to_array 1 st.fields.code) target in
      let target2 =
        write_if (non_empty st.fields.msg) (lib.write_string_to_array 2 st.fields.msg) target1 in
      let target3 =
        write_if (non_empty st.fields.uuid) (lib.write_string_to_array 3 st.fields.uuid) target2 in
      write_if (writes_unknown lib st.unknown)
        (lib.write_unknown_to_array (known_or_none lib st.unknown)) target3

  -- The size, and the object that keeps it.
  unfoldable pub byte_size : Stored UserRet U → ℕ × Stored UserRet U
  byte_size st =
      let size0 =
        size_if (writes_unknown lib st.unknown) (lib.unknown_size (known_or_none lib st.unknown)) in
      let size1 = size0 + size_if (non_empty st.fields.msg) (1 + lib.string_size st.fields.msg) in
      let size2 = size1 + size_if (non_empty st.fields.uuid) (1 + lib.string_size st.fields.uuid) in
      let size3 = size2 + size_if (is_nonzero st.fields.code) (1 + lib.int32_size st.fields.code) in
      let total_size = size3 % 2 ^ 64 in
      (total_size, record st { cached_size = lib.to_cached_size total_size })

-- `_cached_size_` stays where it is.
unfoldable pub swap :
    {U : Type 0} → Bool → Stored UserRet U → Stored UserRet U → Stored UserRet U × Stored UserRet U
swap same st other = if same then (st, other) else (
  record st { fields = other.fields; unknown = other.unknown },
  record other { fields = st.fields; unknown = st.unknown },
)
