-- ===== src/Web/Wire/DirRet.antt =====
-- `DirRet` in httppart/FileManager.pb.cc.
use filedisk_server.Common.{ℕ, ◌+◌, ◌%◌, ◌^◌, Bool, [], ◌==◌, if◌then◌else◌}
use filedisk_server.Common.Int.{ℤ}
use filedisk_server.Common.Runs.{Text}
use filedisk_server.Web.Message.{DirRet, dir_ret}
use filedisk_server.Web.Wire.{
  WireFormat, Stored, Turn, non_empty, is_nonzero, write_if, size_if, read_step, text_step, unusual,
  writes_unknown, known_or_none,
}

abbrev pub set_code : {U : Type 0} → Stored DirRet U → ℤ → Stored DirRet U
set_code st v = record st { fields = record st.fields { code = v } }

abbrev pub set_jsoninfo : {U : Type 0} → Stored DirRet U → Text → Stored DirRet U
set_jsoninfo st v = record st { fields = record st.fields { jsoninfo = v } }

module _ {U : Type 0} (lib : WireFormat U) where
  unfoldable pub shared_ctor : Stored DirRet U
  shared_ctor = record { fields = dir_ret; unknown = lib.no_unknown; cached_size = 0 }

  unfoldable pub clear : Stored DirRet U → Stored DirRet U
  clear st = record st { fields = dir_ret; unknown = lib.no_unknown }

  unfoldable pub merge_from : Stored DirRet U → Stored DirRet U → Stored DirRet U
  merge_from st from = record st {
    fields = record {
      code = if is_nonzero from.fields.code then from.fields.code else st.fields.code;
      jsoninfo =
          if non_empty from.fields.jsoninfo then from.fields.jsoninfo else st.fields.jsoninfo;
    };
    unknown = lib.merge_unknown st.unknown from.unknown;
  }

  -- The copy constructor.
  unfoldable pub copy : Stored DirRet U → Stored DirRet U
  copy from = record {
    fields = record {
      code = from.fields.code;
      jsoninfo = if non_empty from.fields.jsoninfo then from.fields.jsoninfo else [];
    };
    unknown = lib.merge_unknown lib.no_unknown from.unknown;
    cached_size = 0;
  }

  -- `same` says that both are one object.
  unfoldable pub copy_from : Bool → Stored DirRet U → Stored DirRet U → Stored DirRet U
  copy_from same st from = if same then st else merge_from (clear st) from

  -- The `switch` of `MergePartialFromCodedStream`.
  unfoldable pub merge_turn : ℕ → Stored DirRet U → Text → Turn DirRet U
  merge_turn tag st input =
      let n = lib.field_number tag in
      let low = tag % 256 in
      if n == 1
      then (if low == 8
          then read_step lib (set_code st) (lib.read_int32 st.fields.code input)
          else unusual lib tag st input)
      else if n == 2
      then (if low == 18
          then text_step lib (set_jsoninfo st) (lib.read_string st.fields.jsoninfo input)
          else unusual lib tag st input)
      else unusual lib tag st input

  -- `SerializeWithCachedSizes`, less the checks of the texts: without success they write to the log
  -- and change nothing.
  unfoldable pub serialize : Stored DirRet U → Text → Text
  serialize st out =
      let out1 = write_if (is_nonzero st.fields.code) (lib.write_int32 1 st.fields.code) out in
      let out2 =
        write_if (non_empty st.fields.jsoninfo) (lib.write_string 2 st.fields.jsoninfo) out1 in
      write_if (writes_unknown lib st.unknown) (lib.write_unknown (known_or_none lib st.unknown))
        out2

  -- `InternalSerializeWithCachedSizesToArray`: `target` is the bytes before the place it points at.
  unfoldable pub serialize_to_array : Stored DirRet U → Text → Text
  serialize_to_array st target =
      let target1 =
        write_if (is_nonzero st.fields.code) (lib.write_int32_to_array 1 st.fields.code) target in
      let target2 =
        write_if (non_empty st.fields.jsoninfo) (lib.write_string_to_array 2 st.fields.jsoninfo)
          target1 in
      write_if (writes_unknown lib st.unknown)
        (lib.write_unknown_to_array (known_or_none lib st.unknown)) target2

  -- The size, and the object that keeps it.
  unfoldable pub byte_size : Stored DirRet U → ℕ × Stored DirRet U
  byte_size st =
      let size0 =
        size_if (writes_unknown lib st.unknown) (lib.unknown_size (known_or_none lib st.unknown)) in
      let size1 =
        size0 + size_if (non_empty st.fields.jsoninfo) (1 + lib.string_size st.fields.jsoninfo) in
      let size2 = size1 + size_if (is_nonzero st.fields.code) (1 + lib.int32_size st.fields.code) in
      let total_size = size2 % 2 ^ 64 in
      (total_size, record st { cached_size = lib.to_cached_size total_size })

-- `_cached_size_` stays where it is.
unfoldable pub swap :
    {U : Type 0} → Bool → Stored DirRet U → Stored DirRet U → Stored DirRet U × Stored DirRet U
swap same st other = if same then (st, other) else (
  record st { fields = other.fields; unknown = other.unknown },
  record other { fields = st.fields; unknown = st.unknown },
)
