-- ===== src/Web/Wire/UserSign.antt =====
-- `UserSign` in httppart/UserSign.pb.cc.
use filedisk_server.Common.{ℕ, ◌+◌, ◌%◌, ◌^◌, Bool, [], ◌==◌, if◌then◌else◌}
use filedisk_server.Common.Runs.{Text}
use filedisk_server.Web.Message.{UserSign, user_sign}
use filedisk_server.Web.Wire.{
  WireFormat, Stored, Turn, non_empty, write_if, size_if, text_step, unusual, writes_unknown,
  known_or_none,
}

abbrev pub set_username : {U : Type 0} → Stored UserSign U → Text → Stored UserSign U
set_username st v = record st { fields = record st.fields { username = v } }

abbrev pub set_password : {U : Type 0} → Stored UserSign U → Text → Stored UserSign U
set_password st v = record st { fields = record st.fields { password = v } }

abbrev pub set_uuid : {U : Type 0} → Stored UserSign U → Text → Stored UserSign U
set_uuid st v = record st { fields = record st.fields { uuid = v } }

module _ {U : Type 0} (lib : WireFormat U) where
  unfoldable pub shared_ctor : Stored UserSign U
  shared_ctor = record { fields = user_sign; unknown = lib.no_unknown; cached_size = 0 }

  unfoldable pub clear : Stored UserSign U → Stored UserSign U
  clear st = record st { fields = user_sign; unknown = lib.no_unknown }

  unfoldable pub merge_from : Stored UserSign U → Stored UserSign U → Stored UserSign U
  merge_from st from = record st {
    fields = record {
      username =
          if non_empty from.fields.username then from.fields.username else st.fields.username;
      password =
          if non_empty from.fields.password then from.fields.password else st.fields.password;
      uuid = if non_empty from.fields.uuid then from.fields.uuid else st.fields.uuid;
    };
    unknown = lib.merge_unknown st.unknown from.unknown;
  }

  -- The copy constructor.
  unfoldable pub copy : Stored UserSign U → Stored UserSign U
  copy from = record {
    fields = record {
      username = if non_empty from.fields.username then from.fields.username else [];
      password = if non_empty from.fields.password then from.fields.password else [];
      uuid = if non_empty from.fields.uuid then from.fields.uuid else [];
    };
    unknown = lib.merge_unknown lib.no_unknown from.unknown;
    cached_size = 0;
  }

  -- `same` says that both are one object.
  unfoldable pub copy_from : Bool → Stored UserSign U → Stored UserSign U → Stored UserSign U
  copy_from same st from = if same then st else merge_from (clear st) from

  -- The `switch` of `MergePartialFromCodedStream`.
  unfoldable pub merge_turn : ℕ → Stored UserSign U → Text → Turn UserSign U
  merge_turn tag st input =
      let n = lib.field_number tag in
      let low = tag % 256 in
      if n == 1
      then (if low == 10
          then text_step lib (set_username st) (lib.read_string st.fields.username input)
          else unusual lib tag st input)
      else if n == 2
      then (if low == 18
          then text_step lib (set_password st) (lib.read_string st.fields.password input)
          else unusual lib tag st input)
      else if n == 3
      then (if low == 26
          then text_step lib (set_uuid st) (lib.read_string st.fields.uuid input)
          else unusual lib tag st input)
      else unusual lib tag st input

  -- `SerializeWithCachedSizes`, less the checks of the texts: without success they write to the log
  -- and change nothing.
  unfoldable pub serialize : Stored UserSign U → Text → Text
  serialize st out =
      let out1 =
        write_if (non_empty st.fields.username) (lib.write_string 1 st.fields.username) out in
      let out2 =
        write_if (non_empty st.fields.password) (lib.write_string 2 st.fields.password) out1 in
      let out3 = write_if (non_empty st.fields.uuid) (lib.write_string 3 st.fields.uuid) out2 in
      write_if (writes_unknown lib st.unknown) (lib.write_unknown (known_or_none lib st.unknown))
        out3

  -- `InternalSerializeWithCachedSizesToArray`: `target` is the bytes before the place it points at.
  unfoldable pub serialize_to_array : Stored UserSign U → Text → Text
  serialize_to_array st target =
      let target1 =
        write_if (non_empty st.fields.username) (lib.write_string_to_array 1 st.fields.username)
          target in
      let target2 =
        write_if (non_empty st.fields.password) (lib.write_string_to_array 2 st.fields.password)
          target1 in
      let target3 =
        write_if (non_empty st.fields.uuid) (lib.write_string_to_array 3 st.fields.uuid) target2 in
      write_if (writes_unknown lib st.unknown)
        (lib.write_unknown_to_array (known_or_none lib st.unknown)) target3

  -- The size, and the object that keeps it.
  unfoldable pub byte_size : Stored UserSign U → ℕ × Stored UserSign U
  byte_size st =
      let size0 =
        size_if (writes_unknown lib st.unknown) (lib.unknown_size (known_or_none lib st.unknown)) in
      let size1 =
        size0 + size_if (non_empty st.fields.username) (1 + lib.string_size st.fields.username) in
      let size2 =
        size1 + size_if (non_empty st.fields.password) (1 + lib.string_size st.fields.password) in
      let size3 = size2 + size_if (non_empty st.fields.uuid) (1 + lib.string_size st.fields.uuid) in
      let total_size = size3 % 2 ^ 64 in
      (total_size, record st { cached_size = lib.to_cached_size total_size })

-- `_cached_size_` stays where it is.
unfoldable pub swap :
    {U : Type 0}
    → Bool
    → Stored UserSign U
    → Stored UserSign U
    → Stored UserSign U × Stored UserSign U
swap same st other = if same then (st, other) else (
  record st { fields = other.fields; unknown = other.unknown },
  record other { fields = st.fields; unknown = st.unknown },
)
