-- ===== src/Web/Wire/Tests.antt =====
-- The theorems on the wire form at a wire format that keeps the laws.
use filedisk_server.Common.{◌+◌, ◌<◌, ◌≡◌, refl, true, false, some, [], ◌∷◌, length, arith}
use filedisk_server.Common.Int.{negsuc}
use filedisk_server.Common.Runs.{Text}
use filedisk_server.Common.Text.{bytes_of}
use filedisk_server.Web.Message.{UserRet, UserSign, user_ret, user_sign}
use filedisk_server.Web.Wire.{Stored, unusual, merge_loop}
use filedisk_server.Web.Wire.UserRet
use filedisk_server.Web.Wire.UserSign
use filedisk_server.Web.Wire.Codec.{
  sign, ret, IsText, clear, merge_from, merge_turn, serialize, serialize_to_array, byte_size,
}
use filedisk_server.Web.Wire.Sizes.{serialize-byte_size}
use filedisk_server.Web.Wire.RoundTrip.{merge_loop-serialize}
use filedisk_server.Web.Wire.Ending.{Returns, merge_loop-Returns}
use filedisk_server.Web.Wire.Sample.{sample, bodies, sample-Writes, sample-Reads, sample-Consumes}

-- What `SignIn` answers to a user.
abbrev reply : Stored UserRet Text
reply = record {
  fields = record { code = negsuc 0; msg = bytes_of "ok"; uuid = bytes_of "a-b" };
  unknown = [];
  cached_size = 0;
}

abbrev blank : Stored UserRet Text
blank = record { fields = user_ret; unknown = []; cached_size = 0 }

abbrev blank_sign : Stored UserSign Text
blank_sign = record { fields = user_sign; unknown = []; cached_size = 0 }

sample_text : (s : Text) → length s < 10 → IsText sample s
sample_text s h = record { short = omega (arith, h); valid = refl }

-- A message with the field 2 only, before it one of the unknown number 9.
parse_unknown :
    merge_loop sample (merge_turn sample sign) 9 blank_sign (72 ∷ (18 ∷ (1 ∷ (65 ∷ []))))
    ≡ some (
      true,
      record {
        fields = record user_sign { password = 65 ∷ [] };
        unknown = 72 ∷ [];
        cached_size = 0;
      },
      [],
    )
unfolding merge_loop UserSign.merge_turn unusual
parse_unknown = refl

-- A text that is cut off.
parse_short :
    merge_loop sample (merge_turn sample sign) 9 blank_sign (18 ∷ (5 ∷ (65 ∷ [])))
    ≡ some (false, blank_sign, 65 ∷ [])
unfolding merge_loop UserSign.merge_turn unusual
parse_short = refl

merge_loop-serialize_example :
    (merge_loop sample (merge_turn sample ret) 20 blank (serialize sample ret reply [])
      ≡ some (true, merge_from sample ret blank reply, []))
    × ((merge_from sample ret (clear sample ret blank) reply).fields ≡ reply.fields)
unfolding UserRet.serialize
merge_loop-serialize_example =
    merge_loop-serialize sample bodies sample-Writes sample-Reads ret blank reply
      (
        omega arith,
        sample_text (bytes_of "ok") (omega arith),
        sample_text (bytes_of "a-b") (omega arith),
      )
      refl 20 (omega arith)

serialize-byte_size_example :
    (serialize sample ret reply [] ≡ serialize_to_array sample ret reply [])
    × (length (serialize_to_array sample ret reply []) ≡ 0 + byte_size sample ret reply)
unfolding UserRet.serialize_to_array
serialize-byte_size_example =
    serialize-byte_size sample bodies sample-Writes ret reply [] (omega arith)

merge_loop-Returns_example :
    Returns (merge_loop sample (merge_turn sample ret) 5 blank (18 ∷ (200 ∷ (8 ∷ []))))
merge_loop-Returns_example =
    merge_loop-Returns sample sample-Consumes ret 5 blank (18 ∷ (200 ∷ (8 ∷ []))) (omega arith)
