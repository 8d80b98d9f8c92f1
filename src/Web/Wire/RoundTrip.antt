-- ===== src/Web/Wire/RoundTrip.antt =====
-- A message that is parsed from the bytes of another takes the fields of that one.
use filedisk_server.Common.{
  ℕ, zero, ◌<◌, ◌≡◌, refl, sym, subst, true, false, some, [], ◌∷◌, length, arith, if◌then◌else◌,
}
use filedisk_server.Common.Int.{ℤ, pos}
use filedisk_server.Common.Runs.{Text}
use filedisk_server.Web.Wire.{WireFormat, Stored, non_empty, is_nonzero, merge_loop}
use filedisk_server.Web.Wire.UserSign
use filedisk_server.Web.Wire.UserRet
use filedisk_server.Web.Wire.DirInfo
use filedisk_server.Web.Wire.DirRet
use filedisk_server.Web.Wire.Codec.{
  Kind, sign, ret, info, answer, Fields, IsMessage, clear, merge_from, merge_turn, serialize,
}
use filedisk_server.Web.Wire.Laws.{Bodies, Writes, Reads}
use filedisk_server.Web.Wire.Bytes.{serialize-Adds}
use filedisk_server.Web.Wire.Parse.{parse-Ends}

kept_text : (s : Text) → (if non_empty s then s else []) ≡ s
kept_text [] = refl
kept_text (c ∷ s) = ground arith

kept_int : (v : ℤ) → (if is_nonzero v then v else pos 0) ≡ v
kept_int (pos zero) = refl
kept_int v = ground arith

module _ {U : Type 0} (lib : WireFormat U) where
  merge_from-clear :
      (k : Kind) (st x : Stored (Fields k) U)
      → (merge_from lib k (clear lib k st) x).fields ≡ x.fields
  unfolding UserSign.merge_from UserSign.clear UserRet.merge_from UserRet.clear DirInfo.merge_from
      DirInfo.clear DirRet.merge_from DirRet.clear
  merge_from-clear sign st x =
      rw (kept_text x.fields.username, kept_text x.fields.password, kept_text x.fields.uuid) refl
  merge_from-clear ret st x =
      rw (kept_int x.fields.code, kept_text x.fields.msg, kept_text x.fields.uuid) refl
  merge_from-clear info st x =
      rw (kept_int x.fields.dirid, kept_text x.fields.name, kept_text x.fields.uuid) refl
  merge_from-clear answer st x = rw (kept_int x.fields.code, kept_text x.fields.jsoninfo) refl

-- What a message of one of the four types without fields of unknown numbers writes, if its texts are
-- valid and shorter than 2 ^ 31 bytes and its integer is of the width of its field, is parsed with
-- success and to its last byte, with any fuel above the number of the bytes: the object that it is
-- parsed into is then what `MergeFrom` makes of it, and has the fields of the message if it was
-- cleared before.
pub merge_loop-serialize :
    {U : Type 0} (lib : WireFormat U) (b : Bodies U)
    → Writes lib b
    → Reads lib b
    → (k : Kind) (st x : Stored (Fields k) U) → IsMessage lib k x.fields
    → lib.have_unknown x.unknown ≡ false
    → (fuel : ℕ) → length (serialize lib k x []) < fuel
    → (merge_loop lib (merge_turn lib k) fuel st (serialize lib k x [])
        ≡ some (true, merge_from lib k st x, []))
      × ((merge_from lib k (clear lib k st) x).fields ≡ x.fields)
merge_loop-serialize lib b writes reads k st x valid bare fuel enough =
    let e = (serialize-Adds lib b writes k x).adds [] in
    (
      subst
          (λ input.
            length input < fuel
            → merge_loop lib (merge_turn lib k) fuel st input
              ≡ some (true, merge_from lib k st x, []))
          (sym e) (parse-Ends lib b reads k st x valid bare fuel) enough,
      merge_from-clear lib k st x,
    )
