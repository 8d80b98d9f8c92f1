-- ===== src/Web/Wire/Codec.antt =====
-- The four message types of the services, and the methods of each under one name.
use filedisk_server.Common.{ℕ, ◌<◌, ◌^◌, ◌≡◌, true, length}
use filedisk_server.Common.Int.{ℤ, pos, negsuc}
use filedisk_server.Common.Runs.{Text}
use filedisk_server.Web.Message.{UserSign, UserRet, DirInfo, DirRet}
use filedisk_server.Web.Wire.{WireFormat, Stored, Turn}
use filedisk_server.Web.Wire.UserSign
use filedisk_server.Web.Wire.UserRet
use filedisk_server.Web.Wire.DirInfo
use filedisk_server.Web.Wire.DirRet

pub data Kind : Type 0 where
  sign ret info answer : Kind

abbrev pub Fields : Kind → Type 0
Fields sign = UserSign
Fields ret = UserRet
Fields info = DirInfo
Fields answer = DirRet

-- An integer of `w + 1` bits.
abbrev pub IsInt : ℕ → ℤ → Type 0
IsInt w (pos n) = n < 2 ^ w
IsInt w (negsuc n) = n < 2 ^ w

module _ {U : Type 0} (lib : WireFormat U) where
  abbrev pub clear : (k : Kind) → Stored (Fields k) U → Stored (Fields k) U
  clear sign st = UserSign.clear lib st
  clear ret st = UserRet.clear lib st
  clear info st = DirInfo.clear lib st
  clear answer st = DirRet.clear lib st

  abbrev pub merge_from :
      (k : Kind) → Stored (Fields k) U → Stored (Fields k) U → Stored (Fields k) U
  merge_from sign st from = UserSign.merge_from lib st from
  merge_from ret st from = UserRet.merge_from lib st from
  merge_from info st from = DirInfo.merge_from lib st from
  merge_from answer st from = DirRet.merge_from lib st from

  abbrev pub merge_turn : (k : Kind) → ℕ → Stored (Fields k) U → Text → Turn (Fields k) U
  merge_turn sign tag st input = UserSign.merge_turn lib tag st input
  merge_turn ret tag st input = UserRet.merge_turn lib tag st input
  merge_turn info tag st input = DirInfo.merge_turn lib tag st input
  merge_turn answer tag st input = DirRet.merge_turn lib tag st input

  abbrev pub serialize : (k : Kind) → Stored (Fields k) U → Text → Text
  serialize sign st out = UserSign.serialize lib st out
  serialize ret st out = UserRet.serialize lib st out
  serialize info st out = DirInfo.serialize lib st out
  serialize answer st out = DirRet.serialize lib st out

  abbrev pub serialize_to_array : (k : Kind) → Stored (Fields k) U → Text → Text
  serialize_to_array sign st target = UserSign.serialize_to_array lib st target
  serialize_to_array ret st target = UserRet.serialize_to_array lib st target
  serialize_to_array info st target = DirInfo.serialize_to_array lib st target
  serialize_to_array answer st target = DirRet.serialize_to_array lib st target

  abbrev pub byte_size : (k : Kind) → Stored (Fields k) U → ℕ
  byte_size sign st = (UserSign.byte_size lib st).0
  byte_size ret st = (UserRet.byte_size lib st).0
  byte_size info st = (DirInfo.byte_size lib st).0
  byte_size answer st = (DirRet.byte_size lib st).0

  -- A text that the parser takes.
  pub record IsText (s : Text) : Type 0 where
    pub short : length s < 2 ^ 31
    pub valid : lib.verify_utf8_string s ≡ true

  abbrev pub IsMessage : (k : Kind) → Fields k → Type 0
  IsMessage sign m = IsText m.username × IsText m.password × IsText m.uuid
  IsMessage ret m = IsInt 31 m.code × IsText m.msg × IsText m.uuid
  IsMessage info m = IsInt 63 m.dirid × IsText m.name × IsText m.uuid
  IsMessage answer m = IsInt 31 m.code × IsText m.jsoninfo
