-- ===== src/Web/Message.antt =====
-- The messages of httppart/FileManager.proto and httppart/UserSign.proto. A field that is not set has
-- the default value of proto3.
use filedisk_server.Common.{[]}
use filedisk_server.Common.Int.{ℤ, pos}
use filedisk_server.Common.Runs.{Text}

pub record DirInfo : Type 0 where
  pub dirid : ℤ
  pub name : Text
  pub uuid : Text

pub record DirRet : Type 0 where
  pub code : ℤ
  pub jsoninfo : Text

pub record UserSign : Type 0 where
  pub username : Text
  pub password : Text
  pub uuid : Text

pub record UserRet : Type 0 where
  pub code : ℤ
  pub msg : Text
  pub uuid : Text

abbrev pub dir_info : DirInfo
dir_info = record { dirid = pos 0; name = []; uuid = [] }

abbrev pub dir_ret : DirRet
dir_ret = record { code = pos 0; jsoninfo = [] }

abbrev pub user_sign : UserSign
user_sign = record { username = []; password = []; uuid = [] }

abbrev pub user_ret : UserRet
user_ret = record { code = pos 0; msg = []; uuid = [] }
