-- ===== src/Web/Wire/Turns.antt =====
-- The cases of the four parsers at the bytes of their fields.
use filedisk_server.Common.{◌≡◌, ◌++◌, arith}
use filedisk_server.Common.Int.{ℤ}
use filedisk_server.Common.Runs.{Text}
use filedisk_server.Web.Message.{UserSign, UserRet, DirInfo, DirRet}
use filedisk_server.Web.Wire.{WireFormat, Stored, again}
use filedisk_server.Web.Wire.UserSign
use filedisk_server.Web.Wire.UserRet
use filedisk_server.Web.Wire.DirInfo
use filedisk_server.Web.Wire.DirRet
use filedisk_server.Web.Wire.Codec.{sign, ret, info, answer, IsText, IsInt, merge_turn}
use filedisk_server.Web.Wire.Laws.{Bodies, Reads}
use filedisk_server.Web.Wire.Fields.{text_step-reads, int32_step-reads, int64_step-reads}

module _ {U : Type 0} (lib : WireFormat U) (b : Bodies U) (laws : Reads lib b) where
  pub sign_username-turn :
      (st : Stored UserSign U) (s : Text) (rest : Text)
      → IsText lib s
      → merge_turn lib sign 10 st (b.string_body s ++ rest)
        ≡ again (UserSign.set_username st s) rest
  unfolding UserSign.merge_turn
  sign_username-turn st s rest h =
      rw (laws.numbers 1 2 (omega arith))
        (text_step-reads lib b laws (UserSign.set_username st) s st.fields.username rest h)

  pub sign_password-turn :
      (st : Stored UserSign U) (s : Text) (rest : Text)
      → IsText lib s
      → merge_turn lib sign 18 st (b.string_body s ++ rest)
        ≡ again (UserSign.set_password st s) rest
  unfolding UserSign.merge_turn
  sign_password-turn st s rest h =
      rw (laws.numbers 2 2 (omega arith))
        (text_step-reads lib b laws (UserSign.set_password st) s st.fields.password rest h)

  pub sign_uuid-turn :
      (st : Stored UserSign U) (s : Text) (rest : Text)
      → IsText lib s
      → merge_turn lib sign 26 st (b.string_body s ++ rest) ≡ again (UserSign.set_uuid st s) rest
  unfolding UserSign.merge_turn
  sign_uuid-turn st s rest h =
      rw (laws.numbers 3 2 (omega arith))
        (text_step-reads lib b laws (UserSign.set_uuid st) s st.fields.uuid rest h)

  pub ret_code-turn :
      (st : Stored UserRet U) (s : ℤ) (rest : Text)
      → IsInt 31 s
      → merge_turn lib ret 8 st (b.int32_body s ++ rest) ≡ again (UserRet.set_code st s) rest
  unfolding UserRet.merge_turn
  ret_code-turn st s rest h =
      rw (laws.numbers 1 0 (omega arith))
        (int32_step-reads lib b laws (UserRet.set_code st) s st.fields.code rest h)

  pub ret_msg-turn :
      (st : Stored UserRet U) (s : Text) (rest : Text)
      → IsText lib s
      → merge_turn lib ret 18 st (b.string_body s ++ rest) ≡ again (UserRet.set_msg st s) rest
  unfolding UserRet.merge_turn
  ret_msg-turn st s rest h =
      rw (laws.numbers 2 2 (omega arith))
        (text_step-reads lib b laws (UserRet.set_msg st) s st.fields.msg rest h)

  pub ret_uuid-turn :
      (st : Stored UserRet U) (s : Text) (rest : Text)
      → IsText lib s
      → merge_turn lib ret 26 st (b.string_body s ++ rest) ≡ again (UserRet.set_uuid st s) rest
  unfolding UserRet.merge_turn
  ret_uuid-turn st s rest h =
      rw (laws.numbers 3 2 (omega arith))
        (text_step-reads lib b laws (UserRet.set_uuid st) s st.fields.uuid rest h)

  pub info_dirid-turn :
      (st : Stored DirInfo U) (s : ℤ) (rest : Text)
      → IsInt 63 s
      → merge_turn lib info 8 st (b.int64_body s ++ rest) ≡ again (DirInfo.set_dirid st s) rest
  unfolding DirInfo.merge_turn
  info_dirid-turn st s rest h =
      rw (laws.numbers 1 0 (omega arith))
        (int64_step-reads lib b laws (DirInfo.set_dirid st) s st.fields.dirid rest h)

  pub info_name-turn :
      (st : Stored DirInfo U) (s : Text) (rest : Text)
      → IsText lib s
      → merge_turn lib info 18 st (b.string_body s ++ rest) ≡ again (DirInfo.set_name st s) rest
  unfolding DirInfo.merge_turn
  info_name-turn st s rest h =
      rw (laws.numbers 2 2 (omega arith))
        (text_step-reads lib b laws (DirInfo.set_name st) s st.fields.name rest h)

  pub info_uuid-turn :
      (st : Stored DirInfo U) (s : Text) (rest : Text)
      → IsText lib s
      → merge_turn lib info 26 st (b.string_body s ++ rest) ≡ again (DirInfo.set_uuid st s) rest
  unfolding DirInfo.merge_turn
  info_uuid-turn st s rest h =
      rw (laws.numbers 3 2 (omega arith))
        (text_step-reads lib b laws (DirInfo.set_uuid st) s st.fields.uuid rest h)

  pub answer_code-turn :
      (st : Stored DirRet U) (s : ℤ) (rest : Text)
      → IsInt 31 s
      → merge_turn lib answer 8 st (b.int32_body s ++ rest) ≡ again (DirRet.set_code st s) rest
  unfolding DirRet.merge_turn
  answer_code-turn st s rest h =
      rw (laws.numbers 1 0 (omega arith))
        (int32_step-reads lib b laws (DirRet.set_code st) s st.fields.code rest h)

  pub answer_jsoninfo-turn :
      (st : Stored DirRet U) (s : Text) (rest : Text)
      → IsText lib s
      → merge_turn lib answer 18 st (b.string_body s ++ rest)
        ≡ again (DirRet.set_jsoninfo st s) rest
  unfolding DirRet.merge_turn
  answer_jsoninfo-turn st s rest h =
      rw (laws.numbers 2 2 (omega arith))
        (text_step-reads lib b laws (DirRet.set_jsoninfo st) s st.fields.jsoninfo rest h)
