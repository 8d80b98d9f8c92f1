-- ===== src/Web/Wire/Parse.antt =====
-- The parsers at the bytes of a whole message.
use filedisk_server.Common.{ℕ, ◌≡◌, refl, true, false, [], ◌++◌, arith, if◌then◌else◌}
use filedisk_server.Common.Runs.{Text}
use filedisk_server.Web.Message.{UserSign, UserRet, DirInfo, DirRet}
use filedisk_server.Web.Wire.{WireFormat, Stored, Turn, non_empty, is_nonzero}
use filedisk_server.Web.Wire.UserSign
use filedisk_server.Web.Wire.UserRet
use filedisk_server.Web.Wire.DirInfo
use filedisk_server.Web.Wire.DirRet
use filedisk_server.Web.Wire.Codec.{
  Kind, sign, ret, info, answer, Fields, IsMessage, merge_from, merge_turn,
}
use filedisk_server.Web.Wire.Laws.{Bodies, Reads}
use filedisk_server.Web.Wire.Bytes.{text_bytes, unknown_bytes, message_bytes}
use filedisk_server.Web.Wire.Fields.{Ends, end-Ends, value-Ends}
use filedisk_server.Web.Wire.Turns.{
  sign_username-turn, sign_password-turn, sign_uuid-turn, ret_code-turn, ret_msg-turn,
  ret_uuid-turn, info_dirid-turn, info_name-turn, info_uuid-turn, answer_code-turn,
  answer_jsoninfo-turn,
}

module _ {U : Type 0} (lib : WireFormat U) (b : Bodies U) (laws : Reads lib b) where
  -- No field of an unknown number: the parser is at its end.
  unknown_bytes-Ends :
      {A : Type 0} (turn : ℕ → Stored A U → Text → Turn A U) (st : Stored A U) (u : U)
      → lib.have_unknown u ≡ false
      → Ends lib turn st (unknown_bytes lib b u) (true, st, [])
  unknown_bytes-Ends turn st u bare = rw bare (end-Ends lib b laws turn st)

  sign-Ends :
      (st x : Stored UserSign U)
      → IsMessage lib sign x.fields
      → lib.have_unknown x.unknown ≡ false
      → Ends lib
          (merge_turn lib sign)
          st
          (message_bytes lib b sign x)
          (true, merge_from lib sign st x, [])
  unfolding UserSign.merge_from
  sign-Ends st x (h1, h2, h3) bare =
      let s1 =
        UserSign.set_username st
          (if non_empty x.fields.username then x.fields.username else st.fields.username) in
      let s2 =
        UserSign.set_password s1
          (if non_empty x.fields.password then x.fields.password else s1.fields.password) in
      let s3 =
        UserSign.set_uuid s2 (if non_empty x.fields.uuid then x.fields.uuid else s2.fields.uuid) in
      value-Ends lib b laws (merge_turn lib sign) (non_empty x.fields.username) 10
        (b.string_body x.fields.username)
        (text_bytes lib b 2 x.fields.password
          ++ (text_bytes lib b 3 x.fields.uuid ++ (unknown_bytes lib b x.unknown)))
        (UserSign.set_username st) x.fields.username st.fields.username (omega arith) (omega arith)
        (sign_username-turn lib b laws st x.fields.username
          (text_bytes lib b 2 x.fields.password
            ++ (text_bytes lib b 3 x.fields.uuid ++ (unknown_bytes lib b x.unknown)))
          h1)
        refl
        (value-Ends lib b laws (merge_turn lib sign) (non_empty x.fields.password) 18
          (b.string_body x.fields.password)
          (text_bytes lib b 3 x.fields.uuid ++ (unknown_bytes lib b x.unknown))
          (UserSign.set_password s1) x.fields.password s1.fields.password (omega arith)
          (omega arith)
          (sign_password-turn lib b laws s1 x.fields.password
            (text_bytes lib b 3 x.fields.uuid ++ (unknown_bytes lib b x.unknown)) h2)
          refl
          (value-Ends lib b laws (merge_turn lib sign) (non_empty x.fields.uuid) 26
            (b.string_body x.fields.uuid) (unknown_bytes lib b x.unknown) (UserSign.set_uuid s2)
            x.fields.uuid s2.fields.uuid (omega arith) (omega arith)
            (sign_uuid-turn lib b laws s2 x.fields.uuid (unknown_bytes lib b x.unknown) h3) refl
            (rw (laws.merged st.unknown x.unknown bare)
              (unknown_bytes-Ends (merge_turn lib sign) s3 x.unknown bare))))

  ret-Ends :
      (st x : Stored UserRet U)
      → IsMessage lib ret x.fields
      → lib.have_unknown x.unknown ≡ false
      → Ends lib
          (merge_turn lib ret)
          st
          (message_bytes lib b ret x)
          (true, merge_from lib ret st x, [])
  unfolding UserRet.merge_from
  ret-Ends st x (h1, h2, h3) bare =
      let s1 =
        UserRet.set_code st (if is_nonzero x.fields.code then x.fields.code else st.fields.code) in
      let s2 =
        UserRet.set_msg s1 (if non_empty x.fields.msg then x.fields.msg else s1.fields.msg) in
      let s3 =
        UserRet.set_uuid s2 (if non_empty x.fields.uuid then x.fields.uuid else s2.fields.uuid) in
      value-Ends lib b laws (merge_turn lib ret) (is_nonzero x.fields.code) 8
        (b.int32_body x.fields.code)
        (text_bytes lib b 2 x.fields.msg
          ++ (text_bytes lib b 3 x.fields.uuid ++ (unknown_bytes lib b x.unknown)))
        (UserRet.set_code st) x.fields.code st.fields.code (omega arith) (omega arith)
        (ret_code-turn lib b laws st x.fields.code
          (text_bytes lib b 2 x.fields.msg
            ++ (text_bytes lib b 3 x.fields.uuid ++ (unknown_bytes lib b x.unknown)))
          h1)
        refl
        (value-Ends lib b laws (merge_turn lib ret) (non_empty x.fields.msg) 18
          (b.string_body x.fields.msg)
          (text_bytes lib b 3 x.fields.uuid ++ (unknown_bytes lib b x.unknown)) (UserRet.set_msg s1)
          x.fields.msg s1.fields.msg (omega arith) (omega arith)
          (ret_msg-turn lib b laws s1 x.fields.msg
            (text_bytes lib b 3 x.fields.uuid ++ (unknown_bytes lib b x.unknown)) h2)
          refl
          (value-Ends lib b laws (merge_turn lib ret) (non_empty x.fields.uuid) 26
            (b.string_body x.fields.uuid) (unknown_bytes lib b x.unknown) (UserRet.set_uuid s2)
            x.fields.uuid s2.fields.uuid (omega arith) (omega arith)
            (ret_uuid-turn lib b laws s2 x.fields.uuid (unknown_bytes lib b x.unknown) h3) refl
            (rw (laws.merged st.unknown x.unknown bare)
              (unknown_bytes-Ends (merge_turn lib ret) s3 x.unknown bare))))

  info-Ends :
      (st x : Stored DirInfo U)
      → IsMessage lib info x.fields
      → lib.have_unknown x.unknown ≡ false
      → Ends lib
          (merge_turn lib info)
          st
          (message_bytes lib b info x)
          (true, merge_from lib info st x, [])
  unfolding DirInfo.merge_from
  info-Ends st x (h1, h2, h3) bare =
      let s1 =
        DirInfo.set_dirid st
          (if is_nonzero x.fields.dirid then x.fields.dirid else st.fields.dirid) in
      let s2 =
        DirInfo.set_name s1 (if non_empty x.fields.name then x.fields.name else s1.fields.name) in
      let s3 =
        DirInfo.set_uuid s2 (if non_empty x.fields.uuid then x.fields.uuid else s2.fields.uuid) in
      value-Ends lib b laws (merge_turn lib info) (is_nonzero x.fields.dirid) 8
        (b.int64_body x.fields.dirid)
        (text_bytes lib b 2 x.fields.name
          ++ (text_bytes lib b 3 x.fields.uuid ++ (unknown_bytes lib b x.unknown)))
        (DirInfo.set_dirid st) x.fields.dirid st.fields.dirid (omega arith) (omega arith)
        (info_dirid-turn lib b laws st x.fields.dirid
          (text_bytes lib b 2 x.fields.name
            ++ (text_bytes lib b 3 x.fields.uuid ++ (unknown_bytes lib b x.unknown)))
          h1)
        refl
        (value-Ends lib b laws (merge_turn lib info) (non_empty x.fields.name) 18
          (b.string_body x.fields.name)
          (text_bytes lib b 3 x.fields.uuid ++ (unknown_bytes lib b x.unknown))
          (DirInfo.set_name s1) x.fields.name s1.fields.name (omega arith) (omega arith)
          (info_name-turn lib b laws s1 x.fields.name
            (text_bytes lib b 3 x.fields.uuid ++ (unknown_bytes lib b x.unknown)) h2)
          refl
          (value-Ends lib b laws (merge_turn lib info) (non_empty x.fields.uuid) 26
            (b.string_body x.fields.uuid) (unknown_bytes lib b x.unknown) (DirInfo.set_uuid s2)
            x.fields.uuid s2.fields.uuid (omega arith) (omega arith)
            (info_uuid-turn lib b laws s2 x.fields.uuid (unknown_bytes lib b x.unknown) h3) refl
            (rw (laws.merged st.unknown x.unknown bare)
              (unknown_bytes-Ends (merge_turn lib info) s3 x.unknown bare))))

  answer-Ends :
      (st x : Stored DirRet U)
      → IsMessage lib answer x.fields
      → lib.have_unknown x.unknown ≡ false
      → Ends lib
          (merge_turn lib answer)
          st
          (message_bytes lib b answer x)
          (true, merge_from lib answer st x, [])
  unfolding DirRet.merge_from
  answer-Ends st x (h1, h2) bare =
      let s1 =
        DirRet.set_code st (if is_nonzero x.fields.code then x.fields.code else st.fields.code) in
      let s2 =
        DirRet.set_jsoninfo s1
          (if non_empty x.fields.jsoninfo then x.fields.jsoninfo else s1.fields.jsoninfo) in
      value-Ends lib b laws (merge_turn lib answer) (is_nonzero x.fields.code) 8
        (b.int32_body x.fields.code)
        (text_bytes lib b 2 x.fields.jsoninfo ++ (unknown_bytes lib b x.unknown))
        (DirRet.set_code st) x.fields.code st.fields.code (omega arith) (omega arith)
        (answer_code-turn lib b laws st x.fields.code
          (text_bytes lib b 2 x.fields.jsoninfo ++ (unknown_bytes lib b x.unknown)) h1)
        refl
        (value-Ends lib b laws (merge_turn lib answer) (non_empty x.fields.jsoninfo) 18
          (b.string_body x.fields.jsoninfo) (unknown_bytes lib b x.unknown) (DirRet.set_jsoninfo s1)
          x.fields.jsoninfo s1.fields.jsoninfo (omega arith) (omega arith)
          (answer_jsoninfo-turn lib b laws s1 x.fields.jsoninfo (unknown_bytes lib b x.unknown) h2)
          refl
          (rw (laws.merged st.unknown x.unknown bare)
            (unknown_bytes-Ends (merge_turn lib answer) s2 x.unknown bare)))

  pub parse-Ends :
      (k : Kind) (st x : Stored (Fields k) U)
      → IsMessage lib k x.fields
      → lib.have_unknown x.unknown ≡ false
      → Ends lib (merge_turn lib k) st (message_bytes lib b k x) (true, merge_from lib k st x, [])
  parse-Ends sign st x h bare = sign-Ends st x h bare
  parse-Ends ret st x h bare = ret-Ends st x h bare
  parse-Ends info st x h bare = info-Ends st x h bare
  parse-Ends answer st x h bare = answer-Ends st x h bare
