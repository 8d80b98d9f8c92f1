-- ===== src/Web/Api/Login.antt =====
-- "/register" and "/login" with the user service behind them.
use filedisk_server.Common.{◌≡◌, refl, true, some, [], ◌∷◌, ◌++◌, arith}
use filedisk_server.Common.Int.{pos, negsuc}
use filedisk_server.Common.Text.{bytes_of}
use filedisk_server.Common.Runs.{Text, ok}
use filedisk_server.Web.Message.{UserSign, UserRet, user_sign, user_ret}
use filedisk_server.Web.Library.{get_result, is_ok, Library, Serving, number, text, scalar}
use filedisk_server.Web.Stub.SignUp
use filedisk_server.Web.Stub.SignIn
use filedisk_server.Web.Users.{sign_up, sign_in, sign_in_sql, session_request}
use filedisk_server.Web.Users.Password.{sign_in-select}
use filedisk_server.Web.Users.Opening.{inserted, sign_up-session}
use filedisk_server.Web.Api.{
  HttpReq, Cookie, Front, Remote, user_task, user_answered, user_http, register_http, login_http,
}

module _ {R Q G : Type 0} (l : Library R Q G) (r : Remote (Serving R Q G UserRet)) where
  -- The RPC library brings a message for `SignIn` to the handler with an empty response, and the
  -- response back.
  abbrev pub SignsIn : Type 0
  SignsIn =
      (info : UserSign) (n : Serving R Q G UserRet)
      → r.user_call (user_task r (SignIn.srpc_client r.defaults) info) n ≡ (
          let out = sign_in l info (record n { response = user_ret }) in
          (some out.1.response, out.1))

  abbrev pub SignsUp : Text → Type 0
  SignsUp garbage =
      (info : UserSign) (n : Serving R Q G UserRet)
      → r.user_call (user_task r (SignUp.srpc_client r.defaults) info) n ≡ (
          let out = sign_up l garbage info (record n { response = user_ret }) in
          (some out.1.response, out.1))

  abbrev pub cookie_of : Text → Cookie
  cookie_of uuid = record {
    key = bytes_of "uuid";
    value = uuid;
    expires_in = 1440;
    path = bytes_of "/";
  }

  -- When the RPC library brings every call to SignIn and its response back, and a query with a result
  -- set has the status MYSQL_STATUS_GET_RESULT, every well-formed "/login"
  -- is answered with the status -1, and with a cookie whose uuid is empty.
  login_http-select :
      SignsIn
      → ((q : Q) (username : Text) → (l.query q (sign_in_sql username)).0.status ≡ get_result)
      → (req : HttpReq) (username password : Text) (w : Front (Serving R Q G UserRet))
      → req.text_of (bytes_of "username") ≡ some username
      → req.text_of (bytes_of "password") ≡ some password
      → let out = login_http r req w in
        (out.0 ≡ ok tt)
        × (out.1.live ≡ w.live)
        × (out.1.http.cookies ≡ w.http.cookies ++ (cookie_of [] ∷ []))
        × (out.1.http.body
            ≡ r.dump (
                (bytes_of "status", scalar (number (negsuc 0)))
                ∷ (bytes_of "msg", scalar (text (bytes_of "login error username")))
                ∷ []))
  unfolding login_http user_http user_answered
  login_http-select signs select req username password w eu ep =
      let info : UserSign = record user_sign { username = username; password = password } in
      rw
        (
          eu,
          ep,
          signs info w.network,
          sign_in-select l select info (record w.network { response = user_ret }),
        )
        (refl, omega arith, refl, refl)

  -- When MySQL takes the new user, a well-formed "/register" is answered with the status 0, and with a
  -- cookie whose uuid is the key of the session that waits to be made for the user's number.
  pub register_http-session :
      (garbage : Text)
      → SignsUp garbage
      → (req : HttpReq) (username password : Text) (w : Front (Serving R Q G UserRet))
      → req.text_of (bytes_of "username") ≡ some username
      → req.text_of (bytes_of "password") ≡ some password
      → let info = record user_sign { username = username; password = password } in
        let cursor = inserted l info (record w.network { response = user_ret }) in
        is_ok cursor.status ≡ true
        → let out = register_http r req w in
          (out.0 ≡ ok tt)
          × ((uuid : Text) × (out.1.http.cookies ≡ w.http.cookies ++ (cookie_of uuid ∷ []))
              × (out.1.network.started
                  ≡ w.network.started ++ (session_request uuid cursor.insert_id garbage ∷ []))
              × (out.1.http.body
                  ≡ r.dump (
                      (bytes_of "status", scalar (number (pos 0)))
                      ∷ (bytes_of "msg", scalar (text (bytes_of "ok!")))
                      ∷ [])))
  unfolding register_http user_http user_answered
  register_http-session garbage signs req username password w eu ep good =
      let info : UserSign = record user_sign { username = username; password = password } in
      let (n1, uuid, run, response, started) =
        sign_up-session l garbage info (record w.network { response = user_ret }) good in
      rw (eu, ep, signs info w.network, run, response) (refl, (uuid, refl, started, refl))
