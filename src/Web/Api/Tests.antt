-- ===== src/Web/Api/Tests.antt =====
-- The theorems on the HTTP handlers and on the stubs at concrete inputs.
use filedisk_server.Common.{
  ℕ, ◌≡◌, refl, Option, none, some, List, [], ◌∷◌, length, eq_bytes, if◌then◌else◌,
}
use filedisk_server.Common.Int.{pos, negsuc}
use filedisk_server.Common.Text.{bytes_of}
use filedisk_server.Common.Runs.{Text, ok}
use filedisk_server.Web.Message.{UserSign, UserRet, user_ret}
use filedisk_server.Web.Library.{
  status_ok, get_result, Cell, Cursor, Library, Serving, number, text, scalar,
}
use filedisk_server.Web.Stub.{Params}
use filedisk_server.Web.Users.{session_request, sign_up, sign_in}
use filedisk_server.Web.Sample.{Hashes, sample_with, cursors, serving}
use filedisk_server.Web.Api.{HttpReq, HttpResp, Front, Remote, user_task, register_http}
use filedisk_server.Web.Api.Login.{SignsIn, SignsUp, cookie_of, register_http-session}

abbrev defaults : Params
defaults = record { host = []; port = 0; callee_timeout = negsuc 0; caller = bytes_of "api" }

abbrev Back : Type 0 → Type 0
Back Q = Serving Hashes Q ℕ UserRet

-- A task for `SignUp` or `SignIn` comes to the handler.
abbrev delivered :
    {Q : Type 0} → Library Hashes Q ℕ → Option UserSign → Text → Back Q → Option UserRet × Back Q
delivered l none method n = (none, n)
delivered l (some info) method n =
    let out =
      if eq_bytes method (bytes_of "SignUp")
      then sign_up l (bytes_of "??") info (record n { response = user_ret })
      else sign_in l info (record n { response = user_ret }) in
    (some out.1.response, out.1)

abbrev network_of : {Q : Type 0} → Library Hashes Q ℕ → Remote (Back Q)
network_of l = record {
  defaults = defaults;
  dir_call = λ task n. (some (record { code = pos 0; jsoninfo = bytes_of "ok" }), n);
  user_call = λ task n. delivered l task.input task.method n;
  dump = λ json. length json ∷ [];
}

abbrev network : Remote (Back Cursor)
network = network_of cursors

-- A MySQL whose answers all have result sets.
abbrev selecting : Library Hashes (List (List Cell)) ℕ
selecting =
    sample_with
      (λ rows. record { status = get_result; insert_id = 0; affected_rows = 1; rows = rows })

signs_in : SignsIn selecting (network_of selecting)
unfolding user_task
signs_in info n = refl

signs_up : SignsUp cursors network (bytes_of "??")
unfolding user_task
signs_up info n = refl

abbrev post : HttpReq
post = record {
  number_of = λ k. none;
  text_of = λ k. if eq_bytes k (bytes_of "uuid") then none else some (bytes_of "bo");
}

abbrev blank : HttpResp
blank = record { headers = []; cookies = []; body = [] }

abbrev row : Cursor
row = record { status = status_ok; insert_id = 7; affected_rows = 1; rows = [] }

abbrev front : Cursor → Front (Back Cursor)
front cursor = record { network = serving [] cursor user_ret; live = 4; http = blank }

register_http-session_example :
    let out = register_http network post (front row) in
    (out.0 ≡ ok tt)
    × ((uuid : Text) × (out.1.http.cookies ≡ cookie_of cursors network uuid ∷ [])
        × (out.1.network.started ≡ session_request uuid 7 (bytes_of "??") ∷ [])
        × (out.1.http.body
            ≡ network.dump (
                (bytes_of "status", scalar (number (pos 0)))
                ∷ (bytes_of "msg", scalar (text (bytes_of "ok!")))
                ∷ [])))
register_http-session_example =
    register_http-session cursors network (bytes_of "??") signs_up post (bytes_of "bo")
      (bytes_of "bo") (front row) refl refl refl
