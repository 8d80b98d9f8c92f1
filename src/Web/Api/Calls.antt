-- ===== src/Web/Api/Calls.antt =====
-- Where the calls of the HTTP handlers go, and what becomes of their messages.
use filedisk_server.Common.{◌+◌, ◌≡◌, ◌≢◌, refl, none, List, [], ◌∷◌, ◌++◌, arith}
use filedisk_server.Common.Text.{bytes_of}
use filedisk_server.Common.Runs.{ok, fault, bad_json}
use filedisk_server.Web.Message.{DirInfo, UserSign}
use filedisk_server.Web.Stub.{Task, Stub, Service, Server}
use filedisk_server.Web.Stub.SignUp
use filedisk_server.Web.Stub.SignIn
use filedisk_server.Web.Stub.DirAdd
use filedisk_server.Web.Stub.DirRm
use filedisk_server.Web.Stub.DirQuery
use filedisk_server.Web.Api.{
  HttpReq, Front, Remote, dir_task, read_info, dir_answered, dir_http, user_task, dir_server,
  user_server,
}

-- The task is for the port of the server, and asks for the method of one of its services whose handler
-- is `h`.
abbrev pub Routed : {Req H : Type 0} → Task Req → Server H → H → Type 0
Routed {H} task server h =
    (task.client.params.port ≡ server.port)
    × ((before after : List (Service H)) × (service : Service H) × (server.services
          ≡ before ++ (service ∷ after))
        × (service.name ≡ task.client.service)
        × (service.methods ≡ (task.method, h) ∷ []))

module _ {N : Type 0} (r : Remote N) where
  -- The tasks of "/register" and "/login" are for the port of the user server, and come to its handlers
  -- of `SignUp` and of `SignIn`. Those of "/querydir", "/adddir" and "/rmdir" are for another port than
  -- the one at which the directory server listens.
  tasks-Routed :
      {H : Type 0} (h1 h2 h3 : H) (user : UserSign) (info : DirInfo)
      → Routed (user_task r (SignUp.srpc_client r.defaults) user) (user_server h1 h2) h1
        × Routed (user_task r (SignIn.srpc_client r.defaults) user) (user_server h1 h2) h2
        × ((dir_task r (DirQuery.srpc_client r.defaults) info).client.params.port
            ≢ (dir_server h1 h2 h3).port)
        × ((dir_task r (DirAdd.srpc_client r.defaults) info).client.params.port
            ≢ (dir_server h1 h2 h3).port)
        × ((dir_task r (DirRm.srpc_client r.defaults) info).client.params.port
            ≢ (dir_server h1 h2 h3).port)
  unfolding user_task dir_task
  tasks-Routed h1 h2 h3 user info = (
    (refl, ([], SignIn.service h2 ∷ [], SignUp.service h1, refl, refl, refl)),
    (refl, (SignUp.service h1 ∷ [], [], SignIn.service h2, refl, refl, refl)),
    ground arith,
    ground arith,
    ground arith,
  )

  -- A directory request that is answered has its message deleted. One whose body lacks a member, or has
  -- it with another type, ends in an exception after the message was made, and the message stays.
  dir_http-live :
      (stub : Stub DirInfo) (req : HttpReq) (w : Front N)
      → ((dir_http r stub req w).0 ≡ ok tt → (dir_http r stub req w).1.live ≡ w.live)
        × (req.number_of (bytes_of "dirid") ≡ none
            → ((dir_http r stub req w).0 ≡ fault bad_json)
              × ((dir_http r stub req w).1.live ≡ w.live + 1))
        × (req.text_of (bytes_of "dirName") ≡ none
            → ((dir_http r stub req w).0 ≡ fault bad_json)
              × ((dir_http r stub req w).1.live ≡ w.live + 1))
        × (req.text_of (bytes_of "uuid") ≡ none
            → ((dir_http r stub req w).0 ≡ fault bad_json)
              × ((dir_http r stub req w).1.live ≡ w.live + 1))
  unfolding dir_http read_info dir_answered
  dir_http-live stub req w = ground arith
