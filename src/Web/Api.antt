-- ===== src/Web/Api.antt =====
-- httppart/ApiServer.cc: the handlers of the HTTP server, and the addresses at which the servers of
-- httppart/ listen.
--
-- A handler puts an RPC task into the series of its request; the callback of the task fills the HTTP
-- response, and the callback of the series deletes the message. As in Web.Library this is one run.
pub mod Calls
pub mod Login
pub mod Tests
use filedisk_server.Common.{ℕ, ◌+◌, ◌-◌, ◌*◌, Option, none, some, List, [], ◌∷◌, ◌++◌}
use filedisk_server.Common.Int.{ℤ, pos}
use filedisk_server.Common.Text.{bytes_of}
use filedisk_server.Common.Runs.{Text, null_message, bad_json, ok, M, pure, ◌>>=◌, ◌>>◌, or_fault}
use filedisk_server.Web.Message.{DirInfo, DirRet, UserSign, UserRet, dir_info, user_sign}
use filedisk_server.Web.Library.{Json, number, text, scalar}
use filedisk_server.Web.Stub.{Params, Client, Task, Stub, Service, Server}
use filedisk_server.Web.Stub.SignUp
use filedisk_server.Web.Stub.SignIn
use filedisk_server.Web.Stub.DirAdd
use filedisk_server.Web.Stub.DirRm
use filedisk_server.Web.Stub.DirQuery

-- A request, with the members of its JSON body as `wfrest::Json` converts them; `none` is an exception.
pub record HttpReq : Type 0 where
  pub number_of : Text → Option ℤ
  pub text_of : Text → Option Text

pub record Cookie : Type 0 where
  pub key : Text
  pub value : Text
  pub expires_in : ℕ  -- in seconds from now
  pub path : Text

pub record HttpResp : Type 0 where
  pub headers : List (Text × Text)
  pub cookies : List Cookie
  pub body : Text

-- `live` counts the messages that were made with `new` and not deleted.
pub record Front (N : Type 0) : Type 0 where
  pub network : N
  pub live : ℕ
  pub http : HttpResp

-- The RPC library and `Json::dump`. A task ends with the message for its callback, or with a null
-- pointer.
pub record Remote (N : Type 0) : Type 0 where
  pub defaults : Params
  pub dir_call : Task DirInfo → N → Option DirRet × N
  pub user_call : Task UserSign → N → Option UserRet × N
  pub dump : Json → Text

abbrev pub local : Text
local = bytes_of "127.0.0.1"

module _ {N : Type 0} where
  abbrev pub allocate : M (Front N) (Unit {0})
  allocate w = (ok tt, record w { live = w.live + 1 })

  abbrev pub delete : M (Front N) (Unit {0})
  delete w = (ok tt, record w { live = w.live - 1 })

  abbrev pub respond_http : (HttpResp → HttpResp) → M (Front N) (Unit {0})
  respond_http f w = (ok tt, record w { http = f w.http })

  abbrev pub remote : {Ret : Type 0} → (N → Ret × N) → M (Front N) Ret
  remote f w = let (ret, n) = f w.network in (ok ret, record w { network = n })

module _ {N : Type 0} (r : Remote N) where
  -- The task that `query_dir_http` and its two kin put into the series.
  pub dir_task : Stub DirInfo → DirInfo → Task DirInfo
  dir_task stub info = record (stub.create_task (stub.with_address local 9999)) {
    input = some info;
  }

  pub read_info : HttpReq → M (Front N) DirInfo
  read_info req = do
    dirid ← or_fault bad_json (req.number_of (bytes_of "dirid"))
    name ← or_fault bad_json (req.text_of (bytes_of "dirName"))
    uuid ← or_fault bad_json (req.text_of (bytes_of "uuid"))
    pure (record { dirid = dirid; name = name; uuid = uuid })

  -- The callback of the task.
  pub dir_answered : DirRet → M (Front N) (Unit {0})
  dir_answered ret = respond_http (λ resp. record resp { body = ret.jsoninfo })

  pub dir_http : Stub DirInfo → HttpReq → M (Front N) (Unit {0})
  unfolding dir_task read_info dir_answered
  dir_http stub req = do
    allocate
    info ← read_info req
    answer ← remote (r.dir_call (dir_task stub info))
    ret ← or_fault null_message answer
    dir_answered ret
    delete

  pub query_dir_http : HttpReq → M (Front N) (Unit {0})
  unfolding dir_http
  query_dir_http = dir_http (DirQuery.srpc_client r.defaults)

  pub add_dir_http : HttpReq → M (Front N) (Unit {0})
  unfolding dir_http
  add_dir_http = dir_http (DirAdd.srpc_client r.defaults)

  pub rm_dir_http : HttpReq → M (Front N) (Unit {0})
  unfolding dir_http
  rm_dir_http = dir_http (DirRm.srpc_client r.defaults)

  pub user_task : Stub UserSign → UserSign → Task UserSign
  user_task stub info = record (stub.create_task (stub.with_address local 7777)) {
    input = some info;
  }

  -- The callback of the task of "/register" and of "/login".
  pub user_answered : UserRet → M (Front N) (Unit {0})
  user_answered ret = respond_http (λ resp. record {
    headers = (bytes_of "Content-Type", bytes_of "application/json") ∷ resp.headers;
    cookies =
        resp.cookies
        ++ (record {
          key = bytes_of "uuid";
          value = ret.uuid;
          expires_in = 60 * 24;
          path = bytes_of "/";
        }
            ∷ []);
    body = r.dump (
        (bytes_of "status", scalar (number ret.code))
        ∷ (bytes_of "msg", scalar (text ret.msg))
        ∷ []);
  })

  pub user_http : Stub UserSign → HttpReq → M (Front N) (Unit {0})
  unfolding user_task user_answered
  user_http stub req = do
    username ← or_fault bad_json (req.text_of (bytes_of "username"))
    password ← or_fault bad_json (req.text_of (bytes_of "password"))
    allocate
    answer ← remote (
        r.user_call
          (user_task stub (record user_sign { username = username; password = password })))
    ret ← or_fault null_message answer
    user_answered ret
    delete

  -- The handler of "/register".
  pub register_http : HttpReq → M (Front N) (Unit {0})
  unfolding user_http
  register_http = user_http (SignUp.srpc_client r.defaults)

  -- The handler of "/login".
  pub login_http : HttpReq → M (Front N) (Unit {0})
  unfolding user_http
  login_http = user_http (SignIn.srpc_client r.defaults)

  -- The handlers for POST, and for GET the page itself.
  pub index_http : M (Front N) (Unit {0})
  index_http = respond_http (λ resp. record resp {
    headers = resp.headers ++ ((bytes_of "Content-Type", bytes_of "text/html") ∷ []);
    body = bytes_of "<html><body><h1>Hello, World!</h1></body></html>";
  })

  abbrev pub posts : List (Text × (HttpReq → M (Front N) (Unit {0})))
  posts =
      (bytes_of "/register", register_http)
      ∷ (bytes_of "/login", login_http)
      ∷ (bytes_of "/querydir", query_dir_http)
      ∷ (bytes_of "/adddir", add_dir_http)
      ∷ (bytes_of "/rmdir", rm_dir_http)
      ∷ []

-- `main` of httppart/dirinfoserver.cc and of httppart/use_rpcserver.cc.
abbrev pub dir_server : {H : Type 0} → H → H → H → Server H
dir_server dir_add dir_rm dir_query = record {
  port = 1412;
  services = DirAdd.service dir_add ∷ DirRm.service dir_rm ∷ DirQuery.service dir_query ∷ [];
}

abbrev pub user_server : {H : Type 0} → H → H → Server H
user_server sign_up sign_in = record {
  port = 7777;
  services = SignUp.service sign_up ∷ SignIn.service sign_in ∷ [];
}
