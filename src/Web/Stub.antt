-- ===== src/Web/Stub.antt =====
-- The client stubs and the services of httppart/UserSign.srpc.h and httppart/FileManager.srpc.h. Each of
-- the five services has the same code for its five client classes but for names, and three of these
-- classes are alike: a class is a record of what its methods do, made by `plain_stub`, `trpc_stub` or
-- `trpc_http_stub`.
pub mod SignUp
pub mod SignIn
pub mod DirAdd
pub mod DirRm
pub mod DirQuery
use filedisk_server.Common.{
  ℕ, Bool, true, false, ◌&&◌, Option, none, some, List, [], ◌∷◌, ◌++◌, if◌then◌else◌,
}
use filedisk_server.Common.Int.{ℤ, pos, negsuc}
use filedisk_server.Common.Runs.{Text}

-- The members of `RPCClientParams` that the stubs use.
pub record Params : Type 0 where
  pub host : Text
  pub port : ℕ
  pub callee_timeout : ℤ
  pub caller : Text

-- Which class of the library the task belongs to.
pub data Protocol : Type 0 where
  srpc srpc_http brpc trpc trpc_http : Protocol

-- A client after `init`.
pub record Client : Type 0 where
  pub protocol : Protocol
  pub service : Text
  pub params : Params

-- What happens with the result: a `done` of the caller, or the promise in `user_data`.
pub data Completion : Type 0 where
  done promise : Completion

pub record Task (Req : Type 0) : Type 0 where
  pub client : Client
  pub method : Text
  pub completion : Completion
  pub callee_timeout : Option ℤ
  pub caller_name : Option Text
  pub input : Option Req
  pub started : Bool

-- What the methods of a client class do: its two constructors, the task of a call with `done`, the
-- task of `async_`, and that of `create_..._task`.
pub record Stub (Req : Type 0) : Type 0 where
  pub with_address : Text → ℕ → Client
  pub with_params : Params → Client
  pub call : Client → Req → Task Req
  pub async : Client → Req → Task Req
  pub create_task : Client → Task Req

-- `RPCSyncContext`, as far as the stubs look at it.
pub record SyncContext : Type 0 where
  pub success : Bool
  pub error_code : ℤ

abbrev pub is_set : ℤ → Bool
is_set (pos n) = true
is_set (negsuc n) = false

abbrev pub is_empty : Text → Bool
is_empty [] = true
is_empty (c ∷ cs) = false

-- What a result is written to, which may be a null pointer.
abbrev pub filled : {A : Type 0} → Option A → A → Option A
filled none a = none
filled (some old) a = some a

module _ {Req : Type 0} where
  -- `create_rpc_client_task`
  abbrev pub new_task : Client → Text → Completion → Task Req
  new_task client method completion = record {
    client = client;
    method = method;
    completion = completion;
    callee_timeout = none;
    caller_name = none;
    input = none;
    started = false;
  }

  -- `serialize_input(req)` and `start()`.
  abbrev pub with_input : Req → Task Req → Task Req
  with_input req task = record task { input = some req; started = true }

  -- `if (this->params.callee_timeout >= 0) ...`
  abbrev pub timed : Task Req → Task Req
  timed task =
      if is_set task.client.params.callee_timeout
      then record task { callee_timeout = some task.client.params.callee_timeout }
      else task

  -- `if (!this->params.caller.empty()) ...`
  abbrev pub named : Task Req → Task Req
  named task =
      if is_empty task.client.params.caller
      then task
      else record task { caller_name = some task.client.params.caller }

  -- The classes SRPCClient, SRPCHttpClient and BRPCClient. `defaults` is RPC_CLIENT_PARAMS_DEFAULT.
  abbrev pub plain_stub : Params → Protocol → Text → Text → Stub Req
  plain_stub defaults protocol service method = record {
    with_address = λ host port. record {
      protocol = protocol;
      service = service;
      params = record defaults { host = host; port = port };
    };
    with_params = λ params. record { protocol = protocol; service = service; params = params };
    call = λ client req. with_input req (new_task client method done);
    async = λ client req. with_input req (new_task client method promise);
    create_task = λ client. new_task client method done;
  }

  -- The class TRPCHttpClient: as before, but a call has the timeout and the caller of the parameters,
  -- and a task that is only created has the caller.
  abbrev pub trpc_http_stub : Params → Protocol → Text → Text → Stub Req
  trpc_http_stub defaults protocol service method = record {
    with_address = (plain_stub defaults protocol service method).with_address;
    with_params = (plain_stub defaults protocol service method).with_params;
    call = λ client req. with_input req (named (timed (new_task client method done)));
    async = λ client req. with_input req (named (timed (new_task client method promise)));
    create_task = λ client. named (new_task client method done);
  }

  -- The class TRPCClient: its method has the name of the service before it.
  abbrev pub trpc_stub : Params → Protocol → Text → Text → Stub Req
  trpc_stub defaults protocol service method =
      trpc_http_stub defaults protocol service ((47 ∷ service) ++ ((47 ∷ []) ++ method))

  -- The method with `resp` and `sync_ctx`, which may be null: it waits for the future of `async`, whose
  -- value the library gives with `get`.
  pub call_sync :
      {Ret N : Type 0}
      → (Task Req → N → (Ret × SyncContext) × N)
      → Stub Req
      → Client
      → Req
      → Option Ret
      → Option SyncContext
      → N
      → (Option Ret × Option SyncContext) × N
  call_sync get stub client req resp sync_ctx n =
      let (res, n1) = get (stub.async client req) n in
      ((if res.1.success then filled resp res.0 else resp, filled sync_ctx res.1), n1)

-- A service of the library with the methods that its constructor adds, each with the handler that
-- a request for it comes to.
pub record Service (H : Type 0) : Type 0 where
  pub name : Text
  pub methods : List (Text × H)

-- A server that has started.
pub record Server (H : Type 0) : Type 0 where
  pub port : ℕ
  pub services : List (Service H)
