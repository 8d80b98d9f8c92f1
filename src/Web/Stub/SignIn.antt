-- ===== src/Web/Stub/SignIn.antt =====
-- The namespace UserSignInService of httppart/UserSign.srpc.h.
use filedisk_server.Common.{[], ◌∷◌}
use filedisk_server.Common.Text.{bytes_of}
use filedisk_server.Web.Message.{UserSign}
use filedisk_server.Web.Stub.{
  Params, srpc, srpc_http, brpc, trpc, trpc_http, Stub, plain_stub, trpc_stub, trpc_http_stub,
  Service,
}

-- `Service::Service`, with the method that the server overrides.
abbrev pub service : {H : Type 0} → H → Service H
service handler = record {
  name = bytes_of "UserSignInService";
  methods = (bytes_of "SignIn", handler) ∷ [];
}

-- `SRPCClient`
abbrev pub srpc_client : Params → Stub UserSign
srpc_client defaults = plain_stub defaults srpc (bytes_of "UserSignInService") (bytes_of "SignIn")

-- `SRPCHttpClient`
abbrev pub srpc_http_client : Params → Stub UserSign
srpc_http_client defaults =
    plain_stub defaults srpc_http (bytes_of "UserSignInService") (bytes_of "SignIn")

-- `BRPCClient`
abbrev pub brpc_client : Params → Stub UserSign
brpc_client defaults = plain_stub defaults brpc (bytes_of "UserSignInService") (bytes_of "SignIn")

-- `TRPCClient`
abbrev pub trpc_client : Params → Stub UserSign
trpc_client defaults = trpc_stub defaults trpc (bytes_of "UserSignInService") (bytes_of "SignIn")

-- `TRPCHttpClient`
abbrev pub trpc_http_client : Params → Stub UserSign
trpc_http_client defaults =
    trpc_http_stub defaults trpc_http (bytes_of "UserSignInService") (bytes_of "SignIn")
