-- ===== src/Web/Stub/DirRm.antt =====
-- The namespace DirRmService of httppart/FileManager.srpc.h.
use filedisk_server.Common.{[], ◌∷◌}
use filedisk_server.Common.Text.{bytes_of}
use filedisk_server.Web.Message.{DirInfo}
use filedisk_server.Web.Stub.{
  Params, srpc, srpc_http, brpc, trpc, trpc_http, Stub, plain_stub, trpc_stub, trpc_http_stub,
  Service,
}

-- `Service::Service`, with the method that the server overrides.
abbrev pub service : {H : Type 0} → H → Service H
service handler = record {
  name = bytes_of "DirRmService";
  methods = (bytes_of "DirRm", handler) ∷ [];
}

-- `SRPCClient`
abbrev pub srpc_client : Params → Stub DirInfo
srpc_client defaults = plain_stub defaults srpc (bytes_of "DirRmService") (bytes_of "DirRm")

-- `SRPCHttpClient`
abbrev pub srpc_http_client : Params → Stub DirInfo
srpc_http_client defaults =
    plain_stub defaults srpc_http (bytes_of "DirRmService") (bytes_of "DirRm")

-- `BRPCClient`
abbrev pub brpc_client : Params → Stub DirInfo
brpc_client defaults = plain_stub defaults brpc (bytes_of "DirRmService") (bytes_of "DirRm")

-- `TRPCClient`
abbrev pub trpc_client : Params → Stub DirInfo
trpc_client defaults = trpc_stub defaults trpc (bytes_of "DirRmService") (bytes_of "DirRm")

-- `TRPCHttpClient`
abbrev pub trpc_http_client : Params → Stub DirInfo
trpc_http_client defaults =
    trpc_http_stub defaults trpc_http (bytes_of "DirRmService") (bytes_of "DirRm")
