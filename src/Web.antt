-- ===== src/Web.antt =====
-- The HTTP front and the two RPC services: httppart/ApiServer.cc, httppart/dirinfoserver.cc,
-- httppart/use_rpcserver.cc, httppart/Utilty.cc and the stubs in httppart/*.srpc.h.
pub mod Message
pub mod Library
pub mod Dirs
pub mod Users
pub mod Handover
pub mod Stub
pub mod Wire
pub mod Api
pub mod Sample
pub mod Tests
