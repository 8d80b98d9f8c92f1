-- ===== src/Session.antt =====
-- The file protocol: tcppart/CusInfo.h and the classes `UserValidate` and `FileTask` of
-- tcppart/FileServer.cc.
pub mod Wire
pub mod Services
pub mod Values
pub mod FileTask
pub mod Sample
