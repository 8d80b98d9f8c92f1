-- ===== src/Net.antt =====
-- tcppart/SocketIO.cc and the calls of tcppart/TcpConnection.cc on it.
pub mod Kernel
pub mod SocketIo
pub mod Script
