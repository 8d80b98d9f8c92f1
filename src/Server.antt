-- ===== src/Server.antt =====
-- How the parts of the TCP server are put together: tcppart/Acceptor.cc, tcppart/TcpServer.cc,
-- tcppart/FileServer.cc (the class `FileServer`), tcppart/Thread.cc with `start` and `stop` of
-- tcppart/ThreadPool.cc, and the classes Socket and InetAddress.
pub mod Address
pub mod Acceptor
pub mod Threads
pub mod FileServer
pub mod Tests
