-- ===== src/Loop.antt =====
-- tcppart/EventLoop.cc, with the calls of TcpConnection and Acceptor that it makes.
pub mod Poll
pub mod Epoll
pub mod Connection
pub mod EventLoop
