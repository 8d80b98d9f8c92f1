-- ===== src/Server/FileServer.antt =====
-- tcppart/TcpServer.cc and the class `FileServer` of tcppart/FileServer.cc, on the event loop of
-- Loop/EventLoop: the constructors, `start`, `stop` and the three callbacks. Of TcpConnection there are the
-- addresses of the two ends and the destructor: no FileTask is left that holds a connection when the
-- map drops it. `addTask` only records the task here; Dispatch has the queue and its threads too.
pub mod Waits
pub mod Watch
pub mod Served
pub mod Deaf
pub mod Descriptors
pub mod Dispatch
pub mod Tests
use mathlib.Core.Option
use filedisk_server.Common.{
  ℕ, ◌+◌, Bool, false, Option, none, some, List, [], ◌∷◌, ◌++◌, ◌==◌, if◌then◌else◌,
}
use filedisk_server.Common.Runs.{Text}
use filedisk_server.Common.Text.{bytes_of, to_string}
use filedisk_server.Net.Kernel.{Received}
use filedisk_server.Loop.Poll.{Waited, Poll, Callbacks}
use filedisk_server.Loop.Connection.{no_callbacks, set_all_callback}
use filedisk_server.Loop.Epoll.{Epoll, create_epoll_fd, add_epoll_read_fd, del_epoll_read_fd}
use filedisk_server.Loop.EventLoop.{LoopState}
use filedisk_server.Loop.EventLoop
use filedisk_server.Server.Address.{InetAddress, inet_address, ip_of, port_of}
use filedisk_server.Server.Acceptor.{Sockets, Acceptor, acceptor, accept_connection}
use filedisk_server.Server.Threads.{Pthreads, PoolCalls, Thread, pool_start, pool_stop}

-- `_localAddr` and `_peerAddr`.
pub record Addresses : Type 0 where
  pub local_addr : InetAddress
  pub peer_addr : InetAddress

-- What the server calls on the network, beside the sockets of the acceptor.
pub record Network (W : Type 0) : Type 0 where
  pub sockets : Sockets W
  pub epoll : Epoll W
  pub wait : W → ℕ → ℕ → Waited × W
  pub peek : W → ℕ → Received × W
  pub unloops : W → Bool
  pub getsockname : W → ℕ → InetAddress
  pub getpeername : W → ℕ → InetAddress
  pub inet_addr : Text → ℕ
  pub inet_ntoa : ℕ → Text

pub record TcpServer : Type 0 where
  pub acceptor : Acceptor
  pub epfd : ℕ

-- `tasks` are the objects of class FileTask that exist, each by a number of its own; `handed` are the
-- objects whose `process` went to the pool, and `published` the messages for RabbitMQ, both in order.
pub record Node (W : Type 0) : Type 0 where
  pub net : W
  pub ends : List (ℕ × Addresses)
  pub tasks : List ℕ
  pub next_task : ℕ
  pub handed : List ℕ
  pub published : List Text

pub destroy : ℕ → List ℕ → List ℕ
destroy id [] = []
destroy id (x ∷ xs) = let rest = destroy id xs in if x == id then rest else x ∷ rest

pub ends_of : ℕ → List (ℕ × Addresses) → Option Addresses
ends_of fd [] = none
ends_of fd ((x, e) ∷ xs) = let rest = ends_of fd xs in if x == fd then some e else rest

-- Lifts what happens to the network.
abbrev pub lift : {W A : Type 0} → Node W → A × W → A × Node W
lift node (a, w) = (a, record node { net = w })

-- The state before any call.
abbrev pub new_node : {W : Type 0} → W → Node W
new_node w = record { net = w; ends = []; tasks = []; next_task = 0; handed = []; published = [] }

module _ {W : Type 0} (k : Network W) where
  -- `TcpConnection::toString`
  pub connection_text : Addresses → Text
  connection_text e =
      ip_of k.inet_ntoa e.local_addr
      ++ (bytes_of ":"
          ++ (to_string (port_of e.local_addr)
              ++ (bytes_of "---->"
                  ++ (ip_of k.inet_ntoa e.peer_addr
                      ++ (bytes_of ":" ++ to_string (port_of e.peer_addr))))))

  -- The constructor of TcpConnection, which the loop calls right before `onNewConnection`.
  pub connect : ℕ → Node W → Node W
  connect fd node = record node {
    ends =
        (
          fd,
          record { local_addr = k.getsockname node.net fd; peer_addr = k.getpeername node.net fd },
        )
        ∷ node.ends;
  }

  -- `BasicPublish` of the text of a connection and a tail; every connection of the map has its ends.
  pub publish : Text → Option Addresses → Node W → Node W
  unfolding connection_text
  publish tail none node = node
  publish tail (some e) node = record node {
    published = node.published ++ ((connection_text e ++ tail) ∷ []);
  }

  pub on_new_connection : ℕ → Node W → Node W
  unfolding publish ends_of
  on_new_connection fd node = publish (bytes_of " has connected!") (ends_of fd node.ends) node

  pub on_close : ℕ → Node W → Node W
  unfolding publish ends_of
  on_close fd node = publish (bytes_of " has closed!") (ends_of fd node.ends) node

  -- The destructor of TcpConnection: that of `_sock`, then that of `_sockIO`.
  pub close_connection : W → ℕ → W
  close_connection w fd = k.epoll.close (k.epoll.close w fd) fd

  -- The constructor of FileTask, on the stack of `onMessage`, and `addTask` with its address.
  abbrev pub construct : Node W → Node W
  construct node = record node {
    tasks = node.next_task ∷ node.tasks;
    next_task = node.next_task + 1;
  }

  abbrev pub add_task : ℕ → Node W → Node W
  add_task id node = record node { handed = node.handed ++ (id ∷ []) }

  pub on_message : ℕ → Node W → Node W
  unfolding destroy
  on_message fd node =
      let node1 = add_task node.next_task (construct node) in
      record node1 { tasks = destroy node.next_task node1.tasks }

  -- What `start` gives to `setAllCallback`, with the constructor of the connection before the first one.
  abbrev pub callbacks : Callbacks (Node W)
  unfolding connect on_new_connection on_message on_close
  callbacks =
      set_all_callback (some (λ fd node. on_new_connection fd (connect fd node))) (some on_message)
        (some on_close) no_callbacks

  -- The event loop of the server.
  abbrev pub poll : TcpServer → Poll (Node W)
  unfolding accept_connection close_connection add_epoll_read_fd del_epoll_read_fd
  poll a = record {
    wait = λ node n. lift node (k.wait node.net a.epfd n);
    accept = λ node. lift node (accept_connection k.sockets a.acceptor node.net);
    peek = λ node fd. lift node (k.peek node.net fd);
    add = λ node fd. record node { net = add_epoll_read_fd k.epoll a.epfd node.net fd };
    del = λ node fd. record node { net = del_epoll_read_fd k.epoll a.epfd node.net fd };
    release = λ node fd. record node { net = close_connection node.net fd };
    unloops = λ node. k.unloops node.net;
  }

  -- `TcpServer::TcpServer`: the acceptor, and the loop on it with its epoll instance.
  pub tcp_server : Text → ℕ → W → TcpServer × LoopState (Node W)
  unfolding acceptor create_epoll_fd EventLoop.start
  tcp_server ip port w =
      let (a, w1) = acceptor k.sockets (inet_address k.inet_addr ip port) w in
      let (epfd, w2) = create_epoll_fd k.epoll w1 in
      let server : TcpServer = record { acceptor = a; epfd = epfd } in
      (server, EventLoop.start (poll server) callbacks a.fd (new_node w2))

  -- `FileServer::start` on the pool and the server: the threads, then the loop.
  pub server_start :
      {T : Type 0}
      → Pthreads T
      → ℕ
      → ℕ
      → ℕ
      → TcpServer × LoopState (Node W)
      → T
      → Option (LoopState (Node W)) × List Thread × T
  server_start q threads fuel inner (a, s) t =
      let (ths, t1) = pool_start q threads t in
      (EventLoop.loop (poll a) callbacks a.acceptor.fd fuel inner s, ths, t1)

  -- `FileServer::stop`: `stop` of the pool, and then `unloop`.
  unfoldable pub server_stop :
      {T : Type 0}
      → Pthreads T
      → PoolCalls T
      → ℕ
      → LoopState (Node W)
      → List Thread
      → T
      → Option (LoopState (Node W) × List Thread × T)
  unfolding Option.bind
  server_stop q pool fuel s ths t =
      Option.bind (pool_stop q pool fuel ths t)
        (λ r. some (record s { is_looping = false }, r.0, r.1))

  -- `main`, with 10 threads; the queue of 100 tasks is not part of this model.
  pub serve_files :
      {T : Type 0} → Pthreads T → ℕ → ℕ → W → T → Option (LoopState (Node W)) × List Thread × T
  unfolding tcp_server server_start
  serve_files q fuel inner w t =
      server_start q 10 fuel inner (tcp_server (bytes_of "127.0.0.1") 8888 w) t
