-- ===== src/Lib.antt =====
-- FilediskServer: a file server over TCP (tcppart/), with an HTTP front and two RPC services
-- (httppart/).
--
-- The program. One thread runs an epoll loop. For each message of a connection it gives the pool a
-- task, `FileTask::process`; the threads of the pool take the tasks from a bounded queue. A task
-- reads a session id from its connection, asks Redis for the user, and then stores a file that the
-- client sends, or sends one. It reads and writes through `TcpConnection`, which calls `SocketIO`.
--
-- The files.
--   Net: tcppart/SocketIO.cc, and `send` and `receive` of tcppart/TcpConnection.cc. Net/Kernel has the
--     system calls as parameters with what their manual pages say (`Laws`); Net/SocketIo has `readn`
--     (`read_n`), `writen` (`write_n`) and `readLine` (`read_line`), with a function for one round of
--     each loop; Net/Script is a kernel that runs.
--   Loop: tcppart/EventLoop.cc. Loop/Poll has the system calls of the loop and the callbacks as
--     parameters, Loop/Epoll what the loop does with its epoll instance, and Loop/Connection the callbacks
--     of a connection and how they are set; Loop/EventLoop has a definition for each method, over the map of connections, the list
--     of events and a log of the calls of callbacks, and its children the theorems.
--   Pool: tcppart/TaskQueue.cc and tcppart/ThreadPool.cc, with MutexLock, Condition and Thread. Pool/Memory
--     has what the threads share, Pool/Worker the steps of one thread from one shared access to the
--     next (`Move`), Pool/System the steps of all of them in any interleaving (`Step`, `Reach`).
--     Pool/Invariant, Safety, Progress and Shutdown are about the states that the threads can reach.
--     Pool/Sync has tcppart/MutexLock.cc, Condition.cc, and `push`, `pop` and `wakeup` again as the calls
--     that one thread makes: the pthread functions are parameters, and what the other threads do while
--     it waits is in what they answer. A fuel above the number of the waits is enough for its loops.
--     Pool/Sync/During follows a producer among the threads of Pool/System on its way through `push`,
--     and Pool/Sync/Replay sets it against `push` of Pool/Sync.
--   Session: `FileTask` and `UserValidate` of tcppart/FileServer.cc, and tcppart/CusInfo.h. Session/Wire
--     has the structures as bytes, Session/Services the parameters, Session/Values the texts and numbers
--     on the way, Session/FileTask a definition for each method, and Session/Sample services that run.
--   Web: httppart/. Web/Message has the messages of the .proto files, Web/Library what the RPC services call,
--     Web/Dirs the handlers of dirinfoserver.cc, Web/Users those of use_rpcserver.cc with Utilty.cc,
--     Web/Stub the client classes of the .srpc.h files with a file for each service, Web/Api the handlers
--     of ApiServer.cc. Web/Handover is about a session that the user service makes and the file
--     server looks up. Web/Wire has the methods of the .pb.cc files for the wire form of the four messages,
--     with a file for each message, over the wire format of the protobuf library as a parameter, and
--     its children the theorems (Web/Wire/Laws has what the library promises). Web/Sample has services that run.
--   Server: how the parts above are put together. Server/Acceptor is tcppart/Acceptor.cc, Server/Address
--     tcppart/InetAddress.cc, Server/Threads the threads of a pool, and Server/FileServer the class
--     `FileServer` with its callbacks and tcppart/TcpServer.cc, on the loop of Loop/EventLoop. The
--     theorems on it are about any number of calls of `waitEpollFd` on a new server, and those of
--     Server/FileServer/Dispatch about the loop of a new server and the threads of Pool together, in any
--     interleaving.
--   Logger: logger/Logger.cc.
--   Common: lists, integers of fixed width, and decimal numerals over the native numbers.
--
-- State. `SocketIO` is modelled over the state of everything outside the program; a `FileTask` over
-- `World`, its connection, Redis, MySQL and the files, each with a state of its own. A run of a task
-- ends in `ok` or in a `Fault`: an exception, a null pointer or a length that no array can have.
--
-- Fuel. The loops of `SocketIO` make a round for each interruption and for each piece of data. Their
-- fuel is a number of rounds, and the bound is the interruptions that are to come (`patience`) and the
-- bytes asked for. The loop of `savefile` goes on until a digest is right; its fuel is a number of
-- rounds too. `waitEpollFd` makes a round for each interruption, and `loop` a round for each of its calls.
-- A parser makes a round for each field: fuel above the number of bytes is enough.
--
-- Not modelled. Redis, MySQL, MD5, RabbitMQ, Workflow, srpc, wfrest, the kernel and pthreads are not
-- in the repository: they are parameters, or guards of steps. Of the .pb files the
-- registration of the descriptors, reflection, `release` and `set_allocated` are left out. Session
-- starts with `process` on a `FileTask` that exists; Server/FileServer has the objects that `onMessage`
-- makes, as numbers: what a task does to Redis, MySQL and the files does not meet the loop. A task of the pool is a number: an empty
-- `std::function`, which `addTask` drops, does not occur, nor does an exception out of a task.
pub mod Common
pub mod Logger
pub mod Loop
pub mod Net
pub mod Pool
pub mod Server
pub mod Session
pub mod Web
