-- ===== src/Pool.antt =====
-- The thread pool: tcppart/TaskQueue.cc, ThreadPool.cc, Thread.cc, MutexLock.h and Condition.cc, as
-- threads that take steps in any order.
pub mod Memory
pub mod Worker
pub mod System
pub mod Invariant
pub mod Safety
pub mod Progress
pub mod Producer
pub mod Sync
pub mod Shutdown
mod Tests
