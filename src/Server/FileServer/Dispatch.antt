-- ===== src/Server/FileServer/Dispatch.antt =====
-- The event loop of the file server and its pool together. The thread `l` runs the loop; the other
-- threads are the workers, and perhaps one that calls `stop`. `FileServer::onMessage` makes a FileTask
-- on its stack and calls `addTask`, in which the loop waits for the mutex and for room in the queue
-- while the workers go on; when `push` has returned, `onMessage` returns and the FileTask is gone.
pub mod Acts
pub mod Split
pub mod Handover
pub mod Promises
pub mod Tests
use filedisk_server.Common.{
  ℕ, ◌≡◌, Bool, Option, none, some, List, [], ◌∷◌, ◌++◌, ◌==◌, if◌then◌else◌,
}
use filedisk_server.Common.Family.{update}
use filedisk_server.Pool.Worker.{idle, push_lock}
use filedisk_server.Pool.System.{System, Step}
use filedisk_server.Loop.Poll.{Poll, Callbacks}
use filedisk_server.Loop.Connection.{no_callbacks, set_all_callback}
use filedisk_server.Loop.EventLoop.{LoopState, handle_event, grow}
use filedisk_server.Server.FileServer.{
  TcpServer, Network, Node, construct, add_task, destroy, connect, on_new_connection, on_close,
  poll,
}

-- What `waitEpollFd` does, piece by piece: a call of `epoll_wait`, a larger list of events, and the
-- work on one event.
pub data Act : Type 0 where
  polls : Act
  grows : ℕ → Act
  handles : ℕ × Bool → Act

unfoldable pub apply : {W : Type 0} → Poll W → Callbacks W → ℕ → Act → LoopState W → LoopState W
unfolding grow handle_event
apply p cb listenfd polls s = record s { outside = (p.wait s.outside s.evt_size).1 }
apply p cb listenfd (grows n) s = grow p cb listenfd n s
apply p cb listenfd (handles e) s = handle_event p cb listenfd s e

-- What `onMessage` still has to do when `addTask` is over.
unfoldable pub leave : {W : Type 0} → Network W → ℕ → Node W → Node W
unfolding destroy
leave k id node = let node1 = add_task k id node in record node1 { tasks = destroy id node1.tasks }

-- The FileTask that `onMessage` has made, if it was called.
abbrev pub entered : ℕ → ℕ → Option ℕ
entered before after = if before == after then none else some before

-- The thread `l` calls `addTask`.
abbrev pub enter : ℕ → Option ℕ → System → System
enter l none s = s
enter l (some id) s = record { mem = s.mem; pc = update s.pc l (push_lock id) }

-- `inside` is the FileTask of the call of `onMessage` that has not returned. `acts` records what the
-- loop has done.
pub record Whole (W : Type 0) : Type 0 where
  pub pool : System
  pub loop : LoopState (Node W)
  pub inside : Option ℕ
  pub acts : List Act

module _ {W : Type 0} (k : Network W) (a : TcpServer) where
  -- The callbacks of the server, with `onMessage` up to the call of `addTask`.
  abbrev pub entering : Callbacks (Node W)
  unfolding connect on_new_connection on_close
  entering =
      set_all_callback (some (λ fd node. on_new_connection k fd (connect k fd node)))
        (some (λ fd node. construct k node)) (some (on_close k)) no_callbacks

  unfoldable pub act : ℕ → Act → Whole W → Whole W
  unfolding apply
  act l x s =
      let loop1 = apply (poll k a) entering a.acceptor.fd x s.loop in
      let inside1 = entered s.loop.outside.next_task loop1.outside.next_task in
      record {
        pool = enter l inside1 s.pool;
        loop = loop1;
        inside = inside1;
        acts = s.acts ++ (x ∷ []);
      }

  -- While `onMessage` is in `addTask` the loop stands still. A step of the pool begins no `addTask`.
  pub data Serve (n l : ℕ) (s : Whole W) : Whole W → Type 0 where
    acts_on : (x : Act) → s.inside ≡ none → s.pool.pc l ≡ idle → Serve n l s (act l x s)
    runs :
        {t : System}
        → Step n s.pool t
        → (s.pool.pc l ≡ idle → t.pc l ≡ idle)
        → Serve n l s (record s { pool = t })
    leaves :
        (id : ℕ)
        → s.inside ≡ some id
        → s.pool.pc l ≡ idle
        → Serve n l s (record s {
          loop = record s.loop { outside = leave k id s.loop.outside };
          inside = none;
        })

  pub data Serves (n l : ℕ) (s : Whole W) : Whole W → Type 0 where
    begun : Serves n l s s
    and_then : {t u : Whole W} → Serves n l s t → Serve n l t u → Serves n l s u
