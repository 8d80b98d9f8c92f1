-- ===== src/Loop/EventLoop.antt =====
-- The class `EventLoop` of tcppart/EventLoop.cc, with `isClosed` and the `handle` methods of
-- tcppart/TcpConnection.cc. A connection is known by its descriptor.
pub mod Lifecycle
pub mod EvtList
pub mod Unloop
pub mod Preserved
pub mod Tests
use filedisk_server.Common.{
  ℕ, zero, suc, ◌+◌, ◌*◌, Bool, true, false, ◌||◌, Option, none, some, List, [], ◌∷◌, ◌++◌, length,
  ltb, ◌==◌, if◌then◌else◌,
}
use mathlib.Core.Option
use filedisk_server.Net.Kernel.{Received, bytes}
use filedisk_server.Loop.Poll.{Waited, ready, Poll, Callbacks}
use filedisk_server.Loop.Connection.{
  call, connection_of, handle_new_connection_callback, handle_message_callback,
  handle_close_callback,
}

-- A call of `handleNewConnectionCallback`, `handleMessageCallback` or `handleCloseCallback`.
pub data Call : Type 0 where
  opened message closed : ℕ → Call

-- `log` records the calls so far; the code does not store it. `evt_size` and `evt_capacity` are
-- those of the vector `_evtList`.
pub record LoopState (W : Type 0) : Type 0 where
  pub is_looping : Bool
  pub evt_size : ℕ
  pub evt_capacity : ℕ
  pub conns : List ℕ  -- the keys of `_conns`
  pub log : List Call
  pub outside : W

unfoldable pub has : ℕ → List ℕ → Bool
has fd [] = false
has fd (x ∷ xs) = x == fd || has fd xs

-- `_conns[connfd] = con`
pub put : ℕ → List ℕ → List ℕ
unfolding has
put fd xs = if has fd xs then xs else fd ∷ xs

-- `_conns.erase(it)`
pub erase : ℕ → List ℕ → List ℕ
erase fd [] = []
erase fd (x ∷ xs) = let rest = erase fd xs in if x == fd then rest else x ∷ rest

module _ {W : Type 0} where
  -- `TcpConnection::isClosed`
  unfoldable pub is_closed : Received × W → Bool × W
  is_closed (Received.interrupted, w) = (false, w)
  is_closed (Received.failed, w) = (false, w)
  is_closed (bytes [], w) = (true, w)
  is_closed (bytes (b ∷ bs), w) = (false, w)

-- `_conns[connfd] = con` lets go of a connection that the map has under the same descriptor.
unfoldable pub replaced : {W : Type 0} → Poll W → List ℕ → ℕ → W → W
unfolding has
replaced p conns connfd w = if has connfd conns then p.release w connfd else w

module _ {W : Type 0} (p : Poll W) (cb : Callbacks W) (listenfd : ℕ) where
  -- The constructor; `vector(1024)`.
  unfoldable pub start : W → LoopState W
  start w = record {
    is_looping = false;
    evt_size = 1024;
    evt_capacity = 1024;
    conns = [];
    log = [];
    outside = p.add w listenfd;
  }

  -- `handleNewConnection` with the answer of `accept`.
  unfoldable pub accepted : LoopState W → Option ℕ × W → LoopState W
  unfolding put call replaced
  accepted s (none, w) = record s { outside = w }
  accepted s (some connfd, w) = record s {
    conns = put connfd s.conns;
    log = s.log ++ (opened connfd ∷ []);
    outside =
        handle_new_connection_callback (connection_of cb connfd)
          (replaced p s.conns connfd (p.add w connfd));
  }

  unfoldable pub handle_new_connection : LoopState W → LoopState W
  unfolding accepted
  handle_new_connection s = accepted s (p.accept s.outside)

  -- What `handleMessage` does for a connection of the map, with the answer of `isClosed`. The
  -- connection has the callbacks that it was made with, which are those of the loop.
  unfoldable pub handle_known : LoopState W → ℕ → Bool × W → LoopState W
  unfolding call erase
  handle_known s fd (true, w) = record s {
    conns = erase fd s.conns;
    log = s.log ++ (closed fd ∷ []);
    outside = p.release (p.del (handle_close_callback (connection_of cb fd) w) fd) fd;
  }
  handle_known s fd (false, w) = record s {
    log = s.log ++ (message fd ∷ []);
    outside = handle_message_callback (connection_of cb fd) w;
  }

  unfoldable pub handle_message : LoopState W → ℕ → LoopState W
  unfolding has is_closed handle_known
  handle_message s fd =
      if has fd s.conns then handle_known s fd (is_closed (p.peek s.outside fd)) else s

  -- One round of the `for` of `waitEpollFd`.
  unfoldable pub handle_event : LoopState W → ℕ × Bool → LoopState W
  unfolding handle_new_connection handle_message
  handle_event s (fd, false) = s
  handle_event s (fd, true) =
      if fd == listenfd then handle_new_connection s else handle_message s fd

  unfoldable pub handle_events : LoopState W → List (ℕ × Bool) → LoopState W
  unfolding handle_event
  handle_events s [] = s
  handle_events s (e ∷ es) = handle_events (handle_event s e) es

  -- `_evtList.reserve(2 * nready)` on a full list: the capacity grows, the size does not.
  unfoldable pub grow : ℕ → LoopState W → LoopState W
  grow nready s =
      if nready == s.evt_size
      then record s {
        evt_capacity = if ltb s.evt_capacity (2 * nready) then 2 * nready else s.evt_capacity;
      }
      else s

  -- What follows an answer of `epoll_wait`; `again` is the `do` loop.
  unfoldable pub waited :
      (LoopState W → Option (LoopState W)) → LoopState W → Waited × W → Option (LoopState W)
  unfolding handle_events grow
  waited again s (Waited.interrupted, w) = again (record s { outside = w })
  waited again s (Waited.failed, w) = some (record s { outside = w })
  waited again s (ready [], w) = some (record s { outside = w })
  waited again s (ready (e ∷ es), w) =
      some (handle_events (grow (length (e ∷ es)) (record s { outside = w })) (e ∷ es))

  -- `waitEpollFd`; `fuel` is for the answers with EINTR.
  unfoldable pub wait_epoll_fd : ℕ → LoopState W → Option (LoopState W)
  unfolding waited
  wait_epoll_fd zero s = none
  wait_epoll_fd (suc fuel) s = waited (wait_epoll_fd fuel) s (p.wait s.outside s.evt_size)

  unfoldable pub unloop : LoopState W → LoopState W
  unloop s = record s { is_looping = false }

  -- What the test of the `while` finds.
  unfoldable pub tested : LoopState W → LoopState W
  unfolding unloop
  tested s = if p.unloops s.outside then unloop s else s

  -- The `while` of `loop`; `fuel` is for its rounds, `inner` for each `waitEpollFd`.
  pub rounds : ℕ → ℕ → LoopState W → Option (LoopState W)
  unfolding tested wait_epoll_fd
  rounds zero inner s = none
  rounds (suc fuel) inner s =
      let next : Option (LoopState W) =
        Option.bind (wait_epoll_fd inner (tested s)) (rounds fuel inner) in
      if (tested s).is_looping then next else some (tested s)

  -- The assignment at the start overwrites what an `unloop` before it has written.
  pub loop : ℕ → ℕ → LoopState W → Option (LoopState W)
  unfolding rounds
  loop fuel inner s = rounds fuel inner (record s { is_looping = true })
