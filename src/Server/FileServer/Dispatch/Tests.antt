-- ===== src/Server/FileServer/Dispatch/Tests.antt =====
-- A server with one worker gets a message: the task waits in the queue, and runs when its FileTask is
-- gone.
use filedisk_server.Common.{
  ◌⊎◌, ℕ, zero, suc, ◌+◌, ◌<◌, ◌≡◌, ◌≢◌, refl, true, false, none, some, [], ◌∷◌, ◌++◌, arith, ◌==◌,
  if◌then◌else◌, ℕ_discrete,
}
use filedisk_server.Common.Text.{bytes_of}
use filedisk_server.Net.Kernel.{bytes}
use filedisk_server.Pool.Worker.{
  idle, push_asleep, pop_asleep, running, push_locks, push_room, push_puts, push_unlocks, works,
  pop_locks, pop_ready, pop_live, pop_takes, pop_unlocks,
}
use filedisk_server.Pool.Progress.{is_busy}
use filedisk_server.Pool.System.{
  System, Role, producer, worker, stopper, Step, move, signals_nobody, signals_no_push,
}
use filedisk_server.Pool.Producer.{in_hand}
use filedisk_server.Loop.Poll.{ready}
use filedisk_server.Loop.Connection.{call}
use filedisk_server.Loop.EventLoop.{
  LoopState, has, is_closed, accepted, handle_new_connection, handle_known, handle_message,
  handle_event,
}
use filedisk_server.Server.Address.{inet_address}
use filedisk_server.Server.FileServer.{
  TcpServer, Network, Node, poll, tcp_server, destroy, connect, on_new_connection, publish,
}
use filedisk_server.Server.FileServer.Dispatch.{
  polls, handles, apply, leave, entering, Whole, act, Serve, acts_on, runs, leaves, Serves, begun,
  and_then,
}
use filedisk_server.Server.FileServer.Dispatch.Handover.{upto}
use filedisk_server.Server.FileServer.Dispatch.Promises.{
  OneLoop, begin, messages_in_order, inside-tasks, inside-goes,
}

-- The client on 5 goes on talking.
abbrev network : Network ℕ
network = record {
  sockets = record {
    socket = λ w. (some 3, w);
    setsockopt = λ w fd option. (true, w);
    bind = λ w fd addr. (true, w);
    listen = λ w fd n. (true, w);
    accept = λ w fd. (some 5, w);
  };
  epoll = record {
    epoll_create = λ w n. (some 4, w);
    epoll_ctl = λ w e c fd. (true, w);
    eventfd = λ w n. (some 6, w);
    close = λ w fd. w;
  };
  wait = λ w e n. (ready ((3, true) ∷ (5, true) ∷ []), w + 1);
  peek = λ w fd. (bytes (1 ∷ []), w);
  unloops = λ w. false;
  getsockname = λ w fd. inet_address (λ ip. 16777343) [] 8888;
  getpeername = λ w fd. inet_address (λ ip. 16777343) [] 40000;
  inet_addr = λ ip. 16777343;
  inet_ntoa = λ n. bytes_of "127.0.0.1";
}

abbrev roles : ℕ → Role
roles i = if i == 0 then worker else if i == 1 then producer else stopper

roles-OneLoop : OneLoop 3 1 roles
roles-OneLoop = record { below = omega arith; loops = refl; others = λ j d e. ground (arith, d, e) }

abbrev server : TcpServer
server = (tcp_server network (bytes_of "127.0.0.1") 8888 0).0

abbrev new_loop : LoopState (Node ℕ)
new_loop = (tcp_server network (bytes_of "127.0.0.1") 8888 0).1

record Run : Type 0 where
  last : Whole ℕ
  serves : Serves network server 3 1 (begin 4 roles new_loop) last

abbrev step : (r : Run) {t : Whole ℕ} → Serve network server 3 1 r.last t → Run
step r {t} st = record { last = t; serves = and_then r.serves st }

abbrev accepting : Run
unfolding ℕ_discrete tcp_server act apply leave destroy handle_event handle_new_connection accepted
    handle_message handle_known is_closed has call poll entering on_new_connection connect publish
accepting =
    step (step (record { last = begin 4 roles new_loop; serves = begun }) (acts_on polls refl refl))
      (acts_on (handles (3, true)) refl refl)

-- `onMessage` is about to lock the mutex of the queue.
abbrev inside : Run
unfolding ℕ_discrete tcp_server act apply leave destroy handle_event handle_new_connection accepted
    handle_message handle_known is_closed has call poll entering on_new_connection connect publish
inside = step accepting (acts_on (handles (5, true)) refl refl)

-- A step of the pool that leaves the loop's thread inside.
abbrev goes : (r : Run) {t : System} → Step 3 r.last.pool t → (r.last.pool.pc 1 ≢ idle) → Run
goes r st busy = step r (runs st (λ e. absurd (busy e)))

abbrev pushing : Run
unfolding ℕ_discrete tcp_server act apply leave destroy handle_event handle_new_connection accepted
    handle_message handle_known is_closed has call poll entering on_new_connection connect publish
pushing =
    goes
      (goes (goes inside (move 1 (omega arith) (push_locks refl)) (λ e. cc))
        (move 1 (omega arith) (push_room refl)) (λ e. cc))
      (move 1 (omega arith) push_puts) (λ e. cc)

pushing_awake : (j : ℕ) → j < 3 → pushing.last.pool.pc j ≢ pop_asleep
unfolding ℕ_discrete tcp_server act apply leave destroy handle_event handle_new_connection accepted
    handle_message handle_known is_closed has call poll entering on_new_connection connect publish
pushing_awake zero h e = cc
pushing_awake (suc zero) h e = cc
pushing_awake (suc (suc zero)) h e = cc
pushing_awake (suc (suc (suc j))) h e = absurd (omega arith)

abbrev returned : Run
unfolding ℕ_discrete tcp_server act apply leave destroy handle_event handle_new_connection accepted
    handle_message handle_known is_closed has call poll entering on_new_connection connect publish
returned =
    step
      (goes (goes pushing (signals_nobody 1 (omega arith) refl pushing_awake) (λ e. cc))
        (move 1 (omega arith) push_unlocks) (λ e. cc))
      (leaves 0 refl refl)

-- A step of a worker while the loop waits for events.
abbrev works_on : (r : Run) {t : System} → Step 3 r.last.pool t → t.pc 1 ≡ idle → Run
works_on r st calm = step r (runs st (λ e. calm))

abbrev taking : Run
unfolding ℕ_discrete tcp_server act apply leave destroy handle_event handle_new_connection accepted
    handle_message handle_known is_closed has call poll entering on_new_connection connect publish
taking =
    works_on
      (works_on
        (works_on
          (works_on (works_on returned (move 0 (omega arith) (works refl)) refl)
            (move 0 (omega arith) (pop_locks refl)) refl)
          (move 0 (omega arith) (pop_ready refl)) refl)
        (move 0 (omega arith) (pop_live refl)) refl)
      (move 0 (omega arith) (pop_takes refl)) refl

taking_room : (j u : ℕ) → j < 3 → taking.last.pool.pc j ≢ push_asleep u
unfolding ℕ_discrete tcp_server act apply leave destroy handle_event handle_new_connection accepted
    handle_message handle_known is_closed has call poll entering on_new_connection connect publish
taking_room zero u h e = cc
taking_room (suc zero) u h e = cc
taking_room (suc (suc zero)) u h e = cc
taking_room (suc (suc (suc j))) u h e = absurd (omega arith)

abbrev worker_runs : Run
unfolding ℕ_discrete tcp_server act apply leave destroy handle_event handle_new_connection accepted
    handle_message handle_known is_closed has call poll entering on_new_connection connect publish
worker_runs =
    works_on (works_on taking (signals_no_push 0 0 (omega arith) refl taking_room) refl)
      (move 0 (omega arith) pop_unlocks) refl

-- The worker runs the task 0.
worker_runs_0 : worker_runs.last.pool.pc 0 ≡ running 0
unfolding ℕ_discrete tcp_server act apply leave destroy handle_event handle_new_connection accepted
    handle_message handle_known is_closed has call poll entering on_new_connection connect publish
worker_runs_0 = refl

messages_in_order_example :
    worker_runs.last.pool.mem.taken
      ++ (worker_runs.last.pool.mem.que ++ in_hand (worker_runs.last.pool.pc 1))
    ≡ upto worker_runs.last.loop.outside.next_task
messages_in_order_example =
    messages_in_order network (bytes_of "127.0.0.1") 8888 0 4 roles roles-OneLoop worker_runs.serves

inside-tasks_example : has 0 worker_runs.last.loop.outside.tasks ≡ false
unfolding ℕ_discrete tcp_server act apply leave destroy handle_event handle_new_connection accepted
    handle_message handle_known is_closed has call poll entering on_new_connection connect publish
inside-tasks_example =
    inside-tasks network (bytes_of "127.0.0.1") 8888 0 4 roles roles-OneLoop worker_runs.serves 0
      (λ e. cc)

inside-goes_example :
    (t : Whole ℕ) × Serve network server 3 1 inside.last t
    × ((t.inside ≡ none)
        ⊎ ((i : ℕ) × (is_busy (inside.last.pool.pc i) ≡ true)
            × (t.pool.pc i ≢ inside.last.pool.pc i)))
unfolding ℕ_discrete tcp_server act apply leave destroy handle_event handle_new_connection accepted
    handle_message handle_known is_closed has call poll entering on_new_connection connect publish
inside-goes_example =
    inside-goes network (bytes_of "127.0.0.1") 8888 0 4 roles roles-OneLoop inside.serves 0 0 refl
      (omega arith) (omega arith) refl refl
