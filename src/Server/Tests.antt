-- ===== src/Server/Tests.antt =====
-- The theorems on the server at concrete inputs.
use filedisk_server.Common.{
  ℕ, zero, suc, ◌+◌, ◌<◌, ◌≡◌, refl, subst, Bool, true, false, Option, none, some, List, [], ◌∷◌,
  ◌++◌, length, ltb, arith, if◌then◌else◌,
}
use filedisk_server.Common.Runs.{Text}
use filedisk_server.Common.Text.{bytes_of}
use filedisk_server.Net.Kernel.{Received, bytes}
use filedisk_server.Loop.Poll.{Waited, ready}
use filedisk_server.Loop.EventLoop.{LoopState}
use filedisk_server.Loop.EventLoop.Lifecycle.{waits}
use filedisk_server.Server.Address.{inet_address}
use filedisk_server.Server.Acceptor.{Sockets}
use filedisk_server.Server.Threads.{Pthreads, PoolCalls, History, Laws, Quiet}
use filedisk_server.Server.FileServer.{Network, Node, callbacks, poll, tcp_server}
use filedisk_server.Server.FileServer.Served.{IsServed, tcp_server-IsServed}
use filedisk_server.Server.FileServer.Deaf.{IsUnheard, IsDeaf, tcp_server-IsDeaf}

-- Two threads can be created and no more.
record Census : Type 0 where
  born : List ℕ
  buried : List ℕ

abbrev creating : Bool → Census → Option ℕ × Census
creating true t = (some (length t.born), record t { born = t.born ++ (length t.born ∷ []) })
creating false t = (none, t)

abbrev census : Pthreads Census
census = record {
  create = λ t. creating (ltb (length t.born) 2) t;
  join = λ t id. (true, record t { buried = t.buried ++ (id ∷ []) });
}

abbrev nobody : Census
nobody = record { born = []; buried = [] }

-- A queue that is empty at the third look; the number of looks is kept beside the census.
record Pool : Type 0 where
  people : Census
  looks : ℕ

abbrev beside : Pool → Option ℕ × Census → Option ℕ × Pool
beside p (r, c) = (r, record p { people = c })

abbrev pool_threads : Pthreads Pool
pool_threads = record {
  create = λ p. beside p (census.create p.people);
  join = λ p id. (true, record p { people = (census.join p.people id).1 });
}

abbrev pool_calls : PoolCalls Pool
pool_calls = record {
  queue_empty = λ p. (ltb 2 (p.looks + 1), record p { looks = p.looks + 1 });
  sleep = λ p. p;
  set_exit = λ p. p;
  wakeup = λ p. p;
}

abbrev pool_annals : History Pool
pool_annals = record { created = λ p. p.people.born; joins = λ p. p.people.buried }

abbrev Noted : Pool → Option ℕ × Pool → Type 0
Noted p (some id, p') =
    (p'.people.born ≡ p.people.born ++ (id ∷ [])) × (p'.people.buried ≡ p.people.buried)
Noted p (none, p') = (p'.people.born ≡ p.people.born) × (p'.people.buried ≡ p.people.buried)

beside-Noted : (p : Pool) (b : Bool) → Noted p (beside p (creating b p.people))
beside-Noted p true = (refl, refl)
beside-Noted p false = (refl, refl)

pool-Laws : Laws pool_threads pool_annals
pool-Laws = record {
  create_some = λ p p' id e. subst (Noted p) e (beside-Noted p (ltb (length p.people.born) 2));
  create_none = λ p p' e. subst (Noted p) e (beside-Noted p (ltb (length p.people.born) 2));
  join_all = λ p id. (refl, refl, refl);
}

pool-Quiet : Quiet pool_calls pool_annals
pool-Quiet = record {
  empty_quiet = λ p. (refl, refl);
  sleep_quiet = λ p. (refl, refl);
  exit_quiet = λ p. (refl, refl);
  wakeup_quiet = λ p. (refl, refl);
}

abbrev empty_pool : Pool
empty_pool = record { people = nobody; looks = 0 }

-- Every second answer of `epoll_wait` is an interruption. `left` is how often the peer is still there.
record Wire : Type 0 where
  listens : Bool
  tired : Bool
  left : ℕ

abbrev accepting : Bool → Wire → Option ℕ × Wire
accepting true w = (some 5, w)
accepting false w = (none, w)

abbrev waiting : Bool → Wire → Waited × Wire
waiting true w = (Waited.interrupted, record w { tired = false })
waiting false w = (ready ((3, true) ∷ (5, true) ∷ []), record w { tired = true })

abbrev peeked : ℕ → Wire → Received × Wire
peeked zero w = (bytes [], w)
peeked (suc n) w = (bytes (1 ∷ []), record w { left = n })

abbrev sockets : Sockets Wire
sockets = record {
  socket = λ w. (some 3, w);
  setsockopt = λ w fd option. (true, w);
  bind = λ w fd addr. (true, w);
  listen = λ w fd n. (true, record w { listens = true });
  accept = λ w fd. accepting w.listens w;
}

abbrev wire : Network Wire
wire = record {
  sockets = sockets;
  epoll = record {
    epoll_create = λ w n. (some 4, w);
    epoll_ctl = λ w e c fd. (true, w);
    eventfd = λ w n. (some 6, w);
    close = λ w fd. w;
  };
  wait = λ w e n. waiting w.tired w;
  peek = λ w fd. peeked w.left w;
  unloops = λ w. false;
  getsockname = λ w fd. inet_address (λ ip. 16777343) [] 8888;
  getpeername = λ w fd. inet_address (λ ip. 16777343) [] 40000;
  inet_addr = λ ip. 16777343;
  inet_ntoa = λ n. bytes_of "127.0.0.1";
}

abbrev patience : Wire → ℕ
patience w = if w.tired then 1 else 0

patience-wait :
    (w : Wire) (e n : ℕ) (w' : Wire)
    → wire.wait w e n ≡ (Waited.interrupted, w')
    → patience w' < patience w
patience-wait w e n w' h = ground arith

patience_bound : (w : Wire) → patience w < 2
patience_bound w = ground arith

abbrev heard : Wire
heard = record { listens = true; tired = true; left = 2 }

abbrev ip : Text
ip = bytes_of "127.0.0.1"

tcp_server-IsServed_example :
    let (a, s) = tcp_server wire ip 8888 heard in
    (s' : LoopState (Node Wire)) × (waits (poll wire a) (callbacks wire) a.acceptor.fd 4 2 s
      ≡ some s')
    × IsServed s'
tcp_server-IsServed_example =
    tcp_server-IsServed wire patience patience-wait ip 8888 4 2 heard patience_bound

waiting-listens : (b : Bool) (w : Wire) → (waiting b w).1.listens ≡ w.listens
waiting-listens true w = refl
waiting-listens false w = refl

wire-IsUnheard : IsUnheard wire (λ w. w.listens)
wire-IsUnheard = record {
  socket_unheard = λ w off. off;
  create_unheard = λ w n off. off;
  ctl_unheard = λ w e c fd off. off;
  wait_unheard = λ w e n off. rw (waiting-listens w.tired w) off;
  accept_unheard = λ w fd off. rw off (refl, refl);
}

abbrev unheard : Wire
unheard = record heard { listens = false }

tcp_server-IsDeaf_example :
    let (a, s) = tcp_server wire ip 8888 unheard in
    (s' : LoopState (Node Wire)) × (waits (poll wire a) (callbacks wire) a.acceptor.fd 4 2 s
      ≡ some s')
    × IsDeaf (λ w. w.listens) s'
tcp_server-IsDeaf_example =
    tcp_server-IsDeaf wire (λ w. w.listens) wire-IsUnheard patience patience-wait ip 8888 4 2
      unheard patience_bound refl
