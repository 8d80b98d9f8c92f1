-- ===== src/Server/FileServer/Tests.antt =====
-- The theorem on the descriptors of the server at a concrete input.
use filedisk_server.Common.{
  ◌==◌, ◌&&◌, not, ◌^◌, ℕ, zero, suc, ◌<◌, ◌≡◌, refl, Bool, true, false, Option, none, some, List,
  [], ◌∷◌, ◌++◌, arith, if◌then◌else◌,
}
use filedisk_server.Common.Runs.{Text}
use filedisk_server.Common.Text.{bytes_of}
use filedisk_server.Net.Kernel.{Received, bytes}
use filedisk_server.Loop.Poll.{Waited, ready}
use filedisk_server.Loop.Epoll.{Control, ctl_add, ctl_del}
use filedisk_server.Loop.EventLoop.{LoopState, has, put, erase}
use filedisk_server.Loop.EventLoop.Lifecycle.{has-put, has-erase, waits}
use filedisk_server.Server.Address.{inet_address}
use filedisk_server.Server.FileServer.{Network, Node, callbacks, poll, tcp_server}
use filedisk_server.Server.FileServer.Watch.{Watch, Same, IsWatching, Succeeds, IsWatched}
use filedisk_server.Server.FileServer.Descriptors.{tcp_server-IsWatched}

abbrev ip : Text
ip = bytes_of "127.0.0.1"

-- A process that counts its descriptors; the client on 5 says one thing and leaves.
record Process : Type 0 where
  tired : Bool
  left : ℕ
  watched : List ℕ
  shut : List ℕ

abbrev admitting : Bool → Process → Option ℕ × Process
admitting true w = (some 5, w)
admitting false w = (none, w)

abbrev pausing : Bool → Process → Waited × Process
pausing true w = (Waited.interrupted, record w { tired = false })
pausing false w = (ready ((3, true) ∷ (5, true) ∷ []), record w { tired = true })

abbrev hearing : ℕ → Process → Received × Process
hearing zero w = (bytes [], w)
hearing (suc n) w = (bytes (1 ∷ []), record w { left = n })

abbrev control : Control → ℕ → List ℕ → List ℕ
control ctl_add = put
control ctl_del = erase

abbrev network : Network Process
network = record {
  sockets = record {
    socket = λ w. (some 3, w);
    setsockopt = λ w fd option. (true, w);
    bind = λ w fd addr. (true, w);
    listen = λ w fd n. (true, w);
    accept = λ w fd. admitting (fd == 3 && not (has 5 w.watched)) w;
  };
  epoll = record {
    epoll_create = λ w n. (some 4, record w { watched = [] });
    epoll_ctl = λ w e c fd. (true, record w { watched = control c fd w.watched });
    eventfd = λ w n. (some 6, w);
    close = λ w fd. record w { watched = erase fd w.watched; shut = w.shut ++ (fd ∷ []) };
  };
  wait = λ w e n. pausing w.tired w;
  peek = λ w fd. hearing w.left w;
  unloops = λ w. false;
  getsockname = λ w fd. inet_address (λ ip. 16777343) [] 8888;
  getpeername = λ w fd. inet_address (λ ip. 16777343) [] 40000;
  inet_addr = λ ip. 16777343;
  inet_ntoa = λ n. bytes_of "127.0.0.1";
}

abbrev watch : Watch Process
watch = record { watches = λ w e x. has x w.watched; closes = λ w. w.shut }

pausing-Same : (b : Bool) (w : Process) → Same watch w (pausing b w).1
pausing-Same true w = (λ e x. refl, refl)
pausing-Same false w = (λ e x. refl, refl)

hearing-Same : (n : ℕ) (w : Process) → Same watch w (hearing n w).1
hearing-Same zero w = (λ e x. refl, refl)
hearing-Same (suc n) w = (λ e x. refl, refl)

admitting-Same : (b : Bool) (w : Process) → Same watch w (admitting b w).1
admitting-Same true w = (λ e x. refl, refl)
admitting-Same false w = (λ e x. refl, refl)

admitting-new :
    (fd connfd : ℕ) (b : Bool) (w : Process)
    → (admitting (fd == 3 && b) w).0 ≡ some connfd
    → b ≡ not (has 5 w.watched)
    → (connfd < 2 ^ 31)
      × ((connfd == fd) ≡ false)
      × (has connfd (admitting (fd == 3 && b) w).1.watched ≡ false)
admitting-new fd connfd b w e h = ground (arith, e, h)

new_one :
    (w : Process) (fd connfd : ℕ)
    → (network.sockets.accept w fd).0 ≡ some connfd
    → (connfd < 2 ^ 31)
      × ((connfd == fd) ≡ false)
      × ((e : ℕ) → watch.watches (network.sockets.accept w fd).1 e connfd ≡ false)
new_one w fd connfd h =
    let (small, differs, free) = admitting-new fd connfd (not (has 5 w.watched)) w h refl in
    (small, differs, λ e. free)

network-IsWatching : IsWatching watch network
unfolding has
network-IsWatching = record {
  socket_same = λ w. (λ e x. refl, refl);
  create_none = λ w n epfd h. (λ x. refl, refl);
  wait_same = λ w e n. pausing-Same w.tired w;
  peek_same = λ w fd. hearing-Same w.left w;
  accept_same = λ w fd. admitting-Same (fd == 3 && not (has 5 w.watched)) w;
  accept_new = λ w fd connfd. new_one w fd connfd;
  add_watches = λ w e fd fine. (λ x. has-put x fd w.watched, refl);
  del_watches = λ w e fd fine. (λ x. has-erase x fd w.watched, refl);
  close_watches = λ w fd. (λ e x. has-erase x fd w.watched, refl);
}

network-Succeeds : Succeeds watch network
network-Succeeds = record { adds = λ w e fd small free. refl; dels = λ w e fd there. refl }

abbrev forbearance : Process → ℕ
forbearance w = if w.tired then 1 else 0

forbearance-wait :
    (w : Process) (e n : ℕ) (w' : Process)
    → network.wait w e n ≡ (Waited.interrupted, w')
    → forbearance w' < forbearance w
forbearance-wait w e n w' h = ground arith

forbearance_bound : (w : Process) → forbearance w < 2
forbearance_bound w = ground arith

abbrev newborn : Process
newborn = record { tired = true; left = 1; watched = []; shut = [] }

tcp_server-IsWatched_example :
    let (a, s) = tcp_server network ip 8888 newborn in
    (s' : LoopState (Node Process)) × (waits
        (poll network a)
        (callbacks network)
        a.acceptor.fd
        4
        2
        s
      ≡ some s')
    × IsWatched watch 4 3 s'
unfolding has
tcp_server-IsWatched_example =
    tcp_server-IsWatched watch network network-IsWatching network-Succeeds forbearance
      forbearance-wait ip 8888 4 2 newborn 3 4 forbearance_bound refl (omega arith) refl refl
