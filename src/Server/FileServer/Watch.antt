-- ===== src/Server/FileServer/Watch.antt =====
-- What epoll watches and what is closed, as the system calls document it and as it should be.
use filedisk_server.Common.{
  ℕ, ◌^◌, ◌<◌, ◌≡◌, refl, ap, Bool, true, false, not, ◌&&◌, ◌||◌, some, List, [], ◌∷◌, ◌++◌, ◌==◌,
}
use filedisk_server.Loop.Epoll.{ctl_add, ctl_del}
use filedisk_server.Loop.EventLoop.{Call, opened, message, closed, LoopState, has}
use filedisk_server.Server.FileServer.{Network, Node}

-- What each epoll instance watches, and the descriptors that the process has closed, in order.
pub record Watch (W : Type 0) : Type 0 where
  pub watches : W → ℕ → ℕ → Bool
  pub closes : W → List ℕ

module _ {W : Type 0} (v : Watch W) where
  open v use {watches, closes}

  abbrev pub Same : W → W → Type 0
  Same w w' = ((e x : ℕ) → watches w' e x ≡ watches w e x) × (closes w' ≡ closes w)

  -- The calls as their manual pages describe them: epoll_create(2) gives an instance that watches
  -- nothing, accept(2) a descriptor that was not open, which no instance watches, and one that is
  -- closed is no longer watched.
  pub record IsWatching (k : Network W) : Type 0 where
    pub socket_same : (w : W) → Same w (k.sockets.socket w).1
    pub create_none :
        (w : W) (n epfd : ℕ)
        → (k.epoll.epoll_create w n).0 ≡ some epfd
        → ((x : ℕ) → watches (k.epoll.epoll_create w n).1 epfd x ≡ false)
          × (closes (k.epoll.epoll_create w n).1 ≡ closes w)
    pub wait_same : (w : W) (e n : ℕ) → Same w (k.wait w e n).1
    pub peek_same : (w : W) (fd : ℕ) → Same w (k.peek w fd).1
    pub accept_same : (w : W) (fd : ℕ) → Same w (k.sockets.accept w fd).1
    pub accept_new :
        (w : W) (fd connfd : ℕ)
        → (k.sockets.accept w fd).0 ≡ some connfd
        → (connfd < 2 ^ 31)
          × ((connfd == fd) ≡ false)
          × ((e : ℕ) → watches (k.sockets.accept w fd).1 e connfd ≡ false)
    pub add_watches :
        (w : W) (e fd : ℕ)
        → (k.epoll.epoll_ctl w e ctl_add fd).0 ≡ true
        → let w' = (k.epoll.epoll_ctl w e ctl_add fd).1 in
          ((x : ℕ) → watches w' e x ≡ (fd == x || watches w e x)) × (closes w' ≡ closes w)
    pub del_watches :
        (w : W) (e fd : ℕ)
        → (k.epoll.epoll_ctl w e ctl_del fd).0 ≡ true
        → let w' = (k.epoll.epoll_ctl w e ctl_del fd).1 in
          ((x : ℕ) → watches w' e x ≡ (not (fd == x) && watches w e x)) × (closes w' ≡ closes w)
    pub close_watches :
        (w : W) (fd : ℕ)
        → let w' = k.epoll.close w fd in
          ((e x : ℕ) → watches w' e x ≡ (not (fd == x) && watches w e x))
          × (closes w' ≡ closes w ++ (fd ∷ []))

  -- What the code takes for granted and epoll_ctl(2) does not promise: a descriptor that an instance
  -- does not watch can be added, and one that it watches can be removed.
  pub record Succeeds (k : Network W) : Type 0 where
    pub adds :
        (w : W) (e fd : ℕ)
        → fd < 2 ^ 31
        → watches w e fd ≡ false
        → (k.epoll.epoll_ctl w e ctl_add fd).0 ≡ true
    pub dels :
        (w : W) (e fd : ℕ) → watches w e fd ≡ true → (k.epoll.epoll_ctl w e ctl_del fd).0 ≡ true

-- Each descriptor whose connection is over, two times.
abbrev pub closed_twice : List Call → List ℕ
closed_twice [] = []
closed_twice (opened fd ∷ l) = closed_twice l
closed_twice (message fd ∷ l) = closed_twice l
closed_twice (closed fd ∷ l) = fd ∷ fd ∷ closed_twice l

pub closed_twice-append :
    (l : List Call) (c : Call)
    → closed_twice (l ++ (c ∷ [])) ≡ closed_twice l ++ closed_twice (c ∷ [])
closed_twice-append [] c = refl
closed_twice-append (opened fd ∷ l) c = closed_twice-append l c
closed_twice-append (message fd ∷ l) c = closed_twice-append l c
closed_twice-append (closed fd ∷ l) c = ap (λ t. fd ∷ fd ∷ t) (closed_twice-append l c)

-- The instance `epfd` watches the listening descriptor and those of the connections.
abbrev pub IsWatched : {W : Type 0} → Watch W → ℕ → ℕ → LoopState (Node W) → Type 0
IsWatched v epfd listenfd s =
    ((x : ℕ) → v.watches s.outside.net epfd x ≡ (listenfd == x || has x s.conns))
    × (has listenfd s.conns ≡ false)
    × (v.closes s.outside.net ≡ closed_twice s.log)
