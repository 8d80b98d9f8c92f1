-- ===== src/Server/FileServer/Dispatch/Promises.antt =====
-- What the server and its pool do together, in any interleaving from the start of a new server.
use filedisk_server.Common.{
  ℕ, ◌<◌, ◌≡◌, ◌≢◌, refl, sym, ap, ◌∙◌, inl, inr, ◌⊎◌, Bool, Bool-cases, true, false, Option, none,
  some, [], ◌++◌, append_assoc, append-nil, arith, ℕ_discrete,
}
use filedisk_server.Common.Runs.{Text}
use filedisk_server.Pool.Worker.{Pc, idle}
use filedisk_server.Pool.System.{Role, producer, worker, stopper, start_of, init, here}
use filedisk_server.Pool.Progress.{is_busy}
use filedisk_server.Pool.Safety.{queue_fifo}
use filedisk_server.Pool.Producer.{is_producer, in_hand}
use filedisk_server.Pool.Progress.Freedom.{in_push, no_deadlock}
use filedisk_server.Loop.EventLoop.{LoopState, has}
use filedisk_server.Server.FileServer.{TcpServer, Network, Node, callbacks, poll, tcp_server}
use filedisk_server.Server.FileServer.Dispatch.{Whole, Serve, runs, leaves, Serves}
use filedisk_server.Server.FileServer.Dispatch.Acts.{replay}
use filedisk_server.Server.FileServer.Dispatch.Handover.{upto, held, settle, Sound, Serves-Sound}

-- The thread `l` runs the event loop, and no other calls `addTask`.
pub record OneLoop (n l : ℕ) (roles : ℕ → Role) : Type 0 where
  pub below : l < n
  pub loops : roles l ≡ producer
  pub others : (j : ℕ) → j ≢ l → roles j ≢ producer

abbrev pub begin : {W : Type 0} → ℕ → (ℕ → Role) → LoopState (Node W) → Whole W
begin cap roles s0 = record { pool = init cap roles; loop = s0; inside = none; acts = [] }

abbrev is_idle : Pc → Bool
is_idle idle = true
is_idle p = false

at_idle : (p : Pc) → is_idle p ≡ true → p ≡ idle
at_idle idle h = refl
at_idle p h = ground arith

start_of-others : (r : Role) → r ≢ producer → is_producer (start_of r) ≡ false
start_of-others producer d = absurd (d refl)
start_of-others worker d = refl
start_of-others stopper d = refl

module _ {W : Type 0} (k : Network W) (ip : Text) (port : ℕ) (w : W) {n l : ℕ} (cap : ℕ)
    (roles : ℕ → Role) (one : OneLoop n l roles) where
  abbrev server : TcpServer
  server = (tcp_server k ip port w).0

  abbrev loop0 : LoopState (Node W)
  loop0 = (tcp_server k ip port w).1

  begin-Sound : Sound k server n cap l roles loop0 (begin cap roles loop0)
  unfolding tcp_server replay poll
  begin-Sound = record {
    reach = here;
    alone = λ j d. start_of-others (roles j) (one.others j d);
    calls_it = rw one.loops refl;
    queue = rw one.loops refl;
    objects = refl;
    numbers = refl;
    acted = refl;
  }

  module _ {s : Whole W} (r : Serves k server n l (begin cap roles loop0) s) where
    sound : Sound k server n cap l roles loop0 s
    sound = Serves-Sound k server one.below r begin-Sound

    -- However the loop and the other threads are interleaved: the tasks that were taken, followed by
    -- those in the queue and by the one that the loop may still have in its hand, are those of the
    -- messages so far, in their order. No message is lost, doubled or overtaken.
    pub messages_in_order :
        s.pool.mem.taken ++ (s.pool.mem.que ++ in_hand (s.pool.pc l))
        ≡ upto s.loop.outside.next_task
    messages_in_order =
        sym (append_assoc s.pool.mem.taken s.pool.mem.que (in_hand (s.pool.pc l)))
        ∙ ap (λ xs. xs ++ in_hand (s.pool.pc l)) (sym (queue_fifo cap roles sound.reach))
        ∙ sound.queue
        ∙ sound.numbers

    -- The loop does what it does when `addTask` returns at once: if `onMessage` has returned, its
    -- state is that after the same acts with the whole callbacks, and the tasks that are recorded
    -- there as handed over are those that were pushed into the queue.
    loop-replay :
        s.inside ≡ none
        → (s.loop ≡ replay (poll k server) (callbacks k) server.acceptor.fd s.acts loop0)
          × (s.pool.mem.accepted ++ in_hand (s.pool.pc l) ≡ s.loop.outside.handed)
    loop-replay out = (
      ap (λ o. settle k server o s.loop) (sym out) ∙ sound.acted,
      sound.queue
          ∙ ap (λ o. s.loop.outside.handed ++ held o) out
          ∙ append-nil s.loop.outside.handed,
    )

    -- A FileTask exists no longer than the call of `onMessage` that has made it: when that has
    -- returned, the object is gone, whether its task is in the queue, runs, or has run.
    pub inside-tasks : (t : ℕ) → s.inside ≢ some t → has t s.loop.outside.tasks ≡ false
    unfolding has
    inside-tasks t gone = rw sound.objects (none_held s.inside gone)
      where
        none_held : (o : Option ℕ) → o ≢ some t → has t (held o) ≡ false
        none_held none d = refl
        none_held (some id) d = elim (ℕ_discrete id t) [
          | yes e ↦ absurd (d (ap some e))
          | no e ↦ ground (arith, e)
        ]

    in_push-goes :
        (v : ℕ)
        → 0 < cap
        → v < n
        → roles v ≡ worker
        → s.pool.mem.is_exit ≡ false
        → is_idle (s.pool.pc l) ≡ false
        → (t : Whole W) × Serve k server n l s t
          × ((t.inside ≡ none)
              ⊎ ((i : ℕ) × (is_busy (s.pool.pc i) ≡ true) × (t.pool.pc i ≢ s.pool.pc i)))
    in_push-goes v room lv e out inside =
        let (i, _, busy, goes) =
          no_deadlock cap roles v sound.reach room lv e out
            (inr (l, one.below, pushing (s.pool.pc l) sound.calls_it inside)) in
        let (t, st, moved) = goes in
        (record s { pool = t }, runs st (λ q. absurd (not_idle q)), inr (i, busy, moved))
      where
        pushing : (p : Pc) → is_producer p ≡ true → is_idle p ≡ false → in_push p ≡ true
        pushing p h d = ground (arith, h, d)

        not_idle : s.pool.pc l ≢ idle
        not_idle q = ground (arith, q, inside)

    -- As long as `stop` has not set `_isExit`, a call of `onMessage` that has not returned is not
    -- stuck: if the pool has a worker and room for a task, it can return, or a thread that is awake in `push` or `doTask` has a step to another
    -- place: the wake-up of a sleeping thread does not count.
    pub inside-goes :
        (id v : ℕ)
        → s.inside ≡ some id
        → 0 < cap
        → v < n
        → roles v ≡ worker
        → s.pool.mem.is_exit ≡ false
        → (t : Whole W) × Serve k server n l s t
          × ((t.inside ≡ none)
              ⊎ ((i : ℕ) × (is_busy (s.pool.pc i) ≡ true) × (t.pool.pc i ≢ s.pool.pc i)))
    inside-goes id v into room lv e out = elim (Bool-cases (is_idle (s.pool.pc l))) [
      | inl back ↦ (_, leaves id into (at_idle (s.pool.pc l) back), inl refl)
      | inr inside ↦ in_push-goes v room lv e out inside
    ]
