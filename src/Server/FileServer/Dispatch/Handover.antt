-- ===== src/Server/FileServer/Dispatch/Handover.antt =====
-- What holds of the server and its pool together, in any interleaving.
use filedisk_server.Common.{
  ℕ, zero, suc, ◌+◌, ◌<◌, ◌≡◌, refl, sym, ap, ◌∙◌, subst, true, false, Option, none, some, List, [],
  ◌∷◌, ◌++◌, append-nil, arith,
}
use filedisk_server.Common.Family.{update_same, update-cases}
use filedisk_server.Pool.Worker.{idle, push_lock, adds, Move}
use filedisk_server.Pool.System.{move, Role, init, Reach, later}
use filedisk_server.Pool.Producer.{is_producer, in_hand, Alone, Step-Keeps}
use filedisk_server.Loop.EventLoop.{LoopState}
use filedisk_server.Server.FileServer.{TcpServer, Network, Node, destroy, callbacks, poll}
use filedisk_server.Server.FileServer.Dispatch.{
  Act, apply, leave, entered, enter, Whole, entering, act, Serve, acts_on, runs, leaves, Serves,
  begun, and_then,
}
use filedisk_server.Server.FileServer.Dispatch.Acts.{replay, replay-last}
use filedisk_server.Server.FileServer.Dispatch.Split.{
  SameTasks, Made, Split, quiet, calls, apply-Split,
}

-- The numbers of the first `n` messages.
abbrev pub upto : ℕ → List ℕ
upto zero = []
upto (suc n) = upto n ++ (n ∷ [])

upto-next : (n : ℕ) → upto (n + 1) ≡ upto n ++ (n ∷ [])
upto-next n = ap upto next
  where
    next : n + 1 ≡ suc n
    next = omega arith

abbrev pub held : Option ℕ → List ℕ
held none = []
held (some id) = id ∷ []

entered_same : (a b : ℕ) → b ≡ a → entered a b ≡ none
entered_same a b e = ground (arith, e)

entered_next : (a b : ℕ) → b ≡ a + 1 → entered a b ≡ some a
entered_next a b e = ground (arith, e)

module _ {W : Type 0} (k : Network W) (a : TcpServer) where
  -- The loop when the call of `onMessage` that has not returned is over.
  abbrev pub settle : Option ℕ → LoopState (Node W) → LoopState (Node W)
  settle none s = s
  settle (some id) s = record s { outside = leave k id s.outside }

  pub record Sound (n cap l : ℕ) (roles : ℕ → Role) (s0 : LoopState (Node W)) (s : Whole W)
      : Type 0 where
    pub reach : Reach n (init cap roles) s.pool
    pub alone : Alone l s.pool.pc
    pub calls_it : is_producer (s.pool.pc l) ≡ true
    pub queue :
        s.pool.mem.accepted ++ in_hand (s.pool.pc l) ≡ s.loop.outside.handed ++ held s.inside
    pub objects : s.loop.outside.tasks ≡ held s.inside
    pub numbers : s.loop.outside.handed ++ held s.inside ≡ upto s.loop.outside.next_task
    pub acted : settle s.inside s.loop ≡ replay (poll k a) (callbacks k) a.acceptor.fd s.acts s0

  module _ {n cap l : ℕ} {roles : ℕ → Role} {s0 : LoopState (Node W)} (lt : l < n) where
    module _ (s : Whole W) (h : Sound n cap l roles s0 s) (out : s.inside ≡ none)
        (e : s.pool.pc l ≡ idle) (x : Act) where
      queue0 : s.pool.mem.accepted ≡ s.loop.outside.handed
      queue0 =
          sym (append-nil s.pool.mem.accepted)
          ∙ ap (λ p. s.pool.mem.accepted ++ in_hand p) (sym e)
          ∙ h.queue
          ∙ ap (λ o. s.loop.outside.handed ++ held o) out
          ∙ append-nil s.loop.outside.handed

      objects0 : s.loop.outside.tasks ≡ []
      objects0 = h.objects ∙ ap held out

      numbers0 : s.loop.outside.handed ≡ upto s.loop.outside.next_task
      numbers0 =
          sym (append-nil s.loop.outside.handed)
          ∙ ap (λ o. s.loop.outside.handed ++ held o) (sym out)
          ∙ h.numbers

      acted0 : s.loop ≡ replay (poll k a) (callbacks k) a.acceptor.fd s.acts s0
      acted0 = ap (λ o. settle o s.loop) (sym out) ∙ h.acted

      acted1 :
          (t : LoopState (Node W))
          → apply (poll k a) (callbacks k) a.acceptor.fd x s.loop ≡ t
          → t ≡ replay (poll k a) (callbacks k) a.acceptor.fd (s.acts ++ (x ∷ [])) s0
      acted1 t q =
          sym q
          ∙ ap (apply (poll k a) (callbacks k) a.acceptor.fd x) acted0
          ∙ sym (replay-last (poll k a) (callbacks k) a.acceptor.fd s.acts x s0)

      -- The state after `x`, when it is known whether `onMessage` was called.
      abbrev built : LoopState (Node W) → Option ℕ → Whole W
      built loop1 o = record {
        pool = enter l o s.pool;
        loop = loop1;
        inside = o;
        acts = s.acts ++ (x ∷ []);
      }

      quiet-Sound :
          (t u : LoopState (Node W))
          → SameTasks s.loop.outside t.outside
          → u ≡ t
          → apply (poll k a) (callbacks k) a.acceptor.fd x s.loop ≡ u
          → Sound n cap l roles s0 (built t none)
      quiet-Sound t u same q r = record {
        reach = h.reach;
        alone = h.alone;
        calls_it = h.calls_it;
        queue =
            rw (e, same.handed)
              (append-nil s.pool.mem.accepted ∙ queue0 ∙ sym (append-nil s.loop.outside.handed));
        objects = same.tasks ∙ objects0;
        numbers = rw (same.handed, same.next_task) (append-nil s.loop.outside.handed ∙ numbers0);
        acted = acted1 t (r ∙ q);
      }

      calls-Sound :
          (t u : LoopState (Node W))
          → Made s.loop.outside t.outside
          → u ≡ record t { outside = leave k s.loop.outside.next_task t.outside }
          → apply (poll k a) (callbacks k) a.acceptor.fd x s.loop ≡ u
          → Sound n cap l roles s0 (built t (some s.loop.outside.next_task))
      calls-Sound t u made q r = record {
        reach =
            later h.reach
              (move l lt (subst (λ p. Move l s.pool.mem p s.pool.mem (push_lock id)) (sym e) adds));
        alone = λ j d.
            update-cases (λ p. is_producer p ≡ false) s.pool.pc l (push_lock id) j
              (λ same. absurd (d (sym same))) (λ _. h.alone j d);
        calls_it = rw (update_same s.pool.pc l (push_lock id)) refl;
        queue =
            rw (update_same s.pool.pc l (push_lock id), made.handed)
              (ap (λ xs. xs ++ (id ∷ [])) queue0);
        objects = made.tasks ∙ ap (λ xs. id ∷ xs) objects0;
        numbers =
            rw (made.handed, made.next_task)
              (ap (λ xs. xs ++ (id ∷ [])) numbers0 ∙ sym (upto-next id));
        acted = acted1 (record t { outside = leave k id t.outside }) (r ∙ q);
      }
        where
          id : ℕ
          id = s.loop.outside.next_task

      act-Sound : Sound n cap l roles s0 (act k a l x s)
      unfolding act
      act-Sound = by_split (apply-Split k a x s.loop)
        where
          t : LoopState (Node W)
          t = apply (poll k a) (entering k a) a.acceptor.fd x s.loop

          u : LoopState (Node W)
          u = apply (poll k a) (callbacks k) a.acceptor.fd x s.loop

          by_split :
              Split k s.loop t u
              → Sound n cap l roles s0
                  (built t (entered s.loop.outside.next_task t.outside.next_task))
          by_split (quiet same q) =
              subst (λ o. Sound n cap l roles s0 (built t o))
                (sym (entered_same s.loop.outside.next_task t.outside.next_task same.next_task))
                (quiet-Sound t u same q refl)
          by_split (calls made q) =
              subst (λ o. Sound n cap l roles s0 (built t o))
                (sym (entered_next s.loop.outside.next_task t.outside.next_task made.next_task))
                (calls-Sound t u made q refl)

    Serve-Sound :
        {s t : Whole W} → Serve k a n l s t → Sound n cap l roles s0 s → Sound n cap l roles s0 t
    unfolding leave destroy
    Serve-Sound {s} (acts_on x out e) h = act-Sound s h out e x
    Serve-Sound {s} (runs {t} st calm) h =
        let kept = Step-Keeps l st h.alone calm in
        record {
          reach = later h.reach st;
          alone = λ j d. kept.kinds j ∙ h.alone j d;
          calls_it = kept.kinds l ∙ h.calls_it;
          queue = kept.hand ∙ h.queue;
          objects = h.objects;
          numbers = h.numbers;
          acted = h.acted;
        }
    Serve-Sound {s} (leaves id into e) h = record {
      reach = h.reach;
      alone = h.alone;
      calls_it = h.calls_it;
      queue =
          h.queue
          ∙ ap (λ o. s.loop.outside.handed ++ held o) into
          ∙ sym (append-nil (s.loop.outside.handed ++ (id ∷ [])));
      objects = rw (h.objects, into) (ground arith);
      numbers =
          append-nil (s.loop.outside.handed ++ (id ∷ []))
          ∙ ap (λ o. s.loop.outside.handed ++ held o) (sym into)
          ∙ h.numbers;
      acted = ap (λ o. settle o s.loop) (sym into) ∙ h.acted;
    }

    pub Serves-Sound :
        {s t : Whole W} → Serves k a n l s t → Sound n cap l roles s0 s → Sound n cap l roles s0 t
    Serves-Sound begun h = h
    Serves-Sound (and_then r st) h = Serve-Sound st (Serves-Sound r h)
