-- ===== src/Pool/System.antt =====
-- `n` threads over one `Memory`, in any interleaving.
use filedisk_server.Common.{ℕ, ◌<◌, ◌≡◌, ◌≢◌, true}
use filedisk_server.Common.Family.{update}
use filedisk_server.Pool.Memory.{Memory, fresh}
use filedisk_server.Pool.Worker.{
  Pc, idle, push_asleep, push_woken, push_notify, push_unlock, work_loop, pop_asleep, pop_woken,
  pop_notify, pop_return, finished, stop_poll, stop_broadcast, stop_join, stopped, Move, is_worker,
  wake,
}

pub record System : Type 0 where
  pub mem : Memory
  pub pc : ℕ → Pc

-- A signal wakes one of the threads that sleep on the condition, if there are any.
pub data Step (n : ℕ) (s : System) : System → Type 0 where
  move :
      (i : ℕ) {m : Memory} {p : Pc}
      → i < n
      → Move i s.mem (s.pc i) m p
      → Step n s (record { mem = m; pc = update s.pc i p })
  signals_pop :
      (i j : ℕ)
      → i < n
      → j < n
      → s.pc i ≡ push_notify
      → s.pc j ≡ pop_asleep
      → Step n s (record s { pc = update (update s.pc i push_unlock) j pop_woken })
  signals_nobody :
      (i : ℕ)
      → i < n
      → s.pc i ≡ push_notify
      → ((j : ℕ) → j < n → s.pc j ≢ pop_asleep)
      → Step n s (record s { pc = update s.pc i push_unlock })
  signals_push :
      (i j t u : ℕ)
      → i < n
      → j < n
      → s.pc i ≡ pop_notify t
      → s.pc j ≡ push_asleep u
      → Step n s (record s { pc = update (update s.pc i (pop_return t)) j (push_woken u) })
  signals_no_push :
      (i t : ℕ)
      → i < n
      → s.pc i ≡ pop_notify t
      → ((j u : ℕ) → j < n → s.pc j ≢ push_asleep u)
      → Step n s (record s { pc = update s.pc i (pop_return t) })
  broadcasts :
      (i : ℕ)
      → i < n
      → s.pc i ≡ stop_broadcast
      → Step n s (record s { pc = update (λ j. wake (s.pc j)) i stop_join })
  joins :
      (i : ℕ)
      → i < n
      → s.pc i ≡ stop_join
      → ((j : ℕ) → j < n → is_worker (s.pc j) ≡ true → s.pc j ≡ finished)
      → Step n s (record s { pc = update s.pc i stopped })

pub data Role : Type 0 where
  producer worker stopper : Role

abbrev pub start_of : Role → Pc
start_of producer = idle
start_of worker = work_loop
start_of stopper = stop_poll

abbrev pub init : ℕ → (ℕ → Role) → System
init cap roles = record { mem = fresh cap; pc = λ i. start_of (roles i) }

pub data Reach (n : ℕ) (s : System) : System → Type 0 where
  here : Reach n s s
  later : {t u : System} → Reach n s t → Step n t u → Reach n s u
