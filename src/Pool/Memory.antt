-- ===== src/Pool/Memory.antt =====
-- What the threads of a pool share: the fields of `TaskQueue`, with its mutex, and `_isExit`.
use filedisk_server.Common.{ℕ, Bool, true, false, Option, none, List, [], ◌==◌, length}

-- A task is a number: a queue only moves tasks. `accepted` and `taken` record what `_que.push` and
-- `_que.pop` have moved so far; the code does not store them.
pub record Memory : Type 0 where
  pub que_size : ℕ
  pub que : List ℕ
  pub owner : Option ℕ  -- the thread that holds `_mutex`
  pub flag : Bool
  pub is_exit : Bool
  pub accepted : List ℕ
  pub taken : List ℕ

-- `TaskQueue::TaskQueue` and `ThreadPool::ThreadPool`
abbrev pub fresh : ℕ → Memory
fresh cap = record {
  que_size = cap;
  que = [];
  owner = none;
  flag = true;
  is_exit = false;
  accepted = [];
  taken = [];
}

abbrev pub full : Memory → Bool
full m = m.que_size == length m.que

abbrev pub empty : Memory → Bool
empty m = 0 == length m.que
