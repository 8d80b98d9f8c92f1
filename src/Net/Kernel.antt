-- ===== src/Net/Kernel.antt =====
-- The system calls that tcppart/SocketIO.cc makes on its descriptor. They are parameters of the
-- model: `Kernel` has the calls, over the state `W` of everything outside the program, and `Laws`
-- what read(2), recv(2) and write(2) document of them.
use filedisk_server.Common.{
  ◌^◌, ◌-◌, Option, none, some, ℕ, suc, ◌≤◌, ◌<◌, ◌≡◌, ◌≢◌, List, [], ◌++◌, length, take,
}

-- A descriptor that a system call gave, read as an unsigned number of 32 bits: `none` is -1.
unfoldable pub fd_of : Option ℕ → ℕ
fd_of none = 2 ^ 32 - 1
fd_of (some fd) = fd

-- What `read` or `recv` answers: -1 with EINTR, -1 with another error, or the bytes it copied
-- (none of them is the return value 0).
pub data Received : Type 0 where
  interrupted failed : Received
  bytes : List ℕ → Received

-- What `write` answers: the same two errors, or how many bytes it took.
pub data Sent : Type 0 where
  interrupted failed : Sent
  count : ℕ → Sent

pub record Kernel (W : Type 0) : Type 0 where
  pub read : W → ℕ → Received × W
  pub peek : W → ℕ → Received × W  -- `recv` with MSG_PEEK
  pub write : W → List ℕ → Sent × W

-- The bytes that have still to be read from the connection until the peer closes it, the bytes
-- written to it so far, a bound on the interruptions that are still to come, and how many of the
-- calls so far have failed with an error other than EINTR.
pub record View (W : Type 0) : Type 0 where
  pub incoming : W → List ℕ
  pub outgoing : W → List ℕ
  pub patience : W → ℕ
  pub errors : W → ℕ

module _ {W : Type 0} (v : View W) where
  open v use {incoming, outgoing, patience, errors}

  -- `read` asked for `n` bytes takes at most `n` from the front of what is coming; 0 is the end.
  abbrev pub ReadOk : W → ℕ → Received × W → Type 0
  ReadOk w n (Received.interrupted, w') =
      (incoming w' ≡ incoming w)
      × (outgoing w' ≡ outgoing w)
      × (patience w' < patience w)
      × (errors w' ≡ errors w)
  ReadOk w n (Received.failed, w') =
      (incoming w' ≡ incoming w)
      × (outgoing w' ≡ outgoing w)
      × (patience w' ≤ patience w)
      × (errors w' ≡ suc (errors w))
  ReadOk w n (bytes bs, w') =
      (length bs ≤ n)
      × (incoming w ≡ bs ++ incoming w')
      × (outgoing w' ≡ outgoing w)
      × (patience w' ≤ patience w)
      × (errors w' ≡ errors w)
      × (bs ≡ [] → n ≢ 0 → incoming w' ≡ [])

  -- With MSG_PEEK the bytes stay where they are.
  abbrev pub PeekOk : W → ℕ → Received × W → Type 0
  PeekOk w n (Received.interrupted, w') =
      (incoming w' ≡ incoming w)
      × (outgoing w' ≡ outgoing w)
      × (patience w' < patience w)
      × (errors w' ≡ errors w)
  PeekOk w n (Received.failed, w') =
      (incoming w' ≡ incoming w)
      × (outgoing w' ≡ outgoing w)
      × (patience w' ≤ patience w)
      × (errors w' ≡ suc (errors w))
  PeekOk w n (bytes bs, w') =
      (length bs ≤ n)
      × (incoming w' ≡ incoming w)
      × (outgoing w' ≡ outgoing w)
      × (patience w' ≤ patience w)
      × (errors w' ≡ errors w)
      × (bs ≡ take (length bs) (incoming w))
      × (bs ≡ [] → n ≢ 0 → incoming w' ≡ [])

  -- `write` takes a part of the bytes, from their front, and some of them if there are any.
  abbrev pub WriteOk : W → List ℕ → Sent × W → Type 0
  WriteOk w msg (Sent.interrupted, w') =
      (incoming w' ≡ incoming w)
      × (outgoing w' ≡ outgoing w)
      × (patience w' < patience w)
      × (errors w' ≡ errors w)
  WriteOk w msg (Sent.failed, w') =
      (incoming w' ≡ incoming w)
      × (outgoing w' ≡ outgoing w)
      × (patience w' ≤ patience w)
      × (errors w' ≡ suc (errors w))
  WriteOk w msg (count n, w') =
      (n ≤ length msg)
      × (outgoing w' ≡ outgoing w ++ take n msg)
      × (incoming w' ≡ incoming w)
      × (patience w' ≤ patience w)
      × (errors w' ≡ errors w)
      × (msg ≢ [] → 0 < n)

pub record Laws {W : Type 0} (k : Kernel W) (v : View W) : Type 0 where
  pub read_ok : (w : W) (n : ℕ) → ReadOk v w n (k.read w n)
  pub peek_ok : (w : W) (n : ℕ) → PeekOk v w n (k.peek w n)
  pub write_ok : (w : W) (msg : List ℕ) → WriteOk v w msg (k.write w msg)
