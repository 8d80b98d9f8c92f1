-- ===== src/Net/SocketIo.antt =====
-- tcppart/SocketIO.cc, and `send` and `receive` of tcppart/TcpConnection.cc.
-- A call returns its `int`, the bytes that it stored from the start of the caller's buffer on, and
-- the state of the outside. `none` means that the fuel of a loop ran out: a loop makes a round for
-- each interruption and for each piece of data.
-- Of the two `-1`s the one with EINTR starts the loop over.
pub mod ReadN
pub mod WriteN
pub mod ReadLine
pub mod Calls
pub mod Tests
use filedisk_server.Common.{
  ℕ, zero, suc, ◌+◌, ◌-◌, Option, none, some, List, [], ◌∷◌, ◌++◌, length, take, drop, overlay,
  ◌==◌, if◌then◌else◌,
}
use filedisk_server.Common.Int.{ℤ, pos, negsuc, sub_ℕ, narrow}
use filedisk_server.Net.Kernel.{Received, bytes, Sent, count, Kernel}
use mathlib.Core.Option

-- The index of the first '\n'.
pub newline_at : List ℕ → Option ℕ
newline_at [] = none
newline_at (b ∷ bs) = if b == 10 then some 0 else Option.map suc (newline_at bs)

module _ {W : Type 0} where
  -- What a round of the loop of `readn` does with the answer of `read`; `rest` is the loop.
  pub read_turn :
      (ℕ → List ℕ → W → Option (ℤ × List ℕ × W))
      → ℕ
      → ℕ
      → List ℕ
      → Received × W
      → Option (ℤ × List ℕ × W)
  read_turn rest len left got (Received.interrupted, w) = rest left got w
  read_turn rest len left got (Received.failed, w) = some (negsuc 0, got, w)
  read_turn rest len left got (bytes [], w) = some (sub_ℕ len left, got, w)
  read_turn rest len left got (bytes (b ∷ bs), w) =
      rest (left - length (b ∷ bs)) (got ++ (b ∷ bs)) w

  -- `while(left > 0)` of `readn`; `got` is what stands between `buf` and `pstr`.
  pub read_loop : Kernel W → ℕ → ℕ → ℕ → List ℕ → W → Option (ℤ × List ℕ × W)
  read_loop k fuel len zero got w = some (sub_ℕ len 0, got, w)
  read_loop k zero len (suc l) got w = none
  read_loop k (suc fuel) len (suc l) got w =
      read_turn (read_loop k fuel len) len (suc l) got (k.read w (suc l))

  -- A negative `len` makes the loop's test false at once: the result is `len - left`, 0.
  pub read_n : Kernel W → ℕ → ℤ → W → Option (ℤ × List ℕ × W)
  read_n k fuel (pos n) w = read_loop k fuel n n [] w
  read_n k fuel (negsuc n) w = some (pos 0, [], w)

  pub write_turn : (ℕ → List ℕ → W → Option (ℤ × W)) → ℕ → ℕ → List ℕ → Sent × W → Option (ℤ × W)
  write_turn rest len left msg (Sent.interrupted, w) = rest left msg w
  write_turn rest len left msg (Sent.failed, w) = some (negsuc 0, w)
  write_turn rest len left msg (count zero, w) = some (sub_ℕ len left, w)
  write_turn rest len left msg (count (suc n), w) = rest (left - suc n) (drop (suc n) msg) w

  -- `while(left > 0)` of `writen`; `msg` is what `pstr` points to.
  pub write_loop : Kernel W → ℕ → ℕ → ℕ → List ℕ → W → Option (ℤ × W)
  write_loop k fuel len zero msg w = some (sub_ℕ len 0, w)
  write_loop k zero len (suc l) msg w = none
  write_loop k (suc fuel) len (suc l) msg w =
      write_turn (write_loop k fuel len) len (suc l) msg (k.write w (take (suc l) msg))

  pub write_n : Kernel W → ℕ → List ℕ → ℤ → W → Option (ℤ × W)
  write_n k fuel msg (pos n) w = write_loop k fuel n n msg w
  write_n k fuel msg (negsuc n) w = some (pos 0, w)

  -- `return total + sz;` after the inner `readn`, whose result the code does not look at: the
  -- bytes that it stores go over the ones that were peeked.
  pub line_end : ℕ → List ℕ → List ℕ → ℕ → Option (ℤ × List ℕ × W) → Option (ℤ × List ℕ × W)
  line_end total line peeked sz none = none
  line_end total line peeked sz (some (r, got, w)) =
      some (pos (total + sz), line ++ take sz (overlay got peeked), w)

  pub line_more :
      (ℕ → ℕ → List ℕ → W → Option (ℤ × List ℕ × W))
      → ℕ
      → ℕ
      → List ℕ
      → List ℕ
      → Option (ℤ × List ℕ × W)
      → Option (ℤ × List ℕ × W)
  line_more rest left total line peeked none = none
  line_more rest left total line peeked (some (r, got, w)) =
      rest (left - length peeked) (total + length peeked) (line ++ overlay got peeked) w

  pub line_bytes :
      (ℕ → ℕ → List ℕ → W → Option (ℤ × List ℕ × W))
      → Kernel W
      → ℕ
      → ℕ
      → ℕ
      → List ℕ
      → List ℕ
      → W
      → Option ℕ
      → Option (ℤ × List ℕ × W)
  line_bytes rest k fuel left total line peeked w (some idx) =
      line_end total line peeked (idx + 1) (read_n k fuel (pos (idx + 1)) w)
  line_bytes rest k fuel left total line peeked w none =
      line_more rest left total line peeked (read_n k fuel (pos (length peeked)) w)

  pub line_turn :
      (ℕ → ℕ → List ℕ → W → Option (ℤ × List ℕ × W))
      → Kernel W
      → ℕ
      → ℕ
      → ℕ
      → List ℕ
      → Received × W
      → Option (ℤ × List ℕ × W)
  line_turn rest k fuel left total line (Received.interrupted, w) = rest left total line w
  line_turn rest k fuel left total line (Received.failed, w) = some (negsuc 0, line, w)
  line_turn rest k fuel left total line (bytes [], w) = some (sub_ℕ total left, line, w)
  line_turn rest k fuel left total line (bytes (b ∷ bs), w) =
      line_bytes rest k fuel left total line (b ∷ bs) w (newline_at (b ∷ bs))

  -- `while(left > 0)` of `readLine`; `fuel` is for its rounds, `inner` for each `readn`.
  pub line_loop : Kernel W → ℕ → ℕ → ℕ → ℕ → List ℕ → W → Option (ℤ × List ℕ × W)
  line_loop k fuel inner zero total line w = some (sub_ℕ total 0, line, w)
  line_loop k zero inner (suc l) total line w = none
  line_loop k (suc fuel) inner (suc l) total line w =
      line_turn (line_loop k fuel inner) k inner (suc l) total line (k.peek w (suc l))

  -- The '\0' goes behind the bytes of the result. With `len <= 0` the loop is not entered, the
  -- '\0' goes to `buf[0]`, and the result is `0 - (len - 1)`.
  pub read_line : Kernel W → ℕ → ℕ → ℤ → W → Option (ℤ × List ℕ × W)
  read_line k fuel inner (pos (suc m)) w = line_loop k fuel inner m 0 [] w
  read_line k fuel inner (pos zero) w = some (pos 1, [], w)
  read_line k fuel inner (negsuc n) w = some (pos (n + 2), [], w)

  -- `TcpConnection::receive`: the size is a `long long`, the parameter of `readn` an `int`, and
  -- the result of `readn` is dropped.
  pub receive : Kernel W → ℕ → ℤ → W → Option (List ℕ × W)
  receive k fuel size w = Option.map (λ r. (r.1, r.2)) (read_n k fuel (narrow size) w)

  pub send : Kernel W → ℕ → List ℕ → ℤ → W → Option W
  send k fuel msg size w = Option.map (λ r. r.1) (write_n k fuel msg (narrow size) w)
