-- ===== src/Net/SocketIo/Calls.antt =====
-- What a caller can make of the results: `TcpConnection::receive`, which gives a `long long` size to an
-- `int`, and a `readLine` cut short.
use filedisk_server.Common.{
  ℕ, suc, ◌+◌, ◌^◌, ◌≤◌, ◌<◌, ◌≡◌, ◌≢◌, sym, ◌∙◌, Option, none, some, List, [], ◌++◌, length, arith,
}
use filedisk_server.Common.Int.{ℤ, pos, narrow-small, narrow-large}
use filedisk_server.Net.Kernel.{Kernel, View, Laws}
use filedisk_server.Net.SocketIo.{newline_at, read_n, read_line, receive}
use filedisk_server.Net.SocketIo.ReadN.{read_n-Took}
use filedisk_server.Net.SocketIo.ReadLine.{Line, read_line-Line}

module _ {W : Type 0} (k : Kernel W) where
  -- A `receive` of 2 GiB up to 4 GiB reads nothing and leaves the stream as it was: the size comes to
  -- `readn` as a negative number.
  receive-wraps :
      (fuel n : ℕ) (w : W) → 2 ^ 31 ≤ n → n < 2 ^ 32 → receive k fuel (pos n) w ≡ some ([], w)
  unfolding receive read_n
  receive-wraps fuel n w lo hi = rw (narrow-large n lo hi)

short_result :
    {W : Type 0} {v : View W} (m : ℕ) (w : W) (r : ℤ) (line : List ℕ) (w' : W)
    → Line v m w r line w'
    → newline_at line ≡ none
    → length line < m
    → r ≢ pos (length line)
short_result m w r line w' l no_newline short = ground (arith, l)

module _ {W : Type 0} (k : Kernel W) (v : View W) (laws : Laws k v) where
  -- Below 2 GiB `receive` returns, given fuel for the interruptions and the bytes, and stores the
  -- next bytes of the stream, at most `n` of them.
  receive-prefix :
      (fuel n : ℕ) (w : W)
      → n < 2 ^ 31
      → v.patience w + n ≤ fuel
      → (got : List ℕ) × (w' : W) × (receive k fuel (pos n) w ≡ some (got, w'))
        × (length got ≤ n)
        × (v.incoming w ≡ got ++ v.incoming w')
        × (v.outgoing w' ≡ v.outgoing w)
        × (v.patience w' ≤ v.patience w)
  unfolding receive
  receive-prefix fuel n w small h =
      let (r, got, w', run, t) = read_n-Took k v laws fuel n w h in
      (got, w', rw (narrow-small n small, run), t.fits, t.order, t.silent, t.calmer)

  -- A `readLine` that meets the end of the stream before the end of the line and of the buffer never
  -- returns the number of bytes that it stored.
  read_line-short :
      (fuel inner m : ℕ) (w : W)
      → v.patience w + m ≤ fuel
      → v.patience w + m ≤ inner
      → (r : ℤ) (line : List ℕ) (w' : W)
      → read_line k fuel inner (pos (suc m)) w ≡ some (r, line, w')
      → newline_at line ≡ none
      → length line < m
      → r ≢ pos (length line)
  read_line-short fuel inner m w h hi r line w' run no_newline short =
      let (r0, line0, w0, run0, l) = read_line-Line k v laws fuel inner m w h hi in
      short_result {v = v} m w r line w'
        (let same : ◌≡◌ {A = Option (ℤ × List ℕ × W)} (some (r0, line0, w0)) (some (r, line, w')) =
            sym run0 ∙ run in
          let er : r0 ≡ r = ground arith in
          let el : line0 ≡ line = ground arith in
          let ew : w0 ≡ w' = ground arith in rw (sym er, sym el, sym ew) l)
        no_newline short
