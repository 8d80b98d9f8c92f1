-- ===== src/Net/SocketIo/Tests.antt =====
-- The theorems on `SocketIO` and on the calls of it at concrete inputs.
use filedisk_server.Common.{ℕ, ◌≡◌, some, List, [], ◌∷◌, arith}
use filedisk_server.Common.Int.{ℤ, pos}
use filedisk_server.Net.Script.{pause, byte, Script, arriving, script, view, script-Laws}
use filedisk_server.Net.SocketIo.{read_n, write_n}
use filedisk_server.Net.SocketIo.ReadN.{Took, read_n-Took}
use filedisk_server.Net.SocketIo.WriteN.{Gave, write_n-Gave}

-- Four bytes in pieces, with two interruptions.
abbrev pieces : Script
pieces = record {
  events = byte 7 ∷ pause ∷ byte 8 ∷ byte 9 ∷ pause ∷ byte 10 ∷ [];
  stalls = 1;
  written = [];
  faults = 0;
}

-- Two bytes without an end of line, and the end of the stream.
abbrev broken : Script
broken = record { events = arriving (7 ∷ 8 ∷ []); stalls = 0; written = []; faults = 0 }

read_n-Took_example :
    (r : ℤ) × (got : List ℕ) × (w' : Script) × (read_n script 6 (pos 3) pieces ≡ some (r, got, w'))
    × Took view 0 3 pieces r got w'
read_n-Took_example = read_n-Took script view script-Laws 6 3 pieces (omega arith)

write_n-Gave_example :
    (r : ℤ) × (w' : Script) × (write_n script 6 (1 ∷ 2 ∷ 3 ∷ []) (pos 3) pieces ≡ some (r, w'))
    × Gave view 0 (1 ∷ 2 ∷ 3 ∷ []) pieces r w'
write_n-Gave_example = write_n-Gave script view script-Laws 6 (1 ∷ 2 ∷ 3 ∷ []) pieces (omega arith)

-- Two bytes in a buffer of six: the result is 2 - 3.
