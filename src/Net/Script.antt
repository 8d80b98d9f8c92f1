-- ===== src/Net/Script.antt =====
-- A kernel that runs: bytes arrive one at a time with interruptions and errors between them, and a
-- `write` takes one byte, after some interruptions. It satisfies `Laws`.
use filedisk_server.Common.{ℕ, zero, suc, ◌+◌, List, [], ◌∷◌, ◌++◌, append-nil, arith}
use filedisk_server.Net.Kernel.{
  Received, bytes, Sent, count, Kernel, View, ReadOk, PeekOk, WriteOk, Laws,
}

pub data Event : Type 0 where
  pause fault : Event
  byte : ℕ → Event

pub record Script : Type 0 where
  pub events : List Event
  pub stalls : ℕ
  pub written : List ℕ
  pub faults : ℕ

abbrev pub arriving : List ℕ → List Event
arriving [] = []
arriving (b ∷ bs) = byte b ∷ arriving bs

abbrev incoming_of : List Event → List ℕ
incoming_of [] = []
incoming_of (pause ∷ es) = incoming_of es
incoming_of (fault ∷ es) = incoming_of es
incoming_of (byte b ∷ es) = b ∷ incoming_of es

abbrev pauses_of : List Event → ℕ
pauses_of [] = 0
pauses_of (pause ∷ es) = suc (pauses_of es)
pauses_of (fault ∷ es) = pauses_of es
pauses_of (byte b ∷ es) = pauses_of es

abbrev read_events : List Event → ℕ → Received × List Event
read_events [] n = (bytes [], [])
read_events (pause ∷ es) n = (Received.interrupted, es)
read_events (fault ∷ es) n = (Received.failed, es)
read_events (byte b ∷ es) zero = (bytes [], byte b ∷ es)
read_events (byte b ∷ es) (suc n) = (bytes (b ∷ []), es)

abbrev peek_events : List Event → ℕ → Received × List Event
peek_events [] n = (bytes [], [])
peek_events (pause ∷ es) n = (Received.interrupted, es)
peek_events (fault ∷ es) n = (Received.failed, es)
peek_events (byte b ∷ es) zero = (bytes [], byte b ∷ es)
peek_events (byte b ∷ es) (suc n) = (bytes (b ∷ []), byte b ∷ es)

abbrev counted : Received → ℕ → ℕ
counted Received.failed c = suc c
counted a c = c

abbrev write_script : ℕ → Script → List ℕ → Sent × Script
write_script zero w [] = (count 0, w)
write_script zero w (b ∷ bs) = (count 1, record w { written = w.written ++ (b ∷ []) })
write_script (suc s) w msg = (Sent.interrupted, record w { stalls = s })

abbrev pub script : Kernel Script
script = record {
  read = λ w n.
      let (a, es) = read_events w.events n in
      (a, record w { events = es; faults = counted a w.faults });
  peek = λ w n.
      let (a, es) = peek_events w.events n in
      (a, record w { events = es; faults = counted a w.faults });
  write = λ w msg. write_script w.stalls w msg;
}

abbrev pub view : View Script
view = record {
  incoming = λ w. incoming_of w.events;
  outgoing = λ w. w.written;
  patience = λ w. pauses_of w.events + w.stalls;
  errors = λ w. w.faults;
}

abbrev at : List Event → ℕ → List ℕ → ℕ → Script
at es stalls written faults = record {
  events = es;
  stalls = stalls;
  written = written;
  faults = faults;
}

read_script_ok :
    (es : List Event) (s : ℕ) (o : List ℕ) (c n : ℕ)
    → ReadOk view (at es s o c) n (script.read (at es s o c) n)
read_script_ok [] s o c n = ground arith
read_script_ok (pause ∷ es) s o c n = ground arith
read_script_ok (fault ∷ es) s o c n = ground arith
read_script_ok (byte b ∷ es) s o c zero = ground arith
read_script_ok (byte b ∷ es) s o c (suc n) = ground arith

peek_script_ok :
    (es : List Event) (s : ℕ) (o : List ℕ) (c n : ℕ)
    → PeekOk view (at es s o c) n (script.peek (at es s o c) n)
peek_script_ok [] s o c n = ground arith
peek_script_ok (pause ∷ es) s o c n = ground arith
peek_script_ok (fault ∷ es) s o c n = ground arith
peek_script_ok (byte b ∷ es) s o c zero = ground arith
peek_script_ok (byte b ∷ es) s o c (suc n) = ground arith

write_script_ok :
    (es : List Event) (s : ℕ) (o msg : List ℕ) (c : ℕ)
    → WriteOk view (at es s o c) msg (script.write (at es s o c) msg)
write_script_ok es zero o [] c = ground (arith, append-nil o)
write_script_ok es zero o (b ∷ bs) c = ground arith
write_script_ok es (suc s) o msg c = ground arith

pub script-Laws : Laws script view
script-Laws = record {
  read_ok = λ w n. read_script_ok w.events w.stalls w.written w.faults n;
  peek_ok = λ w n. peek_script_ok w.events w.stalls w.written w.faults n;
  write_ok = λ w msg. write_script_ok w.events w.stalls w.written msg w.faults;
}
