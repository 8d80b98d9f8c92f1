-- ===== src/Web/Sample.antt =====
-- Services that run, for the examples: Redis with hashes, a MySQL that gives the same answer to every
-- query, and generators that count.
use filedisk_server.Common.{
  ℕ, ◌+◌, ◌%◌, false, some, List, [], ◌∷◌, length, replicate, eq_bytes, if◌then◌else◌,
}
use filedisk_server.Common.Text.{bytes_of}
use filedisk_server.Common.Runs.{Text}
use filedisk_server.Session.Services.{Services}
use filedisk_server.Session.Sample.{Peer, Table, Disk, sample}
use filedisk_server.Web.Library.{Reply, array, other, Cursor, Library, Serving}

abbrev pub Hashes : Type 0
Hashes = List (Text × List (Text × Text))

abbrev pub fields_of : Hashes → Text → List (Text × Text)
fields_of [] k = []
fields_of ((key, fields) ∷ r) k =
    let rest = fields_of r k in if eq_bytes key k then fields else rest

abbrev pairs : List Text → List (Text × Text)
pairs [] = []
pairs (f ∷ []) = []
pairs (f ∷ v ∷ more) = (f, v) ∷ pairs more

abbrev flat : List (Text × Text) → List Text
flat [] = []
flat ((f, v) ∷ more) = f ∷ v ∷ flat more

abbrev run : Hashes → List Text → Reply × Hashes
run r [] = (other, r)
run r (c ∷ []) = (other, r)
run r (c ∷ key ∷ args) =
    if eq_bytes c (bytes_of "hmset")
    then (other, (key, pairs args) ∷ r)
    else (array (flat (fields_of r key)), r)

abbrev sum : Text → ℕ
sum [] = 0
sum (b ∷ bs) = (b + sum bs) % 256

-- The state of MySQL is its answer.
abbrev pub sample_with : {Q : Type 0} → (Q → Cursor) → Library Hashes Q ℕ
sample_with answer = record {
  command = run;
  query = λ q sql. (answer q, q);
  md5 = λ msg. replicate 16 (sum msg);
  seed = λ g. 7;
  rand = λ g. (g, g + 1);
  uuid = λ g. (bytes_of "u1", g);
  dump = λ json. length json ∷ [];
}

abbrev pub cursors : Library Hashes Cursor ℕ
cursors = sample_with (λ c. c)

-- The file server on the same Redis.
abbrev pub files : Services Peer Hashes Table Disk
files = record {
  receive = sample.receive;
  send = sample.send;
  hgetall = λ r k. some (fields_of r k);
  sismember = λ r k m. some false;
  sadd = λ r k m. some r;
  setex = λ r k ttl v. some r;
  query = sample.query;
  result = sample.result;
  md5 = sample.md5;
  store = sample.store;
  open_file = sample.open_file;
  map_file = sample.map_file;
}

abbrev pub serving : {Q Ret : Type 0} → Hashes → Q → Ret → Serving Hashes Q ℕ Ret
serving r q ret = record { redis = r; mysql = q; entropy = 3; started = []; response = ret }
