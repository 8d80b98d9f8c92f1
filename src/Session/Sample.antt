-- ===== src/Session/Sample.antt =====
-- Services that run, for the examples: a stream of bytes, a session, sets and strings of Redis, a
-- table that gives the same rows to every query, and a checksum in the place of MD5.
use filedisk_server.Common.{
  ℕ, ◌+◌, ◌%◌, ◌≡◌, Bool, false, ◌||◌, ◌&&◌, Option, none, some, List, [], ◌∷◌, ◌++◌, take, drop,
  replicate, eq_bytes, eq_bytes_refl, arith, if◌then◌else◌,
}
use filedisk_server.Common.Int.{ℤ, pos, negsuc}
use filedisk_server.Common.Text.{bytes_of}
use filedisk_server.Session.Services.{Text, Services, World}

pub record Peer : Type 0 where
  pub incoming : Text
  pub sent : Text

pub record Cache : Type 0 where
  pub session : Text
  pub fields : List (Text × Text)
  pub strings : List Text
  pub members : List (Text × Text)

pub record Table : Type 0 where
  pub log : List Text
  pub rows : Option (List (List Text))

abbrev pub Disk : Type 0
Disk = List (Text × Text)

abbrev has : Text → List Text → Bool
has k [] = false
has k (x ∷ xs) = eq_bytes x k || has k xs

abbrev has_pair : Text → Text → List (Text × Text) → Bool
has_pair k v [] = false
has_pair k v ((a, b) ∷ xs) = (eq_bytes a k && eq_bytes b v) || has_pair k v xs

abbrev checksum : Text → ℕ
checksum [] = 0
checksum (b ∷ bs) = (b + checksum bs) % 256

abbrev taken : Peer → ℤ → Text × Peer
taken c (pos n) = (take n c.incoming, record c { incoming = drop n c.incoming })
taken c (negsuc n) = ([], c)

abbrev read_file : Disk → Text → Text
read_file [] name = []
read_file ((a, b) ∷ d) name = if eq_bytes a name then b else read_file d name

abbrev pub sample : Services Peer Cache Table Disk
sample = record {
  receive = taken;
  send = λ c msg n. record c { sent = c.sent ++ msg };
  hgetall = λ r k. some (if eq_bytes r.session k then r.fields else []);
  sismember = λ r k m. if has k r.strings then none else some (has_pair k m r.members);
  sadd =
      λ r k m. if has k r.strings then none else some (record r { members = (k, m) ∷ r.members });
  setex = λ r k ttl v. some (record r { strings = k ∷ r.strings });
  query = λ q sql. record q { log = sql ∷ q.log };
  result = λ q. q.rows;
  md5 = λ msg. replicate 16 (checksum msg);
  store = λ f name msg. (name, msg) ∷ f;
  open_file = λ f name. some f;
  map_file = λ f name n. take n (read_file f name);
}

pub sample-WrongType :
    (r r' : Cache) (key value member : Text) (ttl : ℕ)
    → sample.setex r key ttl value ≡ some r'
    → sample.sismember r' key member ≡ none
sample-WrongType r r' key value member ttl e = ground (arith, eq_bytes_refl key)

-- A peer that sends `bytes`, user 7 with session "s", and a table that counts no file.
abbrev pub world : Text → Option (List (List Text)) → World Peer Cache Table Disk
world bytes rows = record {
  conn = record { incoming = bytes; sent = [] };
  redis = record {
    session = bytes_of "s";
    fields = (bytes_of "username", bytes_of "bo") ∷ (bytes_of "userid", bytes_of "7") ∷ [];
    strings = [];
    members = [];
  };
  mysql = record { log = []; rows = rows };
  files = [];
}

-- A table whose query has failed, as there is no connection; with `rows` fixed this is its only state.
pub record Unconnected : Type 0 where
  pub asked : ℕ

abbrev pub offline : Services Peer Cache Unconnected Disk
offline = record {
  receive = sample.receive;
  send = sample.send;
  hgetall = sample.hgetall;
  sismember = sample.sismember;
  sadd = sample.sadd;
  setex = sample.setex;
  query = λ q sql. record q { asked = q.asked + 1 };
  result = λ q. none;
  md5 = sample.md5;
  store = sample.store;
  open_file = sample.open_file;
  map_file = sample.map_file;
}

abbrev pub offline_world : Text → World Peer Cache Unconnected Disk
offline_world bytes = record {
  conn = (world bytes none).conn;
  redis = (world bytes none).redis;
  mysql = record { asked = 0 };
  files = [];
}
