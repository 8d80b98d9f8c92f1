-- ===== src/Session/Services.antt =====
-- What `FileTask` calls and the repository does not implement: the connection (Net.SocketIo models
-- it), Redis through redis++, MySQL, MD5 and the file system. Each keeps a state of its own.
use filedisk_server.Common.{ℕ, Bool, Option, List}
use filedisk_server.Common.Int.{ℤ}
pub use filedisk_server.Common.Runs.{
  Text, Fault, unterminated, bad_number, bad_length, redis_error, null_row, out_of_fuel, Outcome,
  ok, fault, M, after, pure, fail, ◌>>=◌, ◌>>◌, or_fault, after-ok,
}

-- A call of redis++ throws an exception on an error reply, which is `none`.
pub record Services (C R Q F : Type 0) : Type 0 where
  pub receive : C → ℤ → Text × C  -- the bytes that it stores
  pub send : C → Text → ℤ → C
  pub hgetall : R → Text → Option (List (Text × Text))
  pub sismember : R → Text → Text → Option Bool
  pub sadd : R → Text → Text → Option R
  pub setex : R → Text → ℕ → Text → Option R
  pub query : Q → Text → Q  -- `mysql_query`
  pub result : Q → Option (List (List Text))  -- `mysql_store_result`, with all its rows
  pub md5 : Text → Text
  pub store : F → Text → Text → F  -- `open` with O_APPEND and O_CREAT, `write`, `close`
  pub open_file : F → Text → Option F  -- `open` with O_CREAT; `none` is a negative descriptor
  pub map_file : F → Text → ℕ → Text  -- what a mapping of that many bytes of the file shows

pub record World (C R Q F : Type 0) : Type 0 where
  pub conn : C
  pub redis : R
  pub mysql : Q
  pub files : F
