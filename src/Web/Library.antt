-- ===== src/Web/Library.antt =====
-- What the RPC services call and the repository does not implement: Redis and MySQL through Workflow,
-- MD5, the random generators, and `Json::dump`.
--
-- A handler puts one task behind the others of its series and returns; the callback of the task may
-- put another one there, and the response is sent when the series is at its end. So a handler, its
-- tasks and their callbacks run one after the other, and are one run here. A task that is started
-- with `start` has a series of its own: its request waits in `started`, and is sent at some time
-- that nothing fixes.
use filedisk_server.Common.{ℕ, Bool, true, false, List, [], ◌∷◌, ◌++◌}
use filedisk_server.Common.Int.{ℤ}
use filedisk_server.Common.Runs.{Text, ok, M}

-- An array with the `string_value` of its elements, or any other reply.
pub data Reply : Type 0 where
  array : List Text → Reply
  other : Reply

-- A cell with what each of its accessors answers.
pub record Cell : Type 0 where
  pub as_ulonglong : ℕ
  pub as_int : ℤ
  pub as_string : Text

-- `get_cursor_status`: MYSQL_STATUS_OK, MYSQL_STATUS_GET_RESULT, or another one.
pub data Status : Type 0 where
  status_ok get_result failed : Status

pub record Cursor : Type 0 where
  pub status : Status
  pub insert_id : ℕ
  pub affected_rows : ℕ
  pub rows : List (List Cell)

abbrev pub is_ok : Status → Bool
is_ok status_ok = true
is_ok get_result = false
is_ok failed = false

-- What the services put into a `Json`: members in the order of their assignment, and one array of
-- objects.
pub data Scalar : Type 0 where
  number : ℤ → Scalar
  text : Text → Scalar

abbrev pub Object : Type 0
Object = List (Text × Scalar)

pub data Value : Type 0 where
  scalar : Scalar → Value
  objects : List Object → Value

abbrev pub Json : Type 0
Json = List (Text × Value)

pub record Library (R Q G : Type 0) : Type 0 where
  pub command : R → List Text → Reply × R
  pub query : Q → Text → Cursor × Q
  pub md5 : Text → Text
  pub seed : G → G  -- `srand(time(nullptr))`
  pub rand : G → ℕ × G
  pub uuid : G → Text × G  -- `boost::uuids`
  pub dump : Json → Text

-- A service while it serves one call.
pub record Serving (R Q G Ret : Type 0) : Type 0 where
  pub redis : R
  pub mysql : Q
  pub entropy : G
  pub started : List (List Text)
  pub response : Ret

module _ {R Q G Ret : Type 0} (l : Library R Q G) where
  abbrev pub redis_task : List Text → M (Serving R Q G Ret) Reply
  redis_task req w = let (v, r) = l.command w.redis req in (ok v, record w { redis = r })

  abbrev pub mysql_task : Text → M (Serving R Q G Ret) Cursor
  mysql_task sql w = let (c, q) = l.query w.mysql sql in (ok c, record w { mysql = q })

module _ {R Q G Ret : Type 0} where
  abbrev pub start_task : List Text → M (Serving R Q G Ret) (Unit {0})
  start_task req w = (ok tt, record w { started = w.started ++ (req ∷ []) })

  abbrev pub respond : (Ret → Ret) → M (Serving R Q G Ret) (Unit {0})
  respond f w = (ok tt, record w { response = f w.response })

  abbrev pub random : {A : Type 0} → (G → A × G) → M (Serving R Q G Ret) A
  random f w = let (a, g) = f w.entropy in (ok a, record w { entropy = g })
