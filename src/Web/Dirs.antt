-- ===== src/Web/Dirs.antt =====
-- httppart/dirinfoserver.cc: the handlers of DirAddService, DirRmService and DirQueryService.
pub mod Session
pub mod Rows
use filedisk_server.Common.{
  ℕ, ◌^◌, ◌&&◌, Bool, true, false, Option, none, some, List, [], ◌∷◌, ◌++◌, get_elem?, ◌==◌,
  if◌then◌else◌,
}
use filedisk_server.Common.Int.{ℤ, pos, negsuc, bits}
use filedisk_server.Common.Text.{bytes_of, to_string}
use filedisk_server.Common.Runs.{Text, no_element, M, pure, ◌>>=◌, ◌>>◌, or_fault}
use filedisk_server.Web.Message.{DirInfo, DirRet}
use filedisk_server.Web.Library.{
  Reply, array, other, Cell, Status, status_ok, get_result, failed, Cursor, is_ok, Scalar, number,
  text, objects, scalar, Object, Json, Library, Serving, redis_task, mysql_task, respond,
}

-- `dirname` stands before the number without a comma, as in the source.
pub add_sql : Text → Text → ℕ → Text
add_sql userid dirname dirid =
    bytes_of "insert into filetree(userid,filepath,dirid) values("
    ++ (userid
        ++ (bytes_of "," ++ (dirname ++ (to_string dirid ++ (bytes_of "," ++ bytes_of ");")))))

pub rm_sql : Text → ℕ → Text
rm_sql userid dirid =
    bytes_of "update filetree set dirid=-2 where userid= "
    ++ (userid ++ (bytes_of "and dirid=" ++ (to_string dirid ++ bytes_of ";")))

pub query_sql : Text → ℕ → Text
query_sql userid dirid =
    bytes_of "select (id,filepath as name,index,filesize) from filetree where userid= "
    ++ (userid ++ (bytes_of "and dirid=" ++ (to_string dirid ++ bytes_of ";")))

pub code_json : ℤ → Json
code_json n = (bytes_of "code", scalar (number n)) ∷ []

module _ {R Q G : Type 0} (l : Library R Q G) where
  abbrev pub D : Type 0 → Type 0
  D A = M (Serving R Q G DirRet) A

  pub answer : ℤ → Json → D (Unit {0})
  answer code json = respond (λ ret. record ret { code = code; jsoninfo = l.dump json })

  -- `redisvalue[0]` and `redisvalue[1]`.
  pub session_of : List Text → D (Text × Text)
  session_of vs = do
    username ← or_fault no_element (get_elem? vs 0)
    userid ← or_fault no_element (get_elem? vs 1)
    pure (username, userid)

  -- The callback of the query of `DirAdd`.
  pub add_done : Text → Cursor → D (Unit {0})
  unfolding code_json answer
  add_done dirname cursor =
      if is_ok cursor.status
      then answer (pos 0) (
          code_json (pos 0)
          ++ ((bytes_of "dirid", scalar (number (pos cursor.insert_id)))
              ∷ (bytes_of "name", scalar (text dirname))
              ∷ []))
      else answer (negsuc 0) (code_json (negsuc 0))

  pub add_callback : Text → ℕ → Reply → D (Unit {0})
  unfolding session_of add_sql add_done
  add_callback dirname dirid other = pure tt
  add_callback dirname dirid (array vs) = do
    (username, userid) ← session_of vs
    cursor ← mysql_task l (add_sql userid dirname dirid)
    add_done dirname cursor

  -- The `int64` of the message becomes an `unsigned long long`.
  pub dir_add : DirInfo → D (Unit {0})
  unfolding add_callback
  dir_add request = do
    redisvalue ← redis_task l (bytes_of "hgetall" ∷ request.uuid ∷ [])
    add_callback request.name (bits (2 ^ 64) request.dirid) redisvalue

  pub rm_done : Cursor → D (Unit {0})
  unfolding code_json answer
  rm_done cursor =
      if is_ok cursor.status && cursor.affected_rows == 1
      then answer (pos 0)
          (code_json (pos 0) ++ ((bytes_of "msg", scalar (text (bytes_of "del ok!"))) ∷ []))
      else answer (negsuc 0)
          (code_json (negsuc 0) ++ ((bytes_of "msg", scalar (text (bytes_of "del error"))) ∷ []))

  pub rm_callback : ℕ → Reply → D (Unit {0})
  unfolding session_of rm_sql rm_done
  rm_callback dirid other = pure tt
  rm_callback dirid (array vs) = do
    (username, userid) ← session_of vs
    cursor ← mysql_task l (rm_sql userid dirid)
    rm_done cursor

  pub dir_rm : DirInfo → D (Unit {0})
  unfolding rm_callback
  dir_rm request = do
    redisvalue ← redis_task l (bytes_of "hgetall" ∷ request.uuid ∷ [])
    rm_callback (bits (2 ^ 64) request.dirid) redisvalue

  pub row_json : List Cell → D Object
  row_json row = do
    id ← or_fault no_element (get_elem? row 0)
    name ← or_fault no_element (get_elem? row 1)
    index ← or_fault no_element (get_elem? row 2)
    filesize ← or_fault no_element (get_elem? row 3)
    pure (
        (bytes_of "id", number (pos id.as_ulonglong))
        ∷ (bytes_of "name", text name.as_string)
        ∷ (bytes_of "index", number index.as_int)
        ∷ (bytes_of "filesize", number (pos filesize.as_ulonglong))
        ∷ [])

  pub rows_json : List (List Cell) → D (List Object)
  unfolding row_json
  rows_json [] = pure []
  rows_json (row ∷ rows) = do
    rowjson ← row_json row
    data_rows ← rows_json rows
    pure (rowjson ∷ data_rows)

  pub query_rows : Cursor → D (Unit {0})
  unfolding rows_json code_json answer
  query_rows cursor = do
    data_rows ← rows_json cursor.rows
    answer (pos 0) (code_json (pos 0) ++ ((bytes_of "data", objects data_rows) ∷ []))

  pub query_done : Cursor → D (Unit {0})
  unfolding query_rows
  query_done cursor =
      if is_ok cursor.status then query_rows cursor else answer (negsuc 0) (code_json (negsuc 0))

  pub query_callback : ℕ → Reply → D (Unit {0})
  unfolding session_of query_sql query_done
  query_callback dirid other = pure tt
  query_callback dirid (array vs) = do
    (username, userid) ← session_of vs
    cursor ← mysql_task l (query_sql userid dirid)
    query_done cursor

  pub dir_query : DirInfo → D (Unit {0})
  unfolding query_callback
  dir_query request = do
    redisvalue ← redis_task l (bytes_of "hgetall" ∷ request.uuid ∷ [])
    query_callback (bits (2 ^ 64) request.dirid) redisvalue
