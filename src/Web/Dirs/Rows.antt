-- ===== src/Web/Dirs/Rows.antt =====
-- The rows of `DirQuery` as JSON, against a description of them as a map.
use filedisk_server.Common.{◌≡◌, refl, List, [], ◌∷◌, ◌++◌, map}
use filedisk_server.Common.Int.{pos}
use filedisk_server.Common.Text.{bytes_of}
use filedisk_server.Common.Runs.{ok}
use filedisk_server.Web.Message.{DirRet}
use filedisk_server.Web.Library.{
  Cell, status_ok, Cursor, number, text, Object, objects, Library, Serving,
}
use filedisk_server.Web.Dirs.{code_json, answer, row_json, rows_json, query_rows, query_done}

-- A row of the four columns that the query names, and more columns that it does not.
pub record Row : Type 0 where
  pub id : Cell
  pub name : Cell
  pub index : Cell
  pub filesize : Cell
  pub more : List Cell

abbrev pub cells : Row → List Cell
cells row = row.id ∷ row.name ∷ row.index ∷ row.filesize ∷ row.more

abbrev pub object_of : Row → Object
object_of row =
    (bytes_of "id", number (pos row.id.as_ulonglong))
    ∷ (bytes_of "name", text row.name.as_string)
    ∷ (bytes_of "index", number row.index.as_int)
    ∷ (bytes_of "filesize", number (pos row.filesize.as_ulonglong))
    ∷ []

module _ {R Q G : Type 0} (l : Library R Q G) where
  rows_json-map :
      (rows : List Row) (w : Serving R Q G DirRet)
      → rows_json l (map cells rows) w ≡ (ok (map object_of rows), w)
  unfolding rows_json row_json
  rows_json-map [] w = refl
  rows_json-map (row ∷ rows) w = rw (rows_json-map rows w)

  -- On rows of at least four cells a good answer to the query becomes code 0 and a JSON object whose
  -- `data` has an object for each row, in their order, with the four columns.
  query_done-map :
      (cursor : Cursor) (rows : List Row) (w : Serving R Q G DirRet)
      → cursor.status ≡ status_ok
      → cursor.rows ≡ map cells rows
      → query_done l cursor w ≡ (
        ok tt,
        record w {
          response = record {
            code = pos 0;
            jsoninfo =
                l.dump
                  (code_json (pos 0) ++ ((bytes_of "data", objects (map object_of rows)) ∷ []));
          };
        },
      )
  unfolding query_done query_rows answer
  query_done-map cursor rows w good same = rw (good, same, rows_json-map rows w)
