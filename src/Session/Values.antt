-- ===== src/Session/Values.antt =====
-- The values that `FileTask` computes on the way: names of stored files, fields of a session, cells of
-- a row, lengths of arrays and the texts of its queries, of tcppart/FileServer.cc.
use filedisk_server.Common.{
  ℕ, zero, suc, ◌+◌, ◌/◌, ◌%◌, Bool, false, Option, none, some, List, [], ◌∷◌, ◌++◌, eq_bytes, ltb,
  if◌then◌else◌,
}
use filedisk_server.Common.Int.{ℤ, pos, negsuc}
use filedisk_server.Common.Text.{bytes_of, to_string, to_string_ℤ}
use filedisk_server.Session.Wire.{FileHeader}
use filedisk_server.Session.Services.{Text}

-- `sprintf(tmp, "%02x", b)` for a byte.
unfoldable pub hex_digit : ℕ → ℕ
hex_digit d = if ltb d 10 then 48 + d else 87 + d

unfoldable pub hex : Text → Text
unfolding hex_digit
hex [] = []
hex (b ∷ bs) = hex_digit (b / 16) ∷ hex_digit (b % 16) ∷ hex bs

-- The name under which a file with this digest is stored.
unfoldable pub path_of : Text → Text
unfolding hex
path_of md5 = bytes_of "/home/filedisk/" ++ hex md5

-- `result["userid"]` on an `unordered_map`: a missing key gives the empty string.
unfoldable pub field_of : Text → List (Text × Text) → Text
field_of k [] = []
field_of k ((j, v) ∷ m) = if eq_bytes j k then v else field_of k m

-- `(unsigned long long)-1`
abbrev pub no_user : ℕ
no_user = 0xffff_ffff_ffff_ffff

-- A cell of a row; a column that is not there would be a null pointer.
unfoldable pub cell : List Text → ℕ → Option Text
cell [] n = none
cell (x ∷ row) zero = some x
cell (x ∷ row) (suc n) = cell row n

-- `char filename[filenamelen+1] = {0}`, and `new char[filelen]`.
unfoldable pub array_length : ℤ → Option ℕ
array_length (pos n) = some n
array_length (negsuc n) = none

pub record FileInfo : Type 0 where
  pub index : ℤ
  pub path : Text
  pub size : ℕ

unfoldable pub insert_sql : ℕ → Text → FileHeader → Text → Text
insert_sql userid filename fh hashfilepath =
    bytes_of "insert into filetree (userid,filepath,index,hashfilepath,dirid,filesize) values ( "
    ++ (to_string userid
        ++ (bytes_of ",'"
            ++ (filename
                ++ (bytes_of "',"
                    ++ (to_string_ℤ fh.index
                        ++ (bytes_of ",'"
                            ++ (hashfilepath
                                ++ (bytes_of "',"
                                    ++ (to_string_ℤ fh.dirid
                                        ++ (bytes_of ","
                                            ++ (to_string_ℤ fh.filelen ++ bytes_of ");")))))))))))

-- `fh->dirid` comes to `getfilelist` as an `unsigned long long`.
unfoldable pub list_sql : ℕ → ℕ → Text → Text
list_sql uid dirid filename =
    bytes_of "select index,hashfilepath,filesize from filetree where userid="
    ++ (to_string uid
        ++ (bytes_of " and dirid="
            ++ (to_string dirid ++ (bytes_of " and filepath= '" ++ (filename ++ bytes_of "';")))))

unfoldable pub count_sql : Text → Text
count_sql filename =
    bytes_of "select count(*) from filetree where hashfilepath= \"" ++ (filename ++ bytes_of "\";")

-- `stoi(row[0]) > 0` on the first row.
unfoldable pub is_positive : ℤ → Bool
is_positive (pos n) = ltb 0 n
is_positive (negsuc n) = false

unfoldable pub first_row : List (List Text) → Option Text
unfolding cell
first_row [] = none
first_row (row ∷ rows) = cell row 0
