-- ===== src/Web/Tests.antt =====
-- The theorems on the HTTP front and on the RPC services at concrete inputs.
use filedisk_server.Common.{
  ◌⊎◌, ℕ, ◌≡◌, refl, ◌↔◌, true, none, [], ◌∷◌, ◌++◌, replicate, eq_bytes_refl, arith,
}
use filedisk_server.Common.Int.{negsuc, pos}
use filedisk_server.Common.Text.{bytes_of}
use filedisk_server.Common.Runs.{Text, ok}
use filedisk_server.Session.Wire.{bool_bytes}
use filedisk_server.Session.Services.{World}
use filedisk_server.Session.Sample.{Peer, Table, Disk}
use filedisk_server.Session.FileTask.{validate, process}
use filedisk_server.Web.Message.{DirInfo, DirRet, UserSign, dir_ret, user_sign, user_ret}
use filedisk_server.Web.Library.{Cell, status_ok, Cursor, Serving}
use filedisk_server.Web.Dirs.Rows.{Row}
use filedisk_server.Web.Users.{session_request, sign_up, sign_in}
use filedisk_server.Web.Library.{is_ok}
use filedisk_server.Web.Users.Password.{sign_in-password}
use filedisk_server.Web.Users.Opening.{Opens, inserted, sign_up-Opens}
use filedisk_server.Web.Handover.{HashLaw, session_request-validate, process-uuid_36}
use filedisk_server.Web.Sample.{Hashes, cursors, files, serving}

-- The session "u1" of the user "bo", whose number is 7.
abbrev sessions : Hashes
sessions =
    (bytes_of "u1", (bytes_of "username", bytes_of "bo") ∷ (bytes_of "userid", bytes_of "7") ∷ [])
    ∷ []

abbrev inserted_row : Cursor
inserted_row = record { status = status_ok; insert_id = 7; affected_rows = 1; rows = [] }

abbrev folder : DirInfo
folder = record { dirid = pos 2; name = bytes_of "d"; uuid = bytes_of "u1" }

abbrev asked : Serving Hashes Cursor ℕ DirRet
asked = serving sessions inserted_row dir_ret

abbrev a_cell : ℕ → Text → Cell
a_cell n s = record { as_ulonglong = n; as_int = pos n; as_string = s }

abbrev listed : Row
listed = record {
  id = a_cell 11 [];
  name = a_cell 0 (bytes_of "a");
  index = a_cell 0 [];
  filesize = a_cell 3 [];
  more = [];
}

abbrev bo : UserSign
bo = record user_sign { username = bytes_of "bo"; password = 1 ∷ 2 ∷ [] }

sign_up-Opens_example :
    let w = serving [] inserted_row user_ret in
    ((sign_up cursors (bytes_of "??") bo w).0 ≡ ok tt)
    × ((sign_up cursors (bytes_of "??") bo w).1.redis ≡ [])
    × Opens cursors (inserted cursors bo w) w (sign_up cursors (bytes_of "??") bo w).1
sign_up-Opens_example = sign_up-Opens cursors (bytes_of "??") bo (serving [] inserted_row user_ret)

-- The row of a user with the password 1 2, the salt 3 and the checksum 6.
abbrev found_row : Cursor
found_row = record {
  status = status_ok;
  insert_id = 0;
  affected_rows = 1;
  rows =
      (a_cell 7 [] ∷ a_cell 0 (bytes_of "bo") ∷ a_cell 0 (3 ∷ []) ∷ a_cell 0 (replicate 16 6) ∷ [])
      ∷ [];
}

sign_in-password_example :
    let w = serving [] found_row user_ret in
    ((sign_in cursors bo w).0 ≡ ok tt)
    × (((sign_in cursors bo w).1.response.code ≡ pos 0)
        ↔ ((is_ok status_ok ≡ true) × (◌≡◌ {A = Text} (replicate 16 6) (replicate 16 6))))
    × (((sign_in cursors bo w).1.response.code ≡ pos 0)
        ⊎ ((sign_in cursors bo w).1.response.code ≡ negsuc 0))
sign_in-password_example =
    sign_in-password cursors (λ msg. refl) bo (serving [] found_row user_ret) status_ok found_row
      (a_cell 7 []) (a_cell 0 (bytes_of "bo")) (a_cell 0 (3 ∷ [])) (a_cell 0 (replicate 16 6))
      ([], 0, refl, refl)

hashes : HashLaw files cursors
hashes r key f u g v differ new = ground (arith, eq_bytes_refl key)

abbrev empty_world : World Peer Hashes Table Disk
empty_world = record {
  conn = record { incoming = []; sent = [] };
  redis = [];
  mysql = record { log = []; rows = none };
  files = [];
}

session_request-validate_example :
    let w1 = record empty_world {
      redis = (cursors.command [] (session_request (bytes_of "u1") 7 (bytes_of "bo"))).1;
    } in
    validate files (bytes_of "u1") w1 ≡ (ok (true, 7), w1)
session_request-validate_example =
    session_request-validate files cursors hashes (bytes_of "u1") (bytes_of "bo") 7 empty_world
      (omega arith) refl

-- A session id of 36 letters, which Redis knows, and a file name of one byte.
abbrev long_uuid : Text
long_uuid = replicate 36 97

abbrev long_world : World Peer Hashes Table Disk
long_world = record empty_world {
  conn = record { incoming = long_uuid ++ (1 ∷ 0 ∷ 0 ∷ 0 ∷ []); sent = [] };
  redis = (long_uuid, (bytes_of "userid", bytes_of "7") ∷ []) ∷ [];
}

process-uuid_36_example :
    process files 5 (λ n. replicate n 0) [] [] long_world
    ≡ (ok tt, record long_world { conn = record { incoming = []; sent = 0 ∷ [] } })
unfolding bool_bytes
process-uuid_36_example =
    process-uuid_36 files 5 (λ n. replicate n 0) [] [] long_uuid 1 long_world refl (ground arith)
      (ground arith) refl refl
