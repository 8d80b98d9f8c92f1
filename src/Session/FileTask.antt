-- ===== src/Session/FileTask.antt =====
-- The class `FileTask` of tcppart/FileServer.cc, with `UserValidate`. `process` is run by a worker of
-- the pool for each message of a connection.
pub mod Upload
pub mod Access
pub mod Download
pub mod Tests
use filedisk_server.Common.{
  ℕ, zero, suc, ◌+◌, ◌*◌, ◌/◌, ◌%◌, ◌^◌, Bool, true, false, Option, none, some, List, [], ◌∷◌, ◌++◌,
  map, length, take, replicate, overlay, eq_bytes, ltb, ◌==◌, if◌then◌else◌,
}
use filedisk_server.Common.Int.{ℤ, pos, negsuc, signed64, bits}
use filedisk_server.Common.Text.{
  bytes_of, to_string, to_string_ℤ, stoull, stoi, atoi, atoll, c_string,
}
use filedisk_server.Session.Wire.{
  DataUuid, FileHeader, read_datauuid, read_fileheader, bool_bytes, fileheader_bytes,
}
use filedisk_server.Session.Values.{
  hex_digit, hex, path_of, field_of, no_user, cell, array_length, FileInfo, insert_sql, list_sql,
  count_sql, is_positive, first_row,
}
use filedisk_server.Session.Services.{
  Text, Services, World, Fault, unterminated, bad_number, bad_length, redis_error, null_row,
  out_of_fuel, Outcome, ok, fault, M, after, pure, fail, ◌>>=◌, ◌>>◌, or_fault,
}

-- `{true, stoull(result["userid"])}` if there is a result, else `{false, -1}`.
pub session_user : {W : Type 0} → List (Text × Text) → M W (Bool × ℕ)
unfolding field_of
session_user [] = pure (false, no_user)
session_user (x ∷ m) = do
  userid ← or_fault bad_number (stoull (field_of (bytes_of "userid") (x ∷ m)))
  pure (true, userid)

pub file_infos : {W : Type 0} → List (List Text) → M W (List FileInfo)
unfolding cell
file_infos [] = pure []
file_infos (row ∷ rows) = do
  index ← or_fault null_row (cell row 0)
  path ← or_fault null_row (cell row 1)
  size ← or_fault null_row (cell row 2)
  rest ← file_infos rows
  pure (record { index = atoi index; path = path; size = atoll size } ∷ rest)

-- The rows that `mysql_fetch_row` gives of a result until it gives NULL, which it does at once for a
-- null result.
pub fetched : Option (List (List Text)) → List (List Text)
fetched none = []
fetched (some rows) = rows

module _ {C R Q F : Type 0} (o : Services C R Q F) where
  ask : M (World C R Q F) (World C R Q F)
  ask w = (ok w, w)

  -- The bytes of `size` that arrive, in front of what `buff` held. The task does not look at how
  -- many they are.
  pub receive_into : Text → ℤ → M (World C R Q F) Text
  receive_into buff size w =
      let (bs, c) = o.receive w.conn size in (ok (overlay bs buff), record w { conn = c })

  send_sized : Text → ℤ → M (World C R Q F) (Unit {0})
  send_sized msg size w = (ok tt, record w { conn = o.send w.conn msg size })

  pub send_bytes : Text → M (World C R Q F) (Unit {0})
  unfolding send_sized
  send_bytes msg = send_sized msg (pos (length msg))

  -- `mysql_query`, whose result the task does not look at.
  pub run_query : Text → M (World C R Q F) (Unit {0})
  run_query sql w = (ok tt, record w { mysql = o.query w.mysql sql })

  -- `UserValidate::validate`: whether the session is known, and its user.
  pub validate : Text → M (World C R Q F) (Bool × ℕ)
  unfolding ask session_user
  validate uuid = do
    w ← ask
    session ← or_fault redis_error (o.hgetall w.redis uuid)
    session_user session

  pub user_validate : Bool → M (World C R Q F) (Unit {0})
  unfolding send_bytes
  user_validate valid = send_bytes (bool_bytes valid)

  count_files : Text → M (World C R Q F) Bool
  unfolding ask run_query first_row is_positive
  count_files filename = do
    run_query (count_sql filename)
    w ← ask
    rows ← or_fault null_row (o.result w.mysql)
    text ← or_fault null_row (first_row rows)
    n ← or_fault bad_number (stoi text)
    pure (is_positive n)

  -- `isfileexits`: in the set of the user's files, or in the table for any user.
  pub is_file_exists : Text → ℕ → M (World C R Q F) Bool
  unfolding ask count_files
  is_file_exists filename userid = do
    w ← ask
    known ← or_fault redis_error (o.sismember w.redis (to_string userid) filename)
    if known then pure true else count_files filename

  -- The `while(true)` of `savefile`: receive over the buffer until its digest is the announced one.
  pub save_loop : ℕ → FileHeader → Text → M (World C R Q F) Text
  unfolding receive_into send_bytes
  save_loop zero fh buff = fail out_of_fuel
  save_loop (suc fuel) fh buff = do
    got ← receive_into buff fh.filelen
    let rest : M (World C R Q F) Text = send_bytes (bool_bytes true) >> save_loop fuel fh got
    if eq_bytes (o.md5 got) fh.md5 then pure got else rest

  -- `open`, `write` and `close`, whose results `savefile` does not look at.
  store_file : Text → Text → M (World C R Q F) (Unit {0})
  store_file filename buff w = (ok tt, record w { files = o.store w.files filename buff })

  -- `garbage` is what `new char[filelen]` happens to hold.
  pub save_new : ℕ → (ℕ → Text) → FileHeader → M (World C R Q F) Text
  unfolding path_of save_loop store_file array_length
  save_new fuel garbage fh = do
    n ← or_fault bad_length (array_length fh.filelen)
    buff ← save_loop fuel fh (garbage n)
    store_file (path_of fh.md5) buff
    pure (path_of fh.md5)

  pub save_file : ℕ → (ℕ → Text) → FileHeader → ℕ → M (World C R Q F) Text
  unfolding path_of is_file_exists send_bytes save_new
  save_file fuel garbage fh userid = do
    isexits ← is_file_exists (path_of fh.md5) userid
    send_bytes (bool_bytes isexits)
    if isexits then pure (path_of fh.md5) else save_new fuel garbage fh

  -- `getfilelist`
  pub get_file_list : ℕ → ℕ → Text → M (World C R Q F) (List FileInfo)
  unfolding ask run_query file_infos fetched
  get_file_list uid dirid filename = do
    run_query (list_sql uid dirid filename)
    w ← ask
    file_infos (fetched (o.result w.mysql))

  -- `downfh` has no initialiser: `md5` and the padding are what stood on the stack.
  pub down_header : FileHeader → FileInfo → Text → FileHeader
  down_header fh info md5 = record {
    dirid = fh.dirid;
    md5 = md5;
    index = info.index;
    upload = false;
    filelen = signed64 (info.size % 2 ^ 64);
  }

  -- `open`; a negative descriptor ends `downloadfile`.
  open_for : Text → M (World C R Q F) Bool
  open_for filename w = elim (o.open_file w.files filename) [
    | none ↦ (ok false, w)
    | some f ↦ (ok true, record w { files = f })
  ]

  -- One round of the loop of `downloadfile`: the header, then what a mapping of the file shows.
  pub send_file : Text → Text → FileHeader → Text → FileInfo → M (World C R Q F) (Unit {0})
  unfolding ask send_sized send_bytes down_header
  send_file md5 padding fh filename info = do
    w ← ask
    send_bytes (fileheader_bytes (down_header fh info md5) padding)
    send_sized (o.map_file w.files filename info.size) (signed64 (info.size % 2 ^ 64))

  pub download_loop : Text → Text → FileHeader → Text → List FileInfo → M (World C R Q F) (Unit {0})
  unfolding open_for send_file
  download_loop md5 padding fh filename [] = pure tt
  download_loop md5 padding fh filename (info ∷ filelist) = do
    opened ← open_for filename
    let rest : M (World C R Q F) (Unit {0}) =
        send_file md5 padding fh filename info >> download_loop md5 padding fh filename filelist
    if opened then rest else pure tt

  pub download_file : Text → Text → FileHeader → Text → ℕ → M (World C R Q F) (Unit {0})
  unfolding get_file_list download_loop
  download_file md5 padding fh filename userid = do
    filelist ← get_file_list userid (bits (2 ^ 64) fh.dirid) filename
    download_loop md5 padding fh filename filelist

  redis_sadd : Text → Text → M (World C R Q F) (Unit {0})
  redis_sadd key member w = elim (o.sadd w.redis key member) [
    | none ↦ (fault redis_error, w)
    | some r ↦ (ok tt, record w { redis = r })
  ]

  redis_setex : Text → ℕ → Text → M (World C R Q F) (Unit {0})
  redis_setex key ttl value w = elim (o.setex w.redis key ttl value) [
    | none ↦ (fault redis_error, w)
    | some r ↦ (ok tt, record w { redis = r })
  ]

  -- What is undetermined about a run: the fuel of `save_loop`, and what uninitialised memory holds.
  pub upload : ℕ → (ℕ → Text) → FileHeader → Text → ℕ → M (World C R Q F) (Unit {0})
  unfolding save_file run_query redis_sadd redis_setex insert_sql
  upload fuel garbage fh filename userid = do
    hashfilepath ← save_file fuel garbage fh userid
    run_query (insert_sql userid filename fh hashfilepath)
    redis_sadd (to_string userid) hashfilepath
    redis_setex (to_string userid) (4 * 60 * 60) hashfilepath

  -- What `process` does for a valid user, after the `datauuid`.
  pub serve : ℕ → (ℕ → Text) → Text → Text → ℤ → ℕ → M (World C R Q F) (Unit {0})
  unfolding receive_into array_length upload download_file
  serve fuel garbage md5 padding namelen userid = do
    n ← or_fault bad_length (array_length namelen)
    name ← receive_into (replicate (n + 1) 0) namelen
    fheaderinfo ← receive_into (replicate 40 0) (pos 40)
    filename ← or_fault unterminated (c_string name)
    let fh : FileHeader = read_fileheader fheaderinfo
    if fh.upload
        then upload fuel garbage fh filename userid
        else download_file md5 padding fh filename userid

  pub process : ℕ → (ℕ → Text) → Text → Text → M (World C R Q F) (Unit {0})
  unfolding receive_into validate user_validate serve
  process fuel garbage md5 padding = do
    buff ← receive_into (replicate 40 0) (pos 40)
    uuid ← or_fault unterminated (c_string buff)
    (valid, userid) ← validate uuid
    user_validate valid
    if valid then serve fuel garbage md5 padding (read_datauuid buff).namelen userid else pure tt
