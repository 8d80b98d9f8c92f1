-- ===== src/Session/FileTask/Access.antt =====
-- Who is served, and how a run of `process` ends when Redis or MySQL do not answer.
use filedisk_server.Common.{
  ℕ, ◌*◌, ◌^◌, ◌<◌, ◌≡◌, refl, inl, inr, true, false, none, some, List, ◌∷◌, [], overlay, replicate,
  arith, Option-cases,
}
use filedisk_server.Common.Int.{pos, bits}
use filedisk_server.Common.Text.{bytes_of, to_string, c_string}
use filedisk_server.Common.Text.Decimal.{stoull-to_string}
use filedisk_server.Session.Wire.{FileHeader, bool_bytes}
use filedisk_server.Session.Services.{
  Text, Services, World, redis_error, null_row, ok, fault, after-ok,
}
use filedisk_server.Session.Values.{path_of, insert_sql, field_of, count_sql, list_sql}
use filedisk_server.Session.FileTask.{
  is_file_exists, save_file, run_query, redis_sadd, redis_setex, upload, get_file_list, file_infos,
  fetched, download_loop, download_file, session_user, validate, user_validate, process,
}

module _ {C R Q F : Type 0} (o : Services C R Q F) where
  -- A client whose uuid is no session gets one answer, `valid = false`, and nothing else happens:
  -- no more is read from it, and Redis, MySQL and the files stay as they were.
  pub process-stranger :
      (fuel : ℕ) (garbage : ℕ → Text) (md5 padding uuid : Text) (w : World C R Q F)
      → c_string (overlay (o.receive w.conn (pos 40)).0 (replicate 40 0)) ≡ some uuid
      → o.hgetall w.redis uuid ≡ some []
      → process o fuel garbage md5 padding w ≡ (
        ok tt,
        record w { conn = o.send (o.receive w.conn (pos 40)).1 (bool_bytes false) (pos 1) },
      )
  unfolding process validate user_validate session_user bool_bytes
  process-stranger fuel garbage md5 padding uuid w terminated unknown =
      rw terminated (ground (arith, unknown))

  -- A session whose field `userid` is a number below 2 ^ 64 as `to_string` writes it belongs to the
  -- user with this number.
  pub validate-userid :
      (uuid : Text) (n : ℕ) (x : Text × Text) (fields : List (Text × Text)) (w : World C R Q F)
      → n < 2 ^ 64
      → o.hgetall w.redis uuid ≡ some (x ∷ fields)
      → field_of (bytes_of "userid") (x ∷ fields) ≡ to_string n
      → validate o uuid w ≡ (ok (true, n), w)
  unfolding validate session_user
  validate-userid uuid n x fields w small found field = rw (found, field, stoull-to_string n small)

  save_file-unconnected :
      (fuel : ℕ) (garbage : ℕ → Text) (fh : FileHeader) (userid : ℕ) (w : World C R Q F)
      → ((q : Q) → o.result q ≡ none)
      → o.sismember w.redis (to_string userid) (path_of fh.md5) ≡ some false
      → (save_file o fuel garbage fh userid w).0 ≡ fault null_row
  unfolding save_file
  save_file-unconnected fuel garbage fh userid w no_result absent =
      ground (arith, absent, no_result (o.query w.mysql (count_sql (path_of fh.md5))))

  download_file-unconnected :
      (md5 padding : Text) (fh : FileHeader) (filename : Text) (userid : ℕ) (w : World C R Q F)
      → ((q : Q) → o.result q ≡ none)
      → download_file o md5 padding fh filename userid w ≡ (
        ok tt,
        record w { mysql = o.query w.mysql (list_sql userid (bits (2 ^ 64) fh.dirid) filename) },
      )
  unfolding download_file get_file_list run_query file_infos fetched download_loop
  download_file-unconnected md5 padding fh filename userid w no_result =
      rw (no_result (o.query w.mysql (list_sql userid (bits (2 ^ 64) fh.dirid) filename))) refl

  -- Redis answers with an error when a set command meets a key that holds a string.
  abbrev pub WrongType : Type 0
  WrongType =
      (r r' : R) (key value member : Text) (ttl : ℕ)
      → o.setex r key ttl value ≡ some r'
      → o.sismember r' key member ≡ none

  setex-locks :
      (userid : ℕ) (path : Text) (w w' : World C R Q F)
      → WrongType
      → redis_setex o (to_string userid) (4 * 60 * 60) path w ≡ (ok tt, w')
      → (member : Text) → o.sismember w'.redis (to_string userid) member ≡ none
  unfolding redis_setex
  setex-locks userid path w w' wrong e member =
      elim (Option-cases (o.setex w.redis (to_string userid) (4 * 60 * 60) path)) [
        | inl q ↦ ground arith
        | inr (r, q) ↦
            let same : w'.redis ≡ r = ground arith in
            rw same (wrong w.redis r (to_string userid) path member (4 * 60 * 60) q)
      ]

  -- An upload that ends well ends in `setex`.
  upload-setex :
      (fuel : ℕ) (garbage : ℕ → Text) (fh : FileHeader) (filename : Text) (userid : ℕ)
      (w w' : World C R Q F)
      → upload o fuel garbage fh filename userid w ≡ (ok tt, w')
      → (path : Text) × (u : World C R Q F) × (redis_setex o (to_string userid) (4 * 60 * 60) path u
          ≡ (ok tt, w'))
  unfolding upload
  upload-setex fuel garbage fh filename userid w w' e =
      let (path, w1, e1, f1) = after-ok _ (save_file o fuel garbage fh userid w) e in
      let (x, u, e2, f2) =
        after-ok _
          (redis_sadd o (to_string userid) path
            (record w1 { mysql = o.query w1.mysql (insert_sql userid filename fh path) }))
          f1 in
      (path, u, f2)

  -- After an upload that ends well the user's key holds a string, and until it is gone the next
  -- `savefile` of this user ends in an error of Redis, for whatever file.
  pub upload-locks :
      (fuel : ℕ) (garbage : ℕ → Text) (fh : FileHeader) (filename : Text) (userid : ℕ)
      (w w' : World C R Q F)
      → WrongType
      → upload o fuel garbage fh filename userid w ≡ (ok tt, w')
      → (fh2 : FileHeader) (w2 : World C R Q F) → w2.redis ≡ w'.redis
      → (save_file o fuel garbage fh2 userid w2).0 ≡ fault redis_error
  unfolding save_file is_file_exists
  upload-locks fuel garbage fh filename userid w w' wrong e fh2 w2 same =
      let (path, u, f) = upload-setex fuel garbage fh filename userid w w' e in
      rw (same, setex-locks userid path u w' wrong f (path_of fh2.md5))
