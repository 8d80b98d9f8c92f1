-- ===== src/Web/Dirs/Session.antt =====
-- What the handlers of the directory services make of the session that Redis answers.
use filedisk_server.Common.{ℕ, ◌^◌, ◌≡◌, refl, List, [], ◌∷◌, drop}
use filedisk_server.Common.Int.{negsuc, bits}
use filedisk_server.Common.Text.{bytes_of}
use filedisk_server.Common.Runs.{Text, ok, fault, no_element, ◌>>=◌}
use filedisk_server.Web.Message.{DirInfo, DirRet}
use filedisk_server.Web.Library.{Reply, array, other, get_result, Library, Serving, mysql_task}
use filedisk_server.Web.Users.{session_request}
use filedisk_server.Web.Dirs.{
  add_sql, rm_sql, query_sql, answer, session_of, add_done, add_callback, dir_add, rm_done,
  rm_callback, dir_rm, query_done, query_callback, dir_query,
}

module _ {R Q G : Type 0} (l : Library R Q G) where
  -- The handlers ask Redis for the fields of the uuid, and it answers `v`.
  abbrev pub Answers : DirInfo → Serving R Q G DirRet → Reply → R → Type 0
  Answers request w v r = l.command w.redis (bytes_of "hgetall" ∷ request.uuid ∷ []) ≡ (v, r)

  -- For a session with its fields in the order in which it was made, each of the three handlers asks
  -- MySQL for the rows of a user whose number is the user's name: the number of the user is not used.
  session-username :
      (request : DirInfo) (w : Serving R Q G DirRet) (r : R) (uuid username : Text) (userid : ℕ)
      → Answers request w (array (drop 2 (session_request uuid userid username))) r
      → let dirid = bits (2 ^ 64) request.dirid in
        let w1 = record w { redis = r } in
        (dir_add l request w
          ≡ (mysql_task l (add_sql username request.name dirid) >>= add_done l request.name) w1)
        × (dir_rm l request w ≡ (mysql_task l (rm_sql username dirid) >>= rm_done l) w1)
        × (dir_query l request w ≡ (mysql_task l (query_sql username dirid) >>= query_done l) w1)
  unfolding dir_add add_callback session_of dir_rm rm_callback dir_query query_callback
      session_request
  session-username request w r uuid username userid e = (rw e, rw e, rw e)

  -- A uuid that is no session has no fields, and all three handlers read behind the end of the empty
  -- answer. If Redis answers with something that is not an array, as when it cannot be reached, they end
  -- well and leave the response as it was: its code is still the 0 of success.
  no_session-Answers :
      (request : DirInfo) (w : Serving R Q G DirRet) (r : R)
      → (Answers request w (array []) r
          → ((dir_add l request w).0 ≡ fault no_element)
            × ((dir_rm l request w).0 ≡ fault no_element)
            × ((dir_query l request w).0 ≡ fault no_element))
        × (Answers request w other r
            → (dir_add l request w ≡ (ok tt, record w { redis = r }))
              × (dir_rm l request w ≡ (ok tt, record w { redis = r }))
              × (dir_query l request w ≡ (ok tt, record w { redis = r })))
  unfolding dir_add add_callback session_of dir_rm rm_callback dir_query query_callback
  no_session-Answers request w r = (λ e. (rw e, rw e, rw e), λ e. (rw e, rw e, rw e))

  -- A query with a result set has the status MYSQL_STATUS_GET_RESULT, and `DirQuery` takes only
  -- MYSQL_STATUS_OK for success: it reports an error whatever the rows are.
  dir_query-select :
      (request : DirInfo) (w : Serving R Q G DirRet) (r : R) (username userid : Text)
      (more : List Text)
      → ((q : Q) (uid : Text) (dirid : ℕ) → (l.query q (query_sql uid dirid)).0.status ≡ get_result)
      → Answers request w (array (username ∷ userid ∷ more)) r
      → ((dir_query l request w).0 ≡ ok tt) × ((dir_query l request w).1.response.code ≡ negsuc 0)
  unfolding dir_query query_callback session_of query_done answer
  dir_query-select request w r username userid more select e =
      rw (e, select w.mysql userid (bits (2 ^ 64) request.dirid)) (refl, refl)
