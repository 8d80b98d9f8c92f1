-- ===== src/Web/Users/Opening.antt =====
-- When the user services open a session, and how the file server finds it.
use filedisk_server.Common.{◌≡◌, refl, ◌⊎◌, inl, inr, true, false, Bool-cases, [], ◌∷◌, ◌++◌, take}
use filedisk_server.Common.Int.{pos, negsuc}
use filedisk_server.Common.Text.{bytes_of}
use filedisk_server.Common.Runs.{Text, ok}
use filedisk_server.Web.Message.{UserSign, UserRet}
use filedisk_server.Web.Library.{Cursor, Library, Serving, is_ok}
use filedisk_server.Web.Users.{
  session_request, gen_salt, sign_up_sql, open_session, failed_with, sign_up_done, sign_up,
}

module _ {R Q G : Type 0} (l : Library R Q G) where
  -- If MySQL has taken the row, a session for the user `userid` is opened: its request is waiting,
  -- its uuid is in the response, and the code is 0. If not, none is, and the code is -1.
  abbrev pub Opens : Cursor → Serving R Q G UserRet → Serving R Q G UserRet → Type 0
  Opens cursor w w' =
      ((is_ok cursor.status ≡ true)
        × (w'.response.code ≡ pos 0)
        × ((username : Text) × (w'.started
              ≡ w.started ++ (session_request w'.response.uuid cursor.insert_id username ∷ []))))
      ⊎ ((is_ok cursor.status ≡ false)
          × (w'.response.code ≡ negsuc 0)
          × (w'.started ≡ w.started)
          × (w'.response.uuid ≡ w.response.uuid))

  -- What MySQL answers to the insertion of `SignUp`.
  abbrev pub inserted : UserSign → Serving R Q G UserRet → Cursor
  inserted request w =
      let (salt, g) = gen_salt l w.entropy in
      (l.query w.mysql
        (sign_up_sql request.username salt (take 16 (l.md5 (request.password ++ salt))))).0

  -- `SignUp` ends well on every answer of MySQL. If MySQL has taken the row, it opens a session for
  -- the id of the new row, with code 0; if not, it opens none, with code -1. In both cases Redis is as
  -- it was when the response is sent: the session is not there yet.
  pub sign_up-Opens :
      (garbage : Text) (request : UserSign) (w : Serving R Q G UserRet)
      → ((sign_up l garbage request w).0 ≡ ok tt)
        × ((sign_up l garbage request w).1.redis ≡ w.redis)
        × Opens (inserted request w) w (sign_up l garbage request w).1
  unfolding sign_up sign_up_done open_session failed_with
  sign_up-Opens garbage request w = elim (Bool-cases (is_ok (inserted request w).status)) [
    | inl good ↦ rw good (refl, refl, inl (refl, refl, (garbage, refl)))
    | inr bad ↦ rw bad (refl, refl, inr (refl, refl, refl, refl))
  ]

  -- How `SignUp` ends when MySQL takes the row.
  pub sign_up-session :
      (garbage : Text) (request : UserSign) (w : Serving R Q G UserRet)
      → is_ok (inserted request w).status ≡ true
      → (w' : Serving R Q G UserRet) × (uuid : Text) × (sign_up l garbage request w ≡ (ok tt, w'))
        × (w'.response ≡ record { code = pos 0; msg = bytes_of "ok!"; uuid = uuid })
        × (w'.started
            ≡ w.started ++ (session_request uuid (inserted request w).insert_id garbage ∷ []))
  unfolding sign_up sign_up_done open_session
  sign_up-session garbage request w good = rw good (_, _, refl, refl, refl)
