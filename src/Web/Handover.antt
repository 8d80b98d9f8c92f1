-- ===== src/Web/Handover.antt =====
-- A session goes from the user services over Redis and the client to the file server:
-- `Utility::redis_session_task` of httppart/Utilty.cc writes what `UserValidate` and `FileTask::process`
-- of tcppart/FileServer.cc look up.
use filedisk_server.Common.{
  ℕ, ◌^◌, ◌<◌, ◌≡◌, ◌≢◌, refl, ap, ◌∙◌, true, false, some, [], ◌∷◌, ◌++◌, length, length-append,
  All, overlay, overlay-full, replicate, arith,
}
use filedisk_server.Common.Int.{pos}
use filedisk_server.Common.Text.{bytes_of, to_string, c_string}
use filedisk_server.Common.Runs.{Text, ok}
use filedisk_server.Session.Wire.{bool_bytes}
use filedisk_server.Session.Services.{Services, World}
use filedisk_server.Session.Values.{field_of}
use filedisk_server.Session.FileTask.{validate, process}
use filedisk_server.Session.FileTask.Access.{validate-userid, process-stranger}
use filedisk_server.Web.Library.{Library}
use filedisk_server.Web.Users.{session_request}

module _ {C R Q F P G : Type 0} (o : Services C R Q F) (l : Library R P G) where
  -- Redis documents of HMSET and HGETALL that a key without fields has, after its two fields were set,
  -- these two.
  abbrev pub HashLaw : Type 0
  HashLaw =
      (r : R) (key f u g v : Text)
      → f ≢ g
      → o.hgetall r key ≡ some []
      → o.hgetall (l.command r (bytes_of "hmset" ∷ key ∷ f ∷ u ∷ g ∷ v ∷ [])).1 key
        ≡ some ((f, u) ∷ (g, v) ∷ [])

  -- Once the request of `redis_session_task` for a new uuid has reached Redis, `validate` takes the uuid
  -- for a session of the user that it was made for.
  pub session_request-validate :
      HashLaw
      → (uuid username : Text) (userid : ℕ) (w : World C R Q F) → userid < 2 ^ 64
      → o.hgetall w.redis uuid ≡ some []
      → let w1 = record w {
        redis = (l.command w.redis (session_request uuid userid username)).1;
      } in
        validate o uuid w1 ≡ (ok (true, userid), w1)
  unfolding session_request field_of
  session_request-validate law uuid username userid w small new =
      validate-userid o uuid userid (bytes_of "username", username)
        ((bytes_of "userid", to_string userid) ∷ [])
        (record w { redis = (l.command w.redis (session_request uuid userid username)).1 }) small
        (law w.redis uuid (bytes_of "username") username (bytes_of "userid") (to_string userid)
          (ground arith) new)
        refl

c_string-append :
    (s : Text) (n : ℕ) (rest : Text)
    → All (λ b. b ≢ 0) s
    → n ≢ 0
    → c_string (s ++ (n ∷ 0 ∷ rest)) ≡ some (s ++ (n ∷ []))
unfolding c_string
c_string-append [] n rest h k = ground arith
c_string-append (b ∷ s) n rest h k = ground (arith, c_string-append s n rest h.1 k)

module _ {C R Q F : Type 0} (o : Services C R Q F) where
  -- A `datauuid` with a uuid of 36 characters, as `boost::uuids::to_string` makes them, has no room for
  -- its final 0: with a file name of 1 to 255 bytes the length of the name is read as a 37th character.
  -- If that text is no session, the client is refused, whether the uuid is a session or not.
  pub process-uuid_36 :
      (fuel : ℕ) (garbage : ℕ → Text) (md5 padding uuid : Text) (namelen : ℕ) (w : World C R Q F)
      → length uuid ≡ 36
      → All (λ b. b ≢ 0) uuid
      → namelen ≢ 0
      → (o.receive w.conn (pos 40)).0 ≡ uuid ++ (namelen ∷ 0 ∷ 0 ∷ 0 ∷ [])
      → o.hgetall w.redis (uuid ++ (namelen ∷ [])) ≡ some []
      → process o fuel garbage md5 padding w ≡ (
        ok tt,
        record w { conn = o.send (o.receive w.conn (pos 40)).1 (bool_bytes false) (pos 1) },
      )
  process-uuid_36 fuel garbage md5 padding uuid namelen w size is_text some_name sent unknown =
      process-stranger o fuel garbage md5 padding (uuid ++ (namelen ∷ [])) w
        (ap (λ bs. c_string (overlay bs (replicate 40 0))) sent
          ∙ ap c_string (
              overlay-full (uuid ++ (namelen ∷ 0 ∷ 0 ∷ 0 ∷ [])) (replicate 40 0)
                (length-append uuid (namelen ∷ 0 ∷ 0 ∷ 0 ∷ []) ∙ omega (arith, size)))
          ∙ c_string-append uuid namelen (0 ∷ 0 ∷ []) is_text some_name)
        unknown
