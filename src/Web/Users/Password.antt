-- ===== src/Web/Users/Password.antt =====
-- Which passwords `SignIn` accepts.
use mathlib.Core.Option
use filedisk_server.Common.{
  ℕ, zero, suc, ◌≡◌, refl, ap, ◌∙◌, ◌↔◌, ◌⊎◌, Bool, true, false, ◌&&◌, some, List, [], ◌∷◌, ◌++◌,
  length, drop, take, arith, eq_bytes, eq_bytes→eq, eq_bytes_refl, Bool-cases, inl, inr, ltb, ◌==◌,
}
use filedisk_server.Common.Int.{pos, negsuc}
use filedisk_server.Common.Text.{bytes_of}
use filedisk_server.Common.Runs.{Text, ok}
use filedisk_server.Web.Message.{UserSign, UserRet}
use filedisk_server.Web.Library.{Cell, Status, is_ok, get_result, Library, Serving}
use filedisk_server.Web.Users.{
  string_at, same_bytes, sign_in_sql, open_session, failed_with, first_cells, check_password,
  sign_in_done, sign_in,
}

string_at-drop :
    (xs : Text) (i x : ℕ) (rest : Text)
    → drop i xs ≡ x ∷ rest
    → (string_at xs i ≡ some x) × (drop (suc i) xs ≡ rest)
unfolding string_at
string_at-drop [] zero x rest e = ground arith
string_at-drop [] (suc i) x rest e = ground arith
string_at-drop (c ∷ cs) zero x rest e = ground arith
string_at-drop (c ∷ cs) (suc i) x rest e = string_at-drop cs i x rest e

-- On bytes that are there the loop compares what follows the index.
same_bytes-drop :
    (todo i : ℕ) (xs ys us vs : Text) (flag : Bool)
    → drop i xs ≡ us
    → drop i ys ≡ vs
    → length us ≡ todo
    → length vs ≡ todo
    → same_bytes todo i xs ys flag ≡ some (eq_bytes us vs && flag)
unfolding same_bytes Option.bind
same_bytes-drop zero i xs ys [] [] flag ea eb la lb = refl
same_bytes-drop (suc todo) i xs ys (a ∷ us) (b ∷ vs) flag ea eb la lb =
    let (xa, da) = string_at-drop xs i a us ea in
    let (yb, db) = string_at-drop ys i b vs eb in
    rw (xa, yb)
      (same_bytes-drop todo (suc i) xs ys us vs (a == b && flag) da db (omega arith) (omega arith)
        ∙ ground arith)
same_bytes-drop zero i xs ys (a ∷ us) vs flag ea eb la lb = absurd (omega arith)
same_bytes-drop zero i xs ys [] (b ∷ vs) flag ea eb la lb = absurd (omega arith)
same_bytes-drop (suc todo) i xs ys [] vs flag ea eb la lb = absurd (omega arith)
same_bytes-drop (suc todo) i xs ys (a ∷ us) [] flag ea eb la lb = absurd (omega arith)

take_whole : (n : ℕ) (xs : Text) → length xs ≡ n → take n xs ≡ xs
take_whole zero [] h = refl
take_whole zero (x ∷ xs) h = absurd (omega arith)
take_whole (suc n) [] h = refl
take_whole (suc n) (x ∷ xs) h = ap (λ r. x ∷ r) (take_whole n xs (omega arith))

module _ {R Q G : Type 0} (l : Library R Q G) where
  check_password-eq_bytes :
      (password : Text) (id name salt encpwd : Cell) (w : Serving R Q G UserRet)
      → length (l.md5 (password ++ salt.as_string)) ≡ 16
      → length encpwd.as_string ≡ 16
      → let out = check_password l password (id ∷ name ∷ salt ∷ encpwd ∷ []) w in
        let same = eq_bytes (l.md5 (password ++ salt.as_string)) encpwd.as_string in
        (out.0 ≡ ok tt)
        × (same ≡ true → out.1.response.code ≡ pos 0)
        × (same ≡ false → out.1.response.code ≡ negsuc 0)
  unfolding check_password open_session failed_with
  check_password-eq_bytes password id name salt encpwd w sized long =
      let digest : Text = l.md5 (password ++ salt.as_string) in
      let loop =
        same_bytes-drop 16 0 (take 16 digest) encpwd.as_string (take 16 digest) encpwd.as_string
          true refl refl (ap length (take_whole 16 digest sized) ∙ sized) long in
      let whole : eq_bytes (take 16 digest) encpwd.as_string ≡ eq_bytes digest encpwd.as_string =
        ap (λ d. eq_bytes d encpwd.as_string) (take_whole 16 digest sized) in
      rw loop (ground (arith, whole))

  -- The query finds a row of a user, whose stored digest has 16 bytes; `status` is the status of the
  -- answer.
  abbrev pub Finds :
      UserSign → Serving R Q G UserRet → Status → Q → (id name salt encpwd : Cell) → Type 0
  Finds request w status q id name salt encpwd =
      (rows : List (List Cell)) × (affected : ℕ) × (l.query w.mysql (sign_in_sql request.username)
        ≡ (
          record {
            status = status;
            insert_id = 0;
            affected_rows = suc affected;
            rows = (id ∷ name ∷ salt ∷ encpwd ∷ []) ∷ rows;
          },
          q,
        ))
      × (length encpwd.as_string ≡ 16)

  -- With a row of the user and digests of 16 bytes, `SignIn` ends well, and its code is 0 exactly when
  -- the status of the answer is MYSQL_STATUS_OK and the digest of the given password and the stored
  -- salt is the stored digest; otherwise its code is -1. So with MYSQL_STATUS_GET_RESULT, the status
  -- of an answer with rows, no password is accepted.
  pub sign_in-password :
      ((msg : Text) → length (l.md5 msg) ≡ 16)
      → (request : UserSign) → (w : Serving R Q G UserRet) → (status : Status) → (q : Q)
      → (id name salt encpwd : Cell) → Finds request w status q id name salt encpwd
      → ((sign_in l request w).0 ≡ ok tt)
        × (((sign_in l request w).1.response.code ≡ pos 0) ↔ (
            (is_ok status ≡ true)
            × (l.md5 (request.password ++ salt.as_string) ≡ encpwd.as_string)))
        × (((sign_in l request w).1.response.code ≡ pos 0)
            ⊎ ((sign_in l request w).1.response.code ≡ negsuc 0))
  unfolding sign_in sign_in_done first_cells failed_with
  sign_in-password sized request w status q id name salt encpwd (rows, affected, e, long) =
      let digest : Text = l.md5 (request.password ++ salt.as_string) in
      let (ended, hit, miss) =
        check_password-eq_bytes request.password id name salt encpwd (record w { mysql = q })
          (sized (request.password ++ salt.as_string)) long in
      let some_row : ltb 0 (suc affected) ≡ true = ground arith in
      elim (Bool-cases (is_ok status)) [
        | inl good ↦
            rw (e, some_row, good)
              (elim (Bool-cases (eq_bytes digest encpwd.as_string)) [
                | inl agree ↦ (
                  ended,
                  (λ z. (refl, eq_bytes→eq digest encpwd.as_string agree), λ z. hit agree),
                  inl (hit agree),
                )
                | inr differ ↦ (
                  ended,
                  (λ z. ground (arith, miss differ), λ z. ground (arith, eq_bytes_refl digest)),
                  inr (miss differ),
                )
              ])
        | inr bad ↦ rw (e, bad) (refl, (λ z. ground arith, λ z. ground arith), inr refl)
      ]

  -- A query with a result set has the status MYSQL_STATUS_GET_RESULT, and `SignIn` takes only
  -- MYSQL_STATUS_OK for success: it refuses every user, whatever the password.
  pub sign_in-select :
      ((q : Q) (username : Text) → (l.query q (sign_in_sql username)).0.status ≡ get_result)
      → (request : UserSign) (w : Serving R Q G UserRet)
      → sign_in l request w ≡ (
        ok tt,
        record w {
          mysql = (l.query w.mysql (sign_in_sql request.username)).1;
          response = record w.response { code = negsuc 0; msg = bytes_of "login error username" };
        },
      )
  unfolding sign_in sign_in_done failed_with
  sign_in-select select request w = rw (select w.mysql request.username) refl
