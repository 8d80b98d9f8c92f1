-- ===== src/Web/Users.antt =====
-- httppart/use_rpcserver.cc: the handlers of UserSignUpService and UserSignInService, and the class
-- `Utility` of httppart/Utilty.cc.
pub mod Password
pub mod Opening
pub mod Salt
use mathlib.Core.Option
use filedisk_server.Common.{
  ℕ, zero, suc, ◌+◌, ◌%◌, ◌&&◌, Bool, true, false, Option, none, some, List, [], ◌∷◌, ◌++◌, length,
  get_elem?, take, ltb, ◌==◌, if◌then◌else◌,
}
use filedisk_server.Common.Int.{ℤ, pos, negsuc}
use filedisk_server.Common.Text.{bytes_of, to_string}
use filedisk_server.Common.Runs.{Text, no_element, M, pure, ◌>>=◌, ◌>>◌, or_fault}
use filedisk_server.Web.Message.{UserSign, UserRet}
use filedisk_server.Web.Library.{
  Cell, Status, status_ok, get_result, failed, Cursor, Library, Serving, mysql_task, start_task,
  respond, random, is_ok,
}

-- The request of `redis_session_task`.
unfoldable pub session_request : Text → ℕ → Text → List Text
session_request uuid userid username =
    bytes_of "hmset"
    ∷ uuid
    ∷ bytes_of "username"
    ∷ username
    ∷ bytes_of "userid"
    ∷ to_string userid
    ∷ []

-- A string literal ends in a 0, which `sizeof` counts.
abbrev pub charset : Text
charset = bytes_of "ashdfdfisdlfdmfdk112fvn2vjdsdsjdjvjdaodsaowofdfdspq1232" ++ (0 ∷ [])

-- `charset[n]`, for the indices that the code uses.
pub char_at : Text → ℕ → ℕ
char_at [] n = 0
char_at (c ∷ cs) zero = c
char_at (c ∷ cs) (suc n) = char_at cs n

pub sign_up_sql : Text → Text → Text → Text
sign_up_sql username salt encpwd =
    bytes_of "insert into user(username,salt,encpwd) values ('"
    ++ (username ++ (bytes_of "','" ++ (salt ++ (bytes_of "','" ++ (encpwd ++ bytes_of "');")))))

pub sign_in_sql : Text → Text
sign_in_sql username = bytes_of "select * from user where username='" ++ (username ++ bytes_of "';")

-- `s[i]` on a `std::string`: at its size there is a 0, and behind it nothing.
pub string_at : Text → ℕ → Option ℕ
string_at [] zero = some 0
string_at [] (suc i) = none
string_at (c ∷ cs) zero = some c
string_at (c ∷ cs) (suc i) = string_at cs i

-- The loop over `i`, with `todo` rounds to go.
pub same_bytes : ℕ → ℕ → Text → Text → Bool → Option Bool
unfolding string_at
same_bytes zero i xs ys flag = some flag
same_bytes (suc todo) i xs ys flag =
    Option.bind (string_at xs i)
      (λ x. Option.bind (string_at ys i) (λ y. same_bytes todo (suc i) xs ys (x == y && flag)))

module _ {R Q G : Type 0} (l : Library R Q G) where
  abbrev pub U : Type 0 → Type 0
  U A = M (Serving R Q G UserRet) A

  -- The loop of `gen_salt`, with `todo` bytes to go.
  pub salt_loop : ℕ → G → Text × G
  unfolding char_at
  salt_loop zero g = ([], g)
  salt_loop (suc todo) g =
      let (n, g1) = l.rand g in
      let (salt, g2) = salt_loop todo g1 in (char_at charset (n % length charset) ∷ salt, g2)

  pub gen_salt : G → Text × G
  unfolding salt_loop
  gen_salt g = salt_loop 16 (l.seed g)

  pub failed_with : Text → U (Unit {0})
  failed_with msg = respond (λ ret. record ret { code = negsuc 0; msg = msg })

  -- A session for the user: its request is started, and the response names it.
  pub open_session : ℕ → Text → U (Unit {0})
  unfolding session_request
  open_session userid username = do
    uuid ← random l.uuid
    start_task (session_request uuid userid username)
    respond (λ ret. record ret { code = pos 0; msg = bytes_of "ok!"; uuid = uuid })

  -- `string username=username;` initialises the new variable with itself: `garbage` is what it holds.
  pub sign_up_done : Text → Cursor → U (Unit {0})
  unfolding open_session failed_with
  sign_up_done garbage cursor =
      if is_ok cursor.status
      then open_session cursor.insert_id garbage
      else failed_with (bytes_of "duplicated username")

  pub sign_up : Text → UserSign → U (Unit {0})
  unfolding gen_salt sign_up_sql sign_up_done
  sign_up garbage request = do
    salt ← random gen_salt
    cursor ←
        mysql_task l
          (sign_up_sql request.username salt (take 16 (l.md5 (request.password ++ salt))))
    sign_up_done garbage cursor

  -- `fetch_row`; without a row the vector stays empty.
  pub first_cells : List (List Cell) → List Cell
  first_cells [] = []
  first_cells (row ∷ rows) = row

  pub check_password : Text → List Cell → U (Unit {0})
  unfolding same_bytes open_session failed_with
  check_password password row_arr = do
    userid ← or_fault no_element (get_elem? row_arr 0)
    username ← or_fault no_element (get_elem? row_arr 1)
    salt ← or_fault no_element (get_elem? row_arr 2)
    encpwd ← or_fault no_element (get_elem? row_arr 3)
    flag ←
        or_fault no_element
          (same_bytes 16 0 (take 16 (l.md5 (password ++ salt.as_string))) encpwd.as_string true)
    if flag
        then open_session userid.as_ulonglong username.as_string
        else failed_with (bytes_of "login error username")

  pub sign_in_done : Text → Cursor → U (Unit {0})
  unfolding first_cells check_password failed_with
  sign_in_done password cursor =
      if is_ok cursor.status && ltb 0 cursor.affected_rows
      then check_password password (first_cells cursor.rows)
      else failed_with (bytes_of "login error username")

  pub sign_in : UserSign → U (Unit {0})
  unfolding sign_in_sql sign_in_done
  sign_in request = do
    cursor ← mysql_task l (sign_in_sql request.username)
    sign_in_done request.password cursor
