-- ===== src/Auth.antt =====
-- src/auth.cpp: accounts, the identity of a request, and the four handlers below /api/auth.
pub mod Frame
pub mod Accounts
pub mod Returning
mod Tests
use lectern_server.Prelude.{
  ℕ, ◌+◌, ◌*◌, String, Bool, true, false, not, ◌&&◌, ◌||◌, Option, none, some, List, [], ◌∷◌, ◌++◌,
  ltb, leb, ◌==◌, if◌then◌else◌, Str, bytes, str_eq, find, is_empty, take, drop, length, any,
}
use lectern_server.Error.{
  AppError, Result, ok, err, bad_request, unauthorized, conflict, too_many_requests, exception,
}
use lectern_server.Util.{is_space, trim, to_lower, starts_with}
use lectern_server.Limiter.{seconds}
use lectern_server.Json.{Json, text, object, field, end}
use lectern_server.Files.{create_directories, or_same}
use lectern_server.Database.{
  Database, User, user_by_id, user_by_email, user_by_token, insert_user, set_api_token,
}
use lectern_server.Session
use lectern_server.World.{
  Env, now_s, World, M, pure, throw, after, ◌>>=◌, ◌>>◌, lift, require, found, query, execute,
  Request, Response, json_response, ok_response, add_cookie, json_body, json_string, client_ip,
  is_limited_now, record_now, uuid_v4,
}

abbrev pub login_fail_limit : ℕ
login_fail_limit = 10

abbrev pub login_fail_window : ℕ
login_fail_window = seconds (15 * 60)

abbrev pub register_limit : ℕ
register_limit = 20

abbrev pub register_window : ℕ
register_window = seconds (60 * 60)

-- The `n`-th random draw of the request as a UUID.
abbrev pub fresh_uuid : Env → ℕ → Str
unfolding uuid_v4
fresh_uuid env n = uuid_v4 (env.random n 16)

-- Whitespace, or one of < > " ' ` \ and NUL.
abbrev is_unsafe : ℕ → Bool
unfolding is_space
is_unsafe c =
    is_space c
    || (c == b'<' || (c == b'>' || (c == 34 || (c == 39 || (c == b'`' || (c == 92 || c == 0))))))

abbrev last_is_dot : Str → Bool
last_is_dot [] = false
last_is_dot (c ∷ []) = c == b'.'
last_is_dot (c ∷ d ∷ rest) = last_is_dot (d ∷ rest)

abbrev first_is_dot : Str → Bool
first_is_dot [] = false
first_is_dot (c ∷ rest) = c == b'.'

abbrev is_some : Option ℕ → Bool
is_some none = false
is_some (some n) = true

abbrev has_domain : Str → Option ℕ → Bool
unfolding find
has_domain email none = false
has_domain email (some at) =
    let domain = drop (at + 1) email in
    not (is_some (find b'@' domain))
    && (not (is_empty (take at email))
        && (is_some (find b'.' domain) && (not (first_is_dot domain) && not (last_is_dot domain))))

-- `fIsValidEmail`.
unfoldable pub is_valid_email : Str → Bool
unfolding find is_space
is_valid_email email =
    if ltb (length email) 3 || ltb 254 (length email)
    then false
    else if any is_unsafe email
    then false
    else has_domain email (find b'@' email)

unfoldable pub current_user_id : Env → Request → M Str
current_user_id env req = do id ← Session.current_user_id env req; found id unauthorized

abbrev by_token : Str → M Str
unfolding str_eq
by_token token = do
  row ← query (λ db. user_by_token db token)
  user ← found row unauthorized
  pure user.id

-- `fCurrentUserIdWithHeaders`.
unfoldable pub current_user_id_with_headers : Env → Request → M Str
unfolding starts_with current_user_id str_eq
current_user_id_with_headers env req =
    let authorization = req.header "authorization" in
    if starts_with authorization (bytes "Bearer ")
    then by_token (drop 7 authorization)
    else current_user_id env req

abbrev pub caught : Result Str × World → Result (Option Str) × World
caught (ok id, w) = (ok (some id), w)
caught (err exception, w) = (err exception, w)
caught (err e, w) = (ok none, w)

-- `fOptionalUserId`.
unfoldable pub optional_user_id : Env → Request → M (Option Str)
optional_user_id env req w = caught (current_user_id_with_headers env req w)

-- `{{"id", …}, {"email", …}, {"apiToken", …}}`.
abbrev pub account : (id email api_token : Str) → Json
account id email api_token =
    object
      (field "id" (text id) (field "email" (text email) (field "apiToken" (text api_token) end)))

abbrev make_workspace : Str → M (Unit {0})
unfolding create_directories
make_workspace id w =
    (ok tt, record w { files = or_same w.files (create_directories (id ∷ []) w.files) })

abbrev is_taken : Option User → Bool
is_taken none = false
is_taken (some u) = true

-- POST /api/auth/register.
unfoldable pub register : Env → Request → M Response
unfolding make_workspace client_ip json_body json_string trim to_lower is_valid_email insert_user
    uuid_v4 str_eq
register env req = do
  let ip = client_ip env req
  limited ← is_limited_now env ip (bytes "register") register_limit register_window
  require (not limited) too_many_requests
  record_now env ip (bytes "register") register_window
  body ← lift (json_body env req)
  given_email ← lift (json_string body "email")
  password ← lift (json_string body "password")
  let email = to_lower (trim given_email)
  require (is_valid_email email) (bad_request "invalid email")
  require (leb 8 (length password)) (bad_request "password must be at least 8 characters")
  existing ← query (λ db. user_by_email db email)
  require (not (is_taken existing)) (conflict "email already registered")
  let id = fresh_uuid env 0
  password_hash ← found (env.hash_password password) exception
  let api_token = fresh_uuid env 1
  execute (
      insert_user (record {
        id = id;
        email = email;
        password_hash = password_hash;
        created_at = now_s env;
        api_token = api_token;
      }))
  make_workspace id
  cookie ← Session.start env 2 id
  pure (add_cookie (json_response (account id email api_token)) cookie)

abbrev refuse_login : {A : Type 0} → Env → Str → M A
refuse_login env ip = do
  record_now env ip (bytes "login-fail") login_fail_window
  throw unauthorized

-- The account's token; an empty one is replaced.
abbrev token_of : Env → User → M Str
unfolding set_api_token uuid_v4 str_eq
token_of env user =
    if is_empty user.api_token
    then execute (set_api_token (fresh_uuid env 0) user.id) >> pure (fresh_uuid env 0)
    else pure user.api_token

abbrev login_as : Env → Str → Str → Option User → M Response
unfolding set_api_token uuid_v4 str_eq
login_as env ip password none = refuse_login env ip
login_as env ip password (some user) =
    if not (env.verify_password password user.password_hash) then refuse_login env ip else do
      api_token ← token_of env user
      cookie ← Session.start env 1 user.id
      pure (add_cookie (json_response (account user.id user.email api_token)) cookie)

-- POST /api/auth/login. The time that `fDummyVerify` burns is not modelled.
unfoldable pub login : Env → Request → M Response
unfolding client_ip json_body json_string trim to_lower set_api_token uuid_v4 str_eq
login env req = do
  let ip = client_ip env req
  limited ← is_limited_now env ip (bytes "login-fail") login_fail_limit login_fail_window
  require (not limited) too_many_requests
  body ← lift (json_body env req)
  given_email ← lift (json_string body "email")
  password ← lift (json_string body "password")
  row ← query (λ db. user_by_email db (to_lower (trim given_email)))
  login_as env ip password row

-- POST /api/auth/logout.
unfoldable pub logout : Env → Request → M Response
logout env req = do cookie ← Session.destroy env req; pure (add_cookie ok_response cookie)

-- GET /api/auth/me.
unfoldable pub me : Env → Request → M Response
unfolding str_eq
me env req = do
  id ← current_user_id_with_headers env req
  row ← query (λ db. user_by_id db id)
  user ← found row unauthorized
  pure (json_response (object (field "id" (text user.id) (field "email" (text user.email) end))))
