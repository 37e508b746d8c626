-- ===== src/Session.antt =====
-- src/session.cpp: cookie sessions with a sliding expiry.
pub mod Cookies
mod Tests
use lectern_server.Prelude.{
  ℕ, ◌+◌, ◌*◌, Bool, true, false, not, ◌||◌, Option, none, some, List, [], ◌∷◌, ◌++◌, leb,
  if◌then◌else◌, Str, str_eq, find, is_empty, take, drop,
}
use lectern_server.Error.{Result, ok, err}
use lectern_server.Database.{
  Database, SessionRow, session_by_id, insert_session, delete_session, touch_session,
  delete_expired_sessions,
}
use lectern_server.World.{
  Env, now_s, World, M, pure, after, ◌>>=◌, ◌>>◌, execute, execute_total, query, Request, Cookie,
  to_hex, random_hex,
}

-- `cInactivityDays` is 30.
abbrev pub inactivity_seconds : ℕ
inactivity_seconds = 30 * 24 * 60 * 60

-- `fSign`: HMAC-SHA256 under the hash of the secret, hex-encoded.
unfoldable pub sign : Env → Str → Str
unfolding to_hex
sign env session_id = to_hex (env.hmac_sha256 (env.sha256 env.session_secret) session_id)

-- Without a secret, a signature that the cookie still carries is ignored.
abbrev unsigned_id : Str → Option ℕ → Option Str
unsigned_id raw none = some raw
unsigned_id raw (some dot) = some (take dot raw)

abbrev signed_id : Env → Str → Option ℕ → Option Str
unfolding str_eq sign
signed_id env raw none = none
signed_id env raw (some dot) =
    let id = take dot raw in
    if is_empty id || not (str_eq (drop (dot + 1) raw) (sign env id)) then none else some id

-- `fIdFromCookie` on the cookie's value.
unfoldable pub id_from_cookie : Env → Str → Option Str
unfolding str_eq sign find
id_from_cookie env raw =
    if is_empty raw
    then none
    else if is_empty env.session_secret
    then unsigned_id raw (find b'.' raw)
    else signed_id env raw (find b'.' raw)

unfoldable pub make_cookie : Env → Str → ℕ → Cookie
make_cookie env value max_age_seconds = record {
  value = value;
  max_age = max_age_seconds;
  secure = env.cookie_secure;
  http_only = true;
  same_site_strict = true;
}

abbrev pub slide : Env → Str → SessionRow → M (Option Str)
slide env id row =
    if leb row.expires_at (now_s env)
    then execute_total (delete_session id) >> pure none
    else execute_total (touch_session (now_s env + inactivity_seconds) id)
      >> pure (some row.user_id)

abbrev pub of_row : Env → Str → Option SessionRow → M (Option Str)
of_row env id none = pure none
of_row env id (some row) = slide env id row

abbrev pub of_id : Env → Option Str → M (Option Str)
of_id env none = pure none
of_id env (some id) = do row ← query (λ db. session_by_id db id); of_row env id row

unfoldable pub current_user_id : Env → Request → M (Option Str)
unfolding id_from_cookie delete_session touch_session str_eq
current_user_id env req = of_id env (id_from_cookie env (req.cookie "lectern_session"))

abbrev pub cookie_value : Env → Str → Str
unfolding sign
cookie_value env id = if is_empty env.session_secret then id else id ++ b'.' ∷ sign env id

-- `n` counts the random draws of the request so far.
unfoldable pub start : Env → (n : ℕ) → Str → M Cookie
unfolding random_hex insert_session make_cookie sign str_eq
start env n user_id = do
  let id = random_hex env n 32
  execute (
      insert_session
        (record { id = id; user_id = user_id; expires_at = now_s env + inactivity_seconds }))
  pure (make_cookie env (cookie_value env id) inactivity_seconds)

abbrev pub forget : Option Str → M (Unit {0})
forget none = pure tt
forget (some id) = execute_total (delete_session id)

unfoldable pub destroy : Env → Request → M Cookie
unfolding id_from_cookie delete_session make_cookie str_eq
destroy env req = do
  forget (id_from_cookie env (req.cookie "lectern_session"))
  pure (make_cookie env [] 0)

unfoldable pub purge_expired : Env → M (Unit {0})
unfolding delete_expired_sessions
purge_expired env = execute_total (delete_expired_sessions (now_s env))
