-- ===== src/Auth/Returning.antt =====
-- A registration of src/auth.cpp and a later login with the same credentials.
use lectern_server.Prelude.{
  ℕ, ◌≡◌, refl, ap, ◌∙◌, true, false, some, List, [], ◌∷◌, ◌++◌, Str, bytes, str_eq, str_eq_refl,
  any, find_if, is_empty, arith,
}
use lectern_server.Error.{ok}
use lectern_server.Util.{trim, to_lower}
use lectern_server.Json.{Fields}
use lectern_server.Limiter.{is_limited}
use lectern_server.Database.{User, SessionRow, user_by_email, is_user, insert_session}
use lectern_server.World.{
  Env, World, Request, Response, Cookie, after, require, execute, client_ip, json_body, json_string,
  json_response, add_cookie, uuid_v4, random_hex,
}
use lectern_server.Session
use lectern_server.Session.{inactivity_seconds}
use lectern_server.Auth.{register, login, login_fail_limit, login_fail_window, fresh_uuid, account}
use lectern_server.Auth.Accounts.{register-Stores}

is_empty-append : (x y : Str) (c : ℕ) → is_empty (x ++ c ∷ y) ≡ false
is_empty-append [] y c = refl
is_empty-append (b ∷ x) y c = refl

is_empty-uuid_v4 : (s : Str) → is_empty (uuid_v4 s) ≡ false
unfolding uuid_v4
is_empty-uuid_v4 s = is_empty-append _ _ b'-'

-- An account that is found by its address is there under its id.
is_user-found :
    (users : List User) (email : Str) (u : User)
    → find_if (λ (x : User). str_eq x.email email) users ≡ some u
    → any (λ (x : User). str_eq x.id u.id) users ≡ true
is_user-found [] email u h = cc
is_user-found (x ∷ xs) email u h = ground (arith, is_user-found xs email u, str_eq_refl u.id)

-- A session starts for a user who is there, if its id is new.
start-made :
    (env : Env) (n : ℕ) (user_id : Str) (w : World)
    → any (λ (s : SessionRow). str_eq s.id (random_hex env n 32)) w.db.sessions ≡ false
    → is_user w.db user_id ≡ true
    → (c : Cookie) × (v : World) × (Session.start env n user_id w ≡ (ok c, v))
unfolding Session.start insert_session after execute
start-made env n user_id w new there = rw (new, there) (_, _, refl)

-- A client registers. Later, while it is under the limit of failed logins and the server draws a session
-- id that is not in use, it posts the same address and password to log in, and libsodium
-- verifies a password against a hash that it made of it. Then the login succeeds: it starts a session
-- of the account that the registration made, with the id and token drawn then, and answers with that
-- account's id, address and token.
pub login-register :
    (env later : Env) (req visit : Request) (w : World) {r : Response} {w' : World}
    → register env req w ≡ (ok r, w')
    → json_body later visit ≡ json_body env req
    → ((password phc : Str)
        → env.hash_password password ≡ some phc
        → later.verify_password password phc ≡ true)
    → is_limited w'.limiter
        (client_ip later visit)
        (bytes "login-fail")
        login_fail_limit
        login_fail_window
        later.clock
      ≡ false
    → any (λ (s : SessionRow). str_eq s.id (random_hex later 1 32)) w'.db.sessions ≡ false
    → (body : Fields) × (email : Str) × (u : User) × (c : Cookie) × (v : World) × (json_body env req
        ≡ ok body)
      × (json_string body "email" ≡ ok email)
      × (user_by_email w'.db (to_lower (trim email)) ≡ some u)
      × (u.id ≡ fresh_uuid env 0)
      × (u.api_token ≡ fresh_uuid env 1)
      × (Session.start later 1 u.id w' ≡ (ok c, v))
      × (login later visit w'
          ≡ (ok (add_cookie (json_response (account u.id u.email u.api_token)) c), v))
unfolding login after require
login-register env later req visit w {w' = w'} e same verifies free new =
    let (
      body, email, password, u, parsed, given, typed, valid, long, nobody, stored, hashed, _, is_id,
      is_token,
    ) =
      register-Stores env req w e in
    let (c, v, started) =
      start-made later 1 u.id w' new (is_user-found w'.db.users (to_lower (trim email)) u stored) in
    let token : is_empty u.api_token ≡ false =
      ap is_empty is_token ∙ is_empty-uuid_v4 (env.random 1 16) in
    let verified = verifies password u.password_hash hashed in
    (
      body,
      email,
      u,
      c,
      v,
      parsed,
      given,
      stored,
      is_id,
      is_token,
      started,
      rw (free, same ∙ parsed, given, typed, stored, verified, token, started) refl,
    )
