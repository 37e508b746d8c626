-- ===== src/Auth/Accounts.antt =====
-- What a registration and a login of src/auth.cpp that succeed have checked, and what they store.
use lectern_server.Prelude.{
  ℕ, ◌≡◌, refl, sym, ap, ◌∙◌, Bool, true, false, not, Bool-cases, inl, inr, Option, none, some, [],
  ◌∷◌, ◌++◌, Str, bytes, str_eq, str_eq_refl, any, find_if, find_if_added, any-find_if, leb, length,
  ◌||◌,
}
use lectern_server.Error.{Result, ok, err, too_many_requests, unauthorized, bad_request}
use lectern_server.Util.{trim, to_lower}
use lectern_server.Json.{Fields}
use lectern_server.Limiter.{is_limited, record_hit}
use lectern_server.Database.{
  Database, User, SessionRow, user_by_email, user_conflict, is_user, insert_user, insert_session,
}
use lectern_server.World.{
  Env, now_s, World, M, Request, Response, Cookie, after, ◌>>=◌, ◌>>◌, is_limited_now, record_now,
  client_ip, json_body, json_string,
}
use lectern_server.World.Laws.{
  >>=-eq-ok, require_then, lift_then, found_then, query_then, execute_then,
}
use lectern_server.Session
use lectern_server.Auth.{
  register, login, login_as, is_valid_email, is_taken, make_workspace, register_limit,
  register_window, login_fail_limit, login_fail_window, fresh_uuid,
}

module _ {B : Type 0} {b : B} {w' : World} where
  limited_then :
      (env : Env) (ip kind : Str) (max window : ℕ) (k : Bool → M B) (w : World)
      → (is_limited_now env ip kind max window >>= k) w ≡ (ok b, w')
      → k (is_limited w.limiter ip kind max window env.clock) w ≡ (ok b, w')
  unfolding after
  limited_then env ip kind max window k w h = h

unlimited : (b : Bool) → not b ≡ true → b ≡ false
unlimited true h = cc
unlimited false h = refl

verified_user :
    (env : Env) (ip : Str) (o : Option User) (password : Str) (w : World) {r : Response}
    {w' : World}
    → login_as env ip password o w ≡ (ok r, w')
    → (u : User) × (o ≡ some u) × (env.verify_password password u.password_hash ≡ true)
unfolding login_as after
verified_user env ip none password w h = cc
verified_user env ip (some u) password w {r = r} h =
    elim (Bool-cases (env.verify_password password u.password_hash)) [
      | inl good ↦ (u, refl, good)
      | inr wrong ↦ absurd (off (ap (λ x. x.0) (rw wrong at h)))
    ]
  where
    off : ◌≡◌ {A = Result Response} (err unauthorized) (ok r) → ⊥
    off k = cc

-- A login that succeeds came from an address under the limit of failed logins, and its password
-- verifies against the hash of the account that has the e-mail address given, trimmed and in lower
-- case.
pub login-IsVerified :
    (env : Env) (req : Request) (w : World) {r : Response} {w' : World}
    → login env req w ≡ (ok r, w')
    → (body : Fields) × (email : Str) × (password : Str) × (u : User) × (json_body env req
        ≡ ok body)
      × (json_string body "email" ≡ ok email)
      × (json_string body "password" ≡ ok password)
      × (user_by_email w.db (to_lower (trim email)) ≡ some u)
      × (env.verify_password password u.password_hash ≡ true)
      × (is_limited w.limiter
            (client_ip env req)
            (bytes "login-fail")
            login_fail_limit
            login_fail_window
            env.clock
          ≡ false)
unfolding login
login-IsVerified env req w e =
    let (free, e₁) = require_then _ too_many_requests _ w (limited_then env _ _ _ _ _ w e) in
    let (body, parsed, e₂) = lift_then (json_body env req) _ w e₁ in
    let (email, given, e₃) = lift_then (json_string body "email") _ w e₂ in
    let (password, typed, e₄) = lift_then (json_string body "password") _ w e₃ in
    let (u, known, verified) =
      verified_user env (client_ip env req) (user_by_email w.db (to_lower (trim email))) password w
        (query_then (λ db. user_by_email db (to_lower (trim email)))
          (login_as env (client_ip env req) password) w e₄) in
    (body, email, password, u, parsed, given, typed, known, verified, unlimited _ free)

module _ {B : Type 0} {b : B} {w' : World} where
  recorded_then :
      (env : Env) (ip kind : Str) (window : ℕ) (k : M B) (w : World)
      → (record_now env ip kind window >> k) w ≡ (ok b, w')
      → k (record w { limiter = record_hit w.limiter ip kind window env.clock }) ≡ (ok b, w')
  unfolding after
  recorded_then env ip kind window k w h = h

  made_then :
      (id : Str) (k : M B) (w : World)
      → (make_workspace id >> k) w ≡ (ok b, w')
      → (v : World) × (v.db ≡ w.db) × (k v ≡ (ok b, w'))
  unfolding make_workspace after
  made_then id k w h = (_, refl, h)

untaken : (o : Option User) → not (is_taken o) ≡ true → o ≡ none
untaken none h = refl
untaken (some u) h = cc

-- A user that was inserted under a free address is found by it.
inserted_user :
    (new : User) (db : Database) {db' : Database}
    → user_by_email db new.email ≡ none
    → insert_user new db ≡ some db'
    → user_by_email db' new.email ≡ some new
unfolding insert_user
inserted_user new db {db' = db'} free e = elim (Bool-cases (any (user_conflict new) db.users)) [
  | inl clash ↦ absurd (off (rw clash at e))
  | inr clear ↦
      let made : ◌≡◌ {A = Option Database} (some (record db { users = db.users ++ new ∷ [] }))
          (some db') =
        rw clear at e in
      let same : record db { users = db.users ++ new ∷ [] } ≡ db' = cc in
      ap (λ d. user_by_email d new.email) (sym same)
      ∙ find_if_added (λ u. str_eq u.email new.email) db.users new
          (any-find_if (λ u. str_eq u.email new.email) db.users free) (str_eq_refl new.email)
]
  where
    off : ◌≡◌ {A = Option Database} none (some db') → ⊥
    off k = cc

insert_session-users :
    (new : SessionRow) (db : Database) {db' : Database}
    → insert_session new db ≡ some db'
    → db'.users ≡ db.users
unfolding insert_session
insert_session-users new db {db' = db'} e =
    elim (Bool-cases (any (λ s. str_eq s.id new.id) db.sessions || not (is_user db new.user_id))) [
      | inl refused ↦ absurd (off (rw refused at e))
      | inr clear ↦
          let made : ◌≡◌ {A = Option Database}
              (some (record db { sessions = db.sessions ++ new ∷ [] })) (some db') =
            rw clear at e in
          let same : record db { sessions = db.sessions ++ new ∷ [] } ≡ db' = cc in
          ap (λ d. d.users) (sym same)
    ]
  where
    off : ◌≡◌ {A = Option Database} none (some db') → ⊥
    off k = cc

start-users :
    (env : Env) (n : ℕ) (u : Str) (w : World) {c : Cookie} {w' : World}
    → Session.start env n u w ≡ (ok c, w')
    → w'.db.users ≡ w.db.users
unfolding Session.start after
start-users env n u w e =
    let (db', ins, e₁) = execute_then _ _ w e in
    ap (λ x. x.1.db.users) (sym e₁) ∙ insert_session-users _ w.db ins

-- A registration that succeeds came from an address under the limit, with a valid e-mail address
-- that nobody had, trimmed and in lower case, and a password of eight bytes or more; afterwards the
-- address finds an account with that password's hash and a fresh id and token.
pub register-Stores :
    (env : Env) (req : Request) (w : World) {r : Response} {w' : World}
    → register env req w ≡ (ok r, w')
    → (body : Fields) × (email : Str) × (password : Str) × (u : User) × (json_body env req
        ≡ ok body)
      × (json_string body "email" ≡ ok email)
      × (json_string body "password" ≡ ok password)
      × (is_valid_email (to_lower (trim email)) ≡ true)
      × (leb 8 (length password) ≡ true)
      × (user_by_email w.db (to_lower (trim email)) ≡ none)
      × (user_by_email w'.db (to_lower (trim email)) ≡ some u)
      × (env.hash_password password ≡ some u.password_hash)
      × (is_limited w.limiter
            (client_ip env req)
            (bytes "register")
            register_limit
            register_window
            env.clock
          ≡ false)
      × (u.id ≡ fresh_uuid env 0)
      × (u.api_token ≡ fresh_uuid env 1)
unfolding register
register-Stores env req w {w' = w'} e =
    let (free, e₁) = require_then _ too_many_requests _ w (limited_then env _ _ _ _ _ w e) in
    let e₂ = recorded_then env (client_ip env req) (bytes "register") register_window _ w e₁ in
    let (body, parsed, e₃) = lift_then (json_body env req) _ _ e₂ in
    let (email, given, e₄) = lift_then (json_string body "email") _ _ e₃ in
    let (password, typed, e₅) = lift_then (json_string body "password") _ _ e₄ in
    let (valid, e₆) = require_then _ (bad_request "invalid email") _ _ e₅ in
    let (long, e₇) = require_then _ _ _ _ e₆ in
    let (fresh, e₈) =
      require_then (not (is_taken (user_by_email w.db (to_lower (trim email))))) _ _ _
        (query_then (λ db. user_by_email db (to_lower (trim email))) _ _ e₇) in
    let (hash, hashed, e₉) = found_then (env.hash_password password) _ _ _ e₈ in
    let (db', ins, e₁₀) = execute_then _ _ _ e₉ in
    let (v, kept, e₁₁) =
      made_then (fresh_uuid env 0) _
        (record w {
          db = db';
          limiter =
              record_hit w.limiter (client_ip env req) (bytes "register") register_window env.clock;
        })
        e₁₀ in
    let (c, w₂, started, e₁₂) = >>=-eq-ok (Session.start env 2 (fresh_uuid env 0)) _ v e₁₁ in
    let new : User = record {
      id = fresh_uuid env 0;
      email = to_lower (trim email);
      password_hash = hash;
      created_at = now_s env;
      api_token = fresh_uuid env 1;
    } in
    let nobody = untaken (user_by_email w.db (to_lower (trim email))) fresh in
    let stored : user_by_email w'.db (to_lower (trim email)) ≡ some new =
      ap (λ x. user_by_email x.1.db (to_lower (trim email))) (sym e₁₂)
      ∙ ap (find_if (λ u. str_eq u.email (to_lower (trim email))))
          (start-users env 2 (fresh_uuid env 0) v started)
      ∙ ap (λ d. user_by_email d (to_lower (trim email))) kept
      ∙ inserted_user new w.db nobody ins in
    (
      body,
      email,
      password,
      new,
      parsed,
      given,
      typed,
      valid,
      long,
      nobody,
      stored,
      hashed,
      unlimited _ free,
      refl,
      refl,
    )
