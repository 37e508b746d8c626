-- ===== src/Auth/Tests.antt =====
-- Tests of src/auth.cpp on the sample server.
use lectern_server.Prelude.{
  ◌≡◌, refl, true, false, [], Str, bytes, some, none, leb, length, str_eq, str_eq_refl,
}
use lectern_server.Error.{ok}
use lectern_server.Util.{trim, to_lower}
use lectern_server.Json.{Fields, object, field, end, text}
use lectern_server.Limiter.{is_limited, record_hit}
use lectern_server.Database.{User, user_by_email}
use lectern_server.World
use lectern_server.World.{
  Env, World, Request, Cookie, add_cookie, json_response, json_body, json_string, client_ip,
}
use lectern_server.Session
use lectern_server.Auth.{
  register, login, is_valid_email, register_limit, register_window, login_fail_limit,
  login_fail_window, fresh_uuid, account,
}
use lectern_server.Auth.Accounts.{login-IsVerified, register-Stores}
use lectern_server.Auth.Returning.{login-register}
use lectern_server.Sample.{sample_env, sample_world, sample_db, sample_visit}

-- A parser that gives the same body always.
abbrev with_body : Fields → Env
with_body fields = record sample_env { parse_json = λ s. some (object fields) }

abbrev login_env : Env
login_env =
    with_body (field "email" (text (bytes " A@x.y")) (field "password" (text (bytes "p")) end))

login-IsVerified_example :
    (body : Fields) × (email : Str) × (password : Str) × (u : User) × (json_body login_env
        sample_visit
      ≡ ok body)
    × (json_string body "email" ≡ ok email)
    × (json_string body "password" ≡ ok password)
    × (user_by_email sample_db (to_lower (trim email)) ≡ some u)
    × (str_eq password u.password_hash ≡ true)
    × (is_limited []
          (client_ip login_env sample_visit)
          (bytes "login-fail")
          login_fail_limit
          login_fail_window
          7
        ≡ false)
unfolding login World.after World.require is_limited Session.start World.execute
login-IsVerified_example = login-IsVerified login_env sample_visit sample_world refl

abbrev register_env : Env
register_env =
    with_body
      (field "email" (text (bytes "c@x.y")) (field "password" (text (bytes "12345678")) end))

abbrev registered : World
registered = (register register_env sample_visit sample_world).1

register-Stores_example :
    (body : Fields) × (email : Str) × (password : Str) × (u : User) × (json_body register_env
        sample_visit
      ≡ ok body)
    × (json_string body "email" ≡ ok email)
    × (json_string body "password" ≡ ok password)
    × (is_valid_email (to_lower (trim email)) ≡ true)
    × (leb 8 (length password) ≡ true)
    × (user_by_email sample_db (to_lower (trim email)) ≡ none)
    × (user_by_email registered.db (to_lower (trim email)) ≡ some u)
    × (some password ≡ some u.password_hash)
    × (is_limited []
          (client_ip register_env sample_visit)
          (bytes "register")
          register_limit
          register_window
          7
        ≡ false)
    × (u.id ≡ fresh_uuid register_env 0)
    × (u.api_token ≡ fresh_uuid register_env 1)
unfolding register World.after World.require is_limited World.found World.execute Session.start
register-Stores_example = register-Stores register_env sample_visit sample_world refl

same_password : (password phc : Str) → some password ≡ some phc → str_eq password phc ≡ true
same_password password phc e = let same : password ≡ phc = cc in rw same (str_eq_refl phc)

login-register_example :
    (body : Fields) × (email : Str) × (u : User) × (c : Cookie) × (v : World) × (json_body
        register_env sample_visit
      ≡ ok body)
    × (json_string body "email" ≡ ok email)
    × (user_by_email registered.db (to_lower (trim email)) ≡ some u)
    × (u.id ≡ fresh_uuid register_env 0)
    × (u.api_token ≡ fresh_uuid register_env 1)
    × (Session.start register_env 1 u.id registered ≡ (ok c, v))
    × (login register_env sample_visit registered
        ≡ (ok (add_cookie (json_response (account u.id u.email u.api_token)) c), v))
unfolding register World.after World.require is_limited World.found World.execute Session.start
    record_hit
login-register_example =
    login-register register_env register_env sample_visit sample_visit sample_world refl refl
      same_password refl refl
