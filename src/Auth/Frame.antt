-- ===== src/Auth/Frame.antt =====
-- What finding out who a request comes from leaves alone.
use lectern_server.Prelude.{
  ◌≡◌, refl, ap, Bool-cases, inl, inr, leb, Option, none, some, Str, bytes, drop, ◌∙◌,
}
use lectern_server.Error.{unauthorized}
use lectern_server.Database.{
  SessionRow, session_by_id, delete_session, touch_session, user_by_token,
}
use lectern_server.Util.{starts_with}
use lectern_server.Session
use lectern_server.Session.{slide, of_row, of_id, id_from_cookie}
use lectern_server.World.{Env, now_s, World, Request, query, found, pure, after, ◌>>=◌}
use lectern_server.World.Laws.{Leaves, Leaves-bind, Leaves-found}
use lectern_server.Auth.{by_token, current_user_id, current_user_id_with_headers}

-- The second state is the first one, but for the table of the sessions.
abbrev pub OnlySessions : World → World → Type 0
OnlySessions w v = v ≡ record w { db = record w.db { sessions = v.db.sessions } }

OnlySessions-trans : (u v w : World) → OnlySessions u v → OnlySessions v w → OnlySessions u w
OnlySessions-trans u v w h k =
    k ∙ ap (λ (x : World). record x { db = record x.db { sessions = w.db.sessions } }) h

abbrev pub SameFiles : World → World → Type 0
SameFiles w v = v.files ≡ w.files

of_row-OnlySessions :
    (env : Env) (id : Str) (row : Option SessionRow) → Leaves OnlySessions (of_row env id row)
unfolding after delete_session touch_session
of_row-OnlySessions env id none w = refl
of_row-OnlySessions env id (some row) w = elim (Bool-cases (leb row.expires_at (now_s env))) [
  | inl old ↦ rw old refl
  | inr new ↦ rw new refl
]

of_id-OnlySessions : (env : Env) (id : Option Str) → Leaves OnlySessions (of_id env id)
unfolding after
of_id-OnlySessions env none w = refl
of_id-OnlySessions env (some id) w = of_row-OnlySessions env id (session_by_id w.db id) w

current_user_id-OnlySessions :
    (env : Env) (req : Request) → Leaves OnlySessions (current_user_id env req)
unfolding current_user_id Session.current_user_id
current_user_id-OnlySessions env req =
    Leaves-bind OnlySessions (λ w. refl) OnlySessions-trans (Session.current_user_id env req)
      (λ id. found id unauthorized)
      (of_id-OnlySessions env (id_from_cookie env (req.cookie "lectern_session")))
      (λ id. Leaves-found OnlySessions (λ w. refl) OnlySessions-trans id unauthorized)

by_token-OnlySessions : (token : Str) → Leaves OnlySessions (by_token token)
unfolding by_token
by_token-OnlySessions token =
    Leaves-bind OnlySessions (λ w. refl) OnlySessions-trans (query (λ db. user_by_token db token))
      (λ row. found row unauthorized >>= λ user. pure user.id) (λ w. refl)
      (λ row.
        Leaves-bind OnlySessions (λ w. refl) OnlySessions-trans (found row unauthorized)
          (λ user. pure user.id)
          (Leaves-found OnlySessions (λ w. refl) OnlySessions-trans row unauthorized)
          (λ user w. refl))

-- Telling who sent a request changes at most the sessions.
pub current_user_id_with_headers-OnlySessions :
    (env : Env) (req : Request) → Leaves OnlySessions (current_user_id_with_headers env req)
unfolding current_user_id_with_headers
current_user_id_with_headers-OnlySessions env req w =
    elim (Bool-cases (starts_with (req.header "authorization") (bytes "Bearer "))) [
      | inl token ↦ rw token (by_token-OnlySessions (drop 7 (req.header "authorization")) w)
      | inr plain ↦ rw plain (current_user_id-OnlySessions env req w)
    ]

pub current_user_id_with_headers-SameFiles :
    (env : Env) (req : Request) → Leaves SameFiles (current_user_id_with_headers env req)
current_user_id_with_headers-SameFiles env req w =
    ap (λ (x : World). x.files) (current_user_id_with_headers-OnlySessions env req w)
