-- ===== src/Session/Cookies.antt =====
-- Which cookies src/session.cpp accepts, and what a session is good for.
use lectern_server.Prelude.{
  ℕ, ◌+◌, ◌<◌, ◌≡◌, refl, sym, ap, ◌∙◌, true, false, Bool-cases, inl, inr, ◌⊎◌, Option, none, some,
  Option-cases, [], ◌∷◌, ◌++◌, Str, str_eq, str_eq_iff, str_eq_refl, find, find-append,
  find-eq-some, is_empty, take, drop, take-append, length, leb, arith, any, find_if_added,
  find_if-keep_if,
}
use lectern_server.Error.{Result, ok}
use lectern_server.Database.{
  Database, SessionRow, is_user, session_by_id, insert_session, delete_session,
}
use lectern_server.World.{Env, now_s, World, Request, Cookie, pure, after, to_hex, random_hex}
use lectern_server.World.Laws.{execute_then}
use lectern_server.Session.{
  inactivity_seconds, sign, unsigned_id, signed_id, id_from_cookie, make_cookie, of_row, of_id,
  current_user_id, cookie_value, start, forget, destroy,
}

find_dot-to_hex : (s : Str) → find b'.' (to_hex s) ≡ none
unfolding find to_hex
find_dot-to_hex [] = refl
find_dot-to_hex (c ∷ s) = ground (arith, find_dot-to_hex s)

drop_after : (x y : Str) (c : ℕ) → drop (length x + 1) (x ++ c ∷ y) ≡ y
drop_after [] y c = refl
drop_after (d ∷ x) y c = ground (arith, drop_after x y c)

signed_id-made :
    (env : Env) (id : Str)
    → is_empty id ≡ false
    → signed_id env (id ++ b'.' ∷ sign env id) (some (length id)) ≡ some id
unfolding signed_id
signed_id-made env id h =
    rw
      (
        take-append id (b'.' ∷ sign env id),
        drop_after id (sign env id) b'.',
        h,
        str_eq_refl (sign env id),
      )
      refl

-- The id that a cookie was made for is read back from it.
id_from_cookie-cookie_value :
    (env : Env) (id : Str)
    → is_empty id ≡ false
    → find b'.' id ≡ none
    → id_from_cookie env (cookie_value env id) ≡ some id
unfolding id_from_cookie cookie_value
id_from_cookie-cookie_value env [] h k = cc
id_from_cookie-cookie_value env (c ∷ s) h k = elim (Bool-cases (is_empty env.session_secret)) [
  | inl unsigned ↦ rw unsigned (ap (unsigned_id (c ∷ s)) k)
  | inr signed ↦ rw signed (
      ap (signed_id env ((c ∷ s) ++ b'.' ∷ sign env (c ∷ s)))
        (find-append b'.' (c ∷ s) (sign env (c ∷ s)) k)
      ∙ signed_id-made env (c ∷ s) h)
]

signed_id-eq-some :
    (env : Env) (raw : Str) (o : Option ℕ) {id : Str}
    → find b'.' raw ≡ o
    → signed_id env raw o ≡ some id
    → raw ≡ id ++ b'.' ∷ sign env id
unfolding signed_id
signed_id-eq-some env raw none f e = cc
signed_id-eq-some env raw (some dot) {id = id} f e = elim (Bool-cases (is_empty (take dot raw))) [
  | inl empty ↦ absurd (off (rw empty at e))
  | inr full ↦ elim (Bool-cases (str_eq (drop (dot + 1) raw) (sign env (take dot raw)))) [
    | inr forged ↦ absurd (off (rw (full, forged) at e))
    | inl genuine ↦
        let same : ◌≡◌ {A = Option Str} (some (take dot raw)) (some id) = rw (full, genuine) at e in
        let is_id : take dot raw ≡ id = cc in
        find-eq-some b'.' raw f
        ∙ ap (λ t. take dot raw ++ b'.' ∷ t)
            ((str_eq_iff (drop (dot + 1) raw) (sign env (take dot raw))).0 genuine)
        ∙ ap (λ t. t ++ b'.' ∷ sign env t) is_id
  ]
]
  where
    off : ◌≡◌ {A = Option Str} none (some id) → ⊥
    off k = cc

-- With a secret, the id of an accepted cookie is followed by its signature.
signed_cookie :
    (env : Env) (raw : Str) {id : Str}
    → is_empty env.session_secret ≡ false
    → id_from_cookie env raw ≡ some id
    → raw ≡ id ++ b'.' ∷ sign env id
unfolding id_from_cookie
signed_cookie env [] secret e = cc
signed_cookie env (c ∷ s) secret e =
    signed_id-eq-some env (c ∷ s) (find b'.' (c ∷ s)) refl (rw secret at e)

of_row-eq-some :
    (env : Env) (id : Str) (o : Option SessionRow) (w : World) {u : Str} {w' : World}
    → of_row env id o w ≡ (ok (some u), w')
    → (row : SessionRow) × (o ≡ some row)
      × (row.user_id ≡ u)
      × (leb row.expires_at (now_s env) ≡ false)
unfolding after
of_row-eq-some env id none w e = cc
of_row-eq-some env id (some row) w {u = u} {w' = w'} e =
    elim (Bool-cases (leb row.expires_at (now_s env))) [
      | inl old ↦ absurd (off (ap (λ r. r.0) (rw old at e)))
      | inr new ↦
          let same : ◌≡◌ {A = Result (Option Str)} (ok (some row.user_id)) (ok (some u)) =
            ap (λ r. r.0) (rw new at e) in
          (row, refl, cc, new)
    ]
  where
    off : ◌≡◌ {A = Result (Option Str)} (ok none) (ok (some u)) → ⊥
    off k = cc

-- The whole cookie is the id, or what stands before its first dot is.
abbrev pub HasId : Str → Str → Type 0
HasId raw id =
    ((find b'.' raw ≡ none) × (raw ≡ id))
    ⊎ ((rest : Str) × (raw ≡ id ++ b'.' ∷ rest) × (find b'.' raw ≡ some (length id)))

find-length : (c : ℕ) (s : Str) {n : ℕ} → find c s ≡ some n → length (take n s) ≡ n
unfolding find
find-length c [] e = cc
find-length c (d ∷ s) {n = n} e = elim (Option-cases (find c s)) [
  | inl none_later ↦ ground arith
  | inr (j, f) ↦ ground (arith, find-length c s f)
]

unsigned_cookie :
    (env : Env) (raw : Str) {id : Str}
    → is_empty env.session_secret ≡ true
    → id_from_cookie env raw ≡ some id
    → HasId raw id
unfolding id_from_cookie
unsigned_cookie env [] secret e = cc
unsigned_cookie env (c ∷ s) {id = id} secret e = elim (Option-cases (find b'.' (c ∷ s))) [
  | inl n ↦
      let same : ◌≡◌ {A = Option Str} (some (c ∷ s)) (some id) =
        ap (unsigned_id (c ∷ s)) (sym n) ∙ rw secret at e in
      inl (n, cc)
  | inr (dot, f) ↦
      let same : ◌≡◌ {A = Option Str} (some (take dot (c ∷ s))) (some id) =
        ap (unsigned_id (c ∷ s)) (sym f) ∙ rw secret at e in
      let is_id : take dot (c ∷ s) ≡ id = cc in
      inr (
        drop (dot + 1) (c ∷ s),
        find-eq-some b'.' (c ∷ s) f ∙ ap (λ t. t ++ b'.' ∷ drop (dot + 1) (c ∷ s)) is_id,
        f ∙ ap some (sym (find-length b'.' (c ∷ s) f) ∙ ap length is_id),
      )
]

-- What vouches for a user: the id of a live session of theirs in the cookie and, where a secret is
-- set, the id's signature.
abbrev pub Vouches : Env → Database → Str → Str → Type 0
Vouches env db raw u =
    (id : Str) × (row : SessionRow) × (is_empty env.session_secret ≡ false
      → raw ≡ id ++ b'.' ∷ sign env id)
    × (is_empty env.session_secret ≡ true → HasId raw id)
    × (session_by_id db id ≡ some row)
    × (row.user_id ≡ u)
    × (leb row.expires_at (now_s env) ≡ false)

-- A request is taken to come from a user only where its cookie has the id of a session in the
-- database that is theirs and has not expired. Where a secret is set the cookie is that id, a dot and
-- the id's signature; where none is set it is the id, or what stands before its first dot is.
pub current_user_id-Vouches :
    (env : Env) (req : Request) (w : World) {u : Str} {w' : World}
    → current_user_id env req w ≡ (ok (some u), w')
    → Vouches env w.db (req.cookie "lectern_session") u
unfolding current_user_id after
current_user_id-Vouches env req w {u = u} {w' = w'} e =
    elim (Option-cases (id_from_cookie env (req.cookie "lectern_session"))) [
      | inl n ↦ absurd (off (ap (λ r. r.0) (rw n at e)))
      | inr (id, known) ↦
          let (row, there, mine, live) =
            of_row-eq-some env id (session_by_id w.db id) w (rw known at e) in
          (
            id,
            row,
            (λ secret. signed_cookie env (req.cookie "lectern_session") secret known),
            (λ missing. unsigned_cookie env (req.cookie "lectern_session") missing known),
            there,
            mine,
            live,
          )
    ]
  where
    off : ◌≡◌ {A = Result (Option Str)} (ok none) (ok (some u)) → ⊥
    off k = cc

-- The settings and functions of a request, at another time.
abbrev pub at_time : ℕ → Env → Env
at_time t env = record env { now_ms = t }

of_row-live :
    (env : Env) (id : Str) (row : SessionRow) (w : World)
    → leb row.expires_at (now_s env) ≡ false
    → (of_row env id (some row) w).0 ≡ ok (some row.user_id)
unfolding after
of_row-live env id row w live = rw live refl

inserted :
    (new : SessionRow) (db : Database) {db' : Database}
    → insert_session new db ≡ some db'
    → session_by_id db' new.id ≡ some new
unfolding insert_session
inserted new db {db' = db'} e = elim (Bool-cases (any (λ s. str_eq s.id new.id) db.sessions)) [
  | inl taken ↦ absurd (off (rw taken at e))
  | inr fresh ↦ elim (Bool-cases (is_user db new.user_id)) [
    | inr nobody ↦ absurd (off (rw (fresh, nobody) at e))
    | inl user ↦
        let made : ◌≡◌ {A = Option Database}
            (some (record db { sessions = db.sessions ++ new ∷ [] })) (some db') =
          rw (fresh, user) at e in
        let same : record db { sessions = db.sessions ++ new ∷ [] } ≡ db' = cc in
        ap (λ d. session_by_id d new.id) (sym same)
        ∙ find_if_added (λ s. str_eq s.id new.id) db.sessions new fresh (str_eq_refl new.id)
  ]
]
  where
    off : ◌≡◌ {A = Option Database} none (some db') → ⊥
    off k = cc

to_hex-nonempty : (s : Str) → is_empty s ≡ false → is_empty (to_hex s) ≡ false
unfolding to_hex
to_hex-nonempty [] h = cc
to_hex-nonempty (c ∷ s) h = refl

-- Where the random bytes drawn are not none, the cookie of a session that was started is good for
-- its user until the session's end: a request that carries it before then, with no other change to
-- the database, is taken to come from them.
pub start-current_user_id :
    (env : Env) (n t : ℕ) (u : Str) (w : World) (req : Request) {c : Cookie} {w' : World}
    → is_empty (env.random n 32) ≡ false
    → start env n u w ≡ (ok c, w')
    → req.cookie "lectern_session" ≡ c.value
    → now_s (at_time t env) < now_s env + inactivity_seconds
    → (current_user_id (at_time t env) req w').0 ≡ ok (some u)
unfolding start current_user_id after random_hex sign make_cookie
start-current_user_id env n t u w req {c = c} {w' = w'} drawn e carried early =
    let (db', ins, e₁) = execute_then (insert_session new) _ w e in
    let same : make_cookie env (cookie_value env id) inactivity_seconds ≡ c = cc in
    let raw : req.cookie "lectern_session" ≡ cookie_value (at_time t env) id =
      carried ∙ ap (λ k. k.value) (sym same) in
    let known : id_from_cookie (at_time t env) (req.cookie "lectern_session") ≡ some id =
      ap (id_from_cookie (at_time t env)) raw
      ∙ id_from_cookie-cookie_value (at_time t env) id (to_hex-nonempty (env.random n 32) drawn)
          (find_dot-to_hex (env.random n 32)) in
    let there : session_by_id w'.db id ≡ some new =
      ap (λ x. session_by_id x.1.db id) (sym e₁) ∙ inserted new w.db ins in
    ap (λ o. (of_id (at_time t env) o w').0) known
    ∙ ap (λ o. (of_row (at_time t env) id o w').0) there
    ∙ of_row-live (at_time t env) id new w' (ground arith)
  where
    id : Str
    id = random_hex env n 32

    new : SessionRow
    new = record { id = id; user_id = u; expires_at = now_s env + inactivity_seconds }

removed : (db : Database) (id : Str) → session_by_id (delete_session id db) id ≡ none
unfolding delete_session
removed db id = find_if-keep_if (λ s. str_eq s.id id) db.sessions

forgotten :
    (env : Env) (o : Option Str) (c : Cookie) (w : World)
    → (of_id env o (after (forget o w) (λ u. pure c)).1).0 ≡ ok none
unfolding after
forgotten env none c w = refl
forgotten env (some id) c w =
    ap (λ r. (of_row env id r (record w { db = delete_session id w.db })).0) (removed w.db id)

-- After a logout the cookie that it was asked with is good for nobody, now or later.
pub destroy-current_user_id :
    (env : Env) (req : Request) (w : World) (t : ℕ)
    → (current_user_id (at_time t env) req (destroy env req w).1).0 ≡ ok none
unfolding destroy current_user_id id_from_cookie sign
destroy-current_user_id env req w t =
    forgotten (at_time t env) (id_from_cookie env (req.cookie "lectern_session"))
      (make_cookie env [] 0) w
