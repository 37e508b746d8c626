-- ===== src/Workspace/Storing.antt =====
-- What PUT /api/workspace/file of src/workspace.cpp leaves behind.
use lectern_server.Prelude.{
  ℕ, ◌≡◌, refl, sym, ap, ◌∙◌, Bool, true, false, not, Bool-cases, inl, inr, some, String, List, [],
  ◌∷◌, Str, strs_eq, strs_eq_refl, is_empty, if◌then◌else◌, length, any, keep_if,
}
use lectern_server.Error.{AppError, Result, ok, err}
use lectern_server.Paths.{safe_rel_path}
use lectern_server.Files.{FilePath, file_content, read_file, write_file_atomic, check_quota}
use lectern_server.Files.Reading.{
  read_file-file_content, file_content-write_file_atomic, file_content-or_same,
}
use lectern_server.Database.{Database, tombstone_key, delete_tombstone}
use lectern_server.World.{
  Env, World, M, Request, Response, Method, put, after, ◌>>◌, notify_changes, required_query,
  by_method,
}
use lectern_server.World.Laws.{>>=-eq-ok, require_then, lift_then, change_then}
use lectern_server.Auth.{current_user_id_with_headers}
use lectern_server.Auth.Frame.{current_user_id_with_headers-SameFiles}
use lectern_server.Workspace.Isolation.{caller}
use lectern_server.Workspace.Inside.{is_empty-path_in}
use lectern_server.Workspace.{
  path_in, user_root, make_root, require_quota, workspace_is_full, put_file, file_handler,
  clear_tombstone,
}

pub quota_then :
    {B : Type 0} {b : B} {w' : World} (env : Env) (root : Str) (path : FilePath) (n : ℕ) (k : M B)
    (w : World)
    → (require_quota env root path n >> k) w ≡ (ok b, w')
    → (check_quota env.workspace_quota_bytes (root ∷ []) path n w.files ≡ true) × (k w ≡ (ok b, w'))
unfolding require_quota after
quota_then env root path n k w e =
    require_then (check_quota env.workspace_quota_bytes (root ∷ []) path n w.files)
      (workspace_is_full env) k w e

any-keep_if :
    {A : Type 0} (p : A → Bool) (xs : List A) → any p (keep_if (λ x. not (p x)) xs) ≡ false
any-keep_if p [] = refl
any-keep_if p (x ∷ xs) = elim (Bool-cases (p x)) [
  | inl hit ↦ rw hit (any-keep_if p xs)
  | inr miss ↦ rw (miss, miss) (any-keep_if p xs)
]

-- Whether the path of a user is marked as deleted.
abbrev pub is_marked : Database → Str → Str → Bool
is_marked db user_id rel = any (tombstone_key user_id rel) db.deleted_files

put_file-Stores :
    (env : Env) (req : Request) (user_id rel : Str) (w : World) {r : Response} {w' : World}
    → is_empty (path_in user_id rel) ≡ false
    → put_file env req user_id rel w ≡ (ok r, w')
    → ((q : FilePath)
        → file_content q w'.files
          ≡ (if strs_eq (path_in user_id rel) q then some req.body else file_content q w.files))
      × (is_marked w'.db user_id rel ≡ false)
unfolding put_file clear_tombstone delete_tombstone notify_changes after
put_file-Stores env req user_id rel w {r = r} {w' = w'} below e =
    let (small, e₁) = require_then _ _ _ w e in
    let (fits, e₂) = quota_then env user_id (path_in user_id rel) (length req.body) _ w e₁ in
    let (gs, made, e₃) =
      change_then _ (write_file_atomic (path_in user_id rel) req.body env.now_ms) _ w e₂ in
    (
      (λ q.
          ap (λ x. file_content q x.1.files) (sym e₃)
          ∙ file_content-write_file_atomic (path_in user_id rel) req.body env.now_ms w.files gs
              below made q),
      ap (λ x. is_marked x.1.db user_id rel) (sym e₃)
          ∙ any-keep_if (tombstone_key user_id rel) w.db.deleted_files,
    )

user_root-reads :
    (env : Env) (req : Request) (w : World) {u : Str} {v : World}
    → user_root env req w ≡ (ok u, v)
    → (caller env req w ≡ ok u) × ((q : FilePath) → file_content q v.files ≡ file_content q w.files)
unfolding user_root make_root after
user_root-reads env req w e =
    let (id, w₁, known, rest) = >>=-eq-ok (current_user_id_with_headers env req) _ w e in
    (
      ap (λ x. x.0) known ∙ ap (λ x. x.0) rest,
      λ q.
          ap (λ x. file_content q x.1.files) (sym rest)
          ∙ file_content-or_same q (id ∷ []) w₁.files
          ∙ ap (file_content q)
              (sym (ap (λ x. x.1.files) known) ∙ current_user_id_with_headers-SameFiles env req w),
    )

on_put :
    {A : Type 0} (method : Method) (m n : M A) (w : World) {x : Result A × World}
    → method ≡ put
    → by_method method m n w ≡ x
    → n w ≡ x
on_put method m n w is_put e = sym (ap (λ k. by_method k m n w) is_put) ∙ e

required_query-eq-ok :
    (req : Request) (name : String) {s : Str}
    → required_query req name ≡ ok s
    → req.parameter name ≡ s
unfolding required_query
required_query-eq-ok req name {s = s} e = elim (Bool-cases (is_empty (req.parameter name))) [
  | inl missing ↦ absurd (off (rw missing at e))
  | inr given ↦
      let same : ◌≡◌ {A = Result Str} (ok (req.parameter name)) (ok s) = rw given at e in cc
]
  where
    off : {x : AppError} → ◌≡◌ {A = Result Str} (err x) (ok s) → ⊥
    off k = cc

-- A PUT that is answered with success stores the body at the path named, in the workspace of the
-- user that the request authenticates as: reading it gives the body. Every other path of every
-- workspace holds the same file as before, or none as before, and the stored path is not marked as
-- deleted.
pub file_handler-Stores :
    (env : Env) (req : Request) (w : World) {r : Response} {w' : World}
    → req.method ≡ put
    → file_handler env req w ≡ (ok r, w')
    → (user_id : Str) × (rel : Str) × (caller env req w ≡ ok user_id)
      × (safe_rel_path (req.parameter "path") ≡ ok rel)
      × (read_file (path_in user_id rel) w'.files ≡ some req.body)
      × ((q : FilePath)
          → file_content q w'.files
            ≡ (if strs_eq (path_in user_id rel) q then some req.body else file_content q w.files))
      × (is_marked w'.db user_id rel ≡ false)
unfolding file_handler
file_handler-Stores env req w {w' = w'} is_put e =
    let (user_id, w₁, root, e₁) = >>=-eq-ok (user_root env req) _ w e in
    let (given, named, e₂) = lift_then _ _ w₁ e₁ in
    let (rel, safe, e₃) = lift_then (safe_rel_path given) _ w₁ e₂ in
    let (stored, clear) =
      put_file-Stores env req user_id rel w₁ (is_empty-path_in user_id given safe)
        (on_put req.method _ _ w₁ is_put e₃) in
    let (who, same) = user_root-reads env req w root in
    (
      user_id,
      rel,
      who,
      ap safe_rel_path (required_query-eq-ok req "path" named) ∙ safe,
      read_file-file_content (path_in user_id rel) w'.files (
          stored (path_in user_id rel)
          ∙ ap (λ t. if t then some req.body else file_content (path_in user_id rel) w₁.files)
              (strs_eq_refl (path_in user_id rel))),
      (λ q.
          stored q
          ∙ ap (λ t. if strs_eq (path_in user_id rel) q then some req.body else t) (same q)),
      clear,
    )
