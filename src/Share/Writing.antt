-- ===== src/Share/Writing.antt =====
-- What a write through a share or a link of src/share.cpp needs, and what it does to the tree.
use lectern_server.Prelude.{
  ◌≡◌, refl, sym, ap, ◌∙◌, true, false, not, inl, inr, some, Str, strs_eq, is_empty, if◌then◌else◌,
  length, arith,
}
use lectern_server.Error.{AppError, Result, ok, err, forbidden, bad_request, not_found, exception}
use lectern_server.Error
use lectern_server.Paths.{is_work_file, safe_rel_path}
use lectern_server.Files.{
  FilePath, Files, node_at, is_regular_file, file_content, write_file_atomic,
}
use lectern_server.Files.Laws.{Node-cases}
use lectern_server.Files.Reading.{file_content-write_file_atomic}
use lectern_server.Workspace.{path_in}
use lectern_server.Workspace.Inside.{is_empty-path_in}
use lectern_server.Workspace.Storing.{quota_then}
use lectern_server.Share.{
  Perm, view, comment, edit, perm_less, Access, owner_full_path, write_through,
}
use lectern_server.World.{Env, World, notify_changes}
use lectern_server.World.Laws.{require_then, lift_then, read_then, change_then}

not_less_edit : (p : Perm) → not (perm_less p edit) ≡ true → p ≡ edit
not_less_edit view h = cc
not_less_edit comment h = cc
not_less_edit edit h = refl

regular-read :
    (p : FilePath) (fs : Files)
    → is_regular_file p fs ≡ true
    → (c : Str) × (file_content p fs ≡ some c)
unfolding is_regular_file file_content node_at
regular-read p fs h = elim (Node-cases (node_at p fs)) [
  | inl n ↦ absurd (off (rw n at h))
  | inr (inl (c, m, n)) ↦ (c, ground arith)
  | inr (inr n) ↦ absurd (off (rw n at h))
]
  where
    off : false ≡ true → ⊥
    off k = cc

owner_full_path-nonempty :
    (owner rel : Str) {p : FilePath} → owner_full_path owner rel ≡ ok p → is_empty p ≡ false
unfolding owner_full_path
owner_full_path-nonempty owner rel {p = p} e =
    let (key, safe, made) = Error.>>=-eq-ok (safe_rel_path rel) (λ key. ok (path_in owner key)) e in
    let same : path_in owner key ≡ p = cc in rw (← same) (is_empty-path_in owner rel safe)

-- A write through a share or a link that succeeds had the level "edit" and a work file that was
-- there. It leaves that file with the new content, every other path holding the
-- same file as before, or none, and the database as it was.
pub write_through-Writes :
    (env : Env) (access : Access) (content origin_device : Str) (w : World) {u : Unit {0}}
    {w' : World}
    → write_through env access content origin_device w ≡ (ok u, w')
    → (access.permission ≡ edit)
      × (is_work_file access.rel_path ≡ true)
      × ((p : FilePath) × (owner_full_path access.owner_id access.rel_path ≡ ok p)
          × ((old : Str) × (file_content p w.files ≡ some old))
          × ((q : FilePath)
              → file_content q w'.files
                ≡ (if strs_eq p q then some content else file_content q w.files)))
      × (w'.db ≡ w.db)
unfolding write_through notify_changes
write_through-Writes env access content origin_device w e =
    let (level, e₁) = require_then _ _ _ w e in
    let (work, e₂) = require_then _ _ _ w e₁ in
    let (p, full, e₃) = lift_then _ _ w e₂ in
    let (present, e₄) =
      require_then (is_regular_file p w.files) not_found _ w
        (read_then (is_regular_file p) _ w e₃) in
    let (fits, e₅) = quota_then env access.owner_id p (length content) _ w e₄ in
    let (gs, made, e₆) = change_then exception (write_file_atomic p content env.now_ms) _ w e₅ in
    (
      not_less_edit access.permission level,
      work,
      (
        p,
        full,
        regular-read p w.files present,
        λ q.
            ap (λ v. file_content q v.files) (sym (ap (λ r. r.1) e₆))
            ∙ file_content-write_file_atomic p content env.now_ms w.files gs
                (owner_full_path-nonempty access.owner_id access.rel_path full) made q,
      ),
      ap (λ v. v.db) (sym (ap (λ r. r.1) e₆)),
    )
