-- ===== src/Share/Targets.antt =====
-- Who may reach a file by a comments request of src/share.cpp, `fResolveCommentTarget`.
use lectern_server.Prelude.{
  ◌≡◌, refl, sym, ap, ◌∙◌, false, Bool-cases, inl, inr, ◌⊎◌, Option, none, some, Str, is_empty,
}
use lectern_server.Error.{Result, ok, err, ◌>>=◌, >>=-eq-ok, forbidden}
use lectern_server.Paths.{safe_rel_path}
use lectern_server.Hub.Prefix.{Matches}
use lectern_server.Database.{Database, ShareRow, LinkRow, share_by_id, link_by_id}
use lectern_server.Share.{
  Perm, perm_less, perm_str, Access, resolve_share_access, resolve_link_access, at_level,
  known_target, resolve_comment_target, CommentTarget,
}
use lectern_server.Share.Resolve.{resolve_share_access-Covers, resolve_link_access-Covers}

at_level-eq-ok :
    (need : Perm) (r : Result Access) {o p : Str}
    → (r >>= at_level need) ≡ ok (o, p)
    → (a : Access) × (r ≡ ok a)
      × (perm_less a.permission need ≡ false)
      × (a.owner_id ≡ o)
      × (a.rel_path ≡ p)
at_level-eq-ok need (err x) e = cc
at_level-eq-ok need (ok a) {o = o} {p = p} e = elim (Bool-cases (perm_less a.permission need)) [
  | inl less ↦ absurd (refused (rw less at e))
  | inr enough ↦
      let same : ◌≡◌ {A = Result (Str × Str)} (ok (a.owner_id, a.rel_path)) (ok (o, p)) =
        rw enough at e in
      (a, refl, enough, cc, cc)
]
  where
    refused : ◌≡◌ {A = Result (Str × Str)} (err forbidden) (ok (o, p)) → ⊥
    refused h = cc

-- How a comments request names its file: by a link or by a share with the user, either of which
-- stores a level that is at least `need`, or as a path of the user's own.
abbrev pub MayUse :
    Database → Option Str → CommentTarget → Perm → (owner_id rel_path : Str) → Type 0
MayUse db user_id target need o p =
    ((l : LinkRow) × (level : Perm) × (link_by_id db target.link ≡ some l)
      × (l.owner_id ≡ o)
      × Matches p l.rel_path
      × (l.permission ≡ perm_str level)
      × (perm_less level need ≡ false))
    ⊎ (((s : ShareRow) × (level : Perm) × (share_by_id db target.share ≡ some s)
          × (some s.grantee_id ≡ user_id)
          × (s.owner_id ≡ o)
          × Matches p s.rel_path
          × (s.permission ≡ perm_str level)
          × (perm_less level need ≡ false))
        ⊎ ((some o ≡ user_id) × (safe_rel_path target.path ≡ ok p)))

-- A comments request is let through to a file only by a link or a share of at least the level
-- needed, or by its owner; a request without a user only by a link.
pub resolve_comment_target-MayUse :
    (user_id : Option Str) (target : CommentTarget) (need : Perm) (db : Database) {o p : Str}
    → resolve_comment_target user_id target need db ≡ ok (o, p)
    → MayUse db user_id target need o p
unfolding resolve_comment_target
resolve_comment_target-MayUse user_id target need db {o = o} {p = p} e =
    elim (Bool-cases (is_empty target.link)) [
      | inr by_link ↦
          let (a, r, level, owner, path) =
            at_level-eq-ok need (resolve_link_access target.link target.sub_path db)
              (rw by_link at e) in
          let (l, row, c) = resolve_link_access-Covers target.link target.sub_path db r in
          inl (l, a.permission, row, sym c.0 ∙ owner, rw (← path) c.1, sym c.2, level)
      | inl no_link ↦ inr (known user_id (rw no_link at e))
    ]
  where
    known :
        (who : Option Str)
        → known_target who target need db ≡ ok (o, p)
        → ((s : ShareRow) × (level : Perm) × (share_by_id db target.share ≡ some s)
            × (some s.grantee_id ≡ who)
            × (s.owner_id ≡ o)
            × Matches p s.rel_path
            × (s.permission ≡ perm_str level)
            × (perm_less level need ≡ false))
          ⊎ ((some o ≡ who) × (safe_rel_path target.path ≡ ok p))
    known none h = cc
    known (some u) h = elim (Bool-cases (is_empty target.share)) [
      | inr by_share ↦
          let (a, r, level, owner, path) =
            at_level-eq-ok need (resolve_share_access u target.share target.sub_path db)
              (rw by_share at h) in
          let (s, row, mine, c) = resolve_share_access-Covers u target.share target.sub_path db r in
          inl (s, a.permission, row, ap some mine, sym c.0 ∙ owner, rw (← path) c.1, sym c.2, level)
      | inl own ↦
          let (rel, safe, made) =
            >>=-eq-ok (safe_rel_path target.path) (λ rel. ok (u, rel)) (rw own at h) in
          let same : ◌≡◌ {A = Result (Str × Str)} (ok (u, rel)) (ok (o, p)) = made in
          inr (cc, safe ∙ cc)
    ]
