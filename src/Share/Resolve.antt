-- ===== src/Share/Resolve.antt =====
-- What the resolved accesses of src/share.cpp rest on, and where in the file tree they lead.
use Prim.Native.String.{String}
use lectern_server.Prelude.{
  ◌≡◌, refl, sym, ◌∙◌, Bool, true, false, Bool-cases, inl, inr, ◌⊎◌, Option, none, some, [], ◌∷◌,
  ◌++◌, Str, str_eq, str_eq_iff, bytes, is_empty,
}
use lectern_server.Error.{Result, ok, err, ◌>>=◌, >>=-eq-ok, not_found}
use lectern_server.Paths.{safe_rel_path}
use lectern_server.Json.{Fields}
use lectern_server.Hub.{string_field}
use lectern_server.Hub.Prefix.{Matches}
use lectern_server.Database.{Database, ShareRow, LinkRow, share_by_id, link_by_id}
use lectern_server.Share.{
  Perm, view, comment, edit, perm_str, or_bad_permission, perm_from_db, Access, or_not_found,
  load_share, load_link, effective_path, access_of, grantee_access, resolve_share_access,
  visitor_access, resolve_link_access, watched, resolve_watch,
}

or_not_found-eq-ok : {A : Type 0} (o : Option A) {a : A} → or_not_found o ≡ ok a → o ≡ some a
or_not_found-eq-ok none e = cc
or_not_found-eq-ok (some a) e = cc

parsed_as :
    (stored : Str) (q : Perm) {p : Perm} (word : Str)
    → str_eq stored word ≡ true
    → word ≡ perm_str q
    → or_bad_permission (some q) ≡ ok p
    → perm_str p ≡ stored
parsed_as stored q {p = p} word same w e =
    let is_q : q ≡ p = cc in rw (← is_q, (str_eq_iff stored word).0 same) (sym w)

-- A level that was read back is the one that was stored.
perm_from_db-perm_str : (stored : Str) {p : Perm} → perm_from_db stored ≡ ok p → perm_str p ≡ stored
unfolding perm_from_db perm_str
perm_from_db-perm_str stored {p = p} e = elim (Bool-cases (str_eq stored (bytes "view"))) [
  | inl v ↦ parsed_as stored view (bytes "view") v refl (rw v at e)
  | inr not_v ↦ elim (Bool-cases (str_eq stored (bytes "comment"))) [
    | inl c ↦ parsed_as stored comment (bytes "comment") c refl (rw (not_v, c) at e)
    | inr not_c ↦ elim (Bool-cases (str_eq stored (bytes "edit"))) [
      | inl d ↦ parsed_as stored edit (bytes "edit") d refl (rw (not_v, not_c, d) at e)
      | inr not_d ↦ absurd (refused (rw (not_v, not_c, not_d) at e))
    ]
  ]
]
  where
    refused : or_bad_permission none ≡ ok p → ⊥
    refused h = cc

-- The shared path itself, or in a shared folder what a sub path that `fSafeRelPath` accepts leads to.
abbrev pub IsSubPath : (root sub_path : Str) → Bool → (rel_path : Str) → Type 0
IsSubPath root sub_path is_dir rel_path =
    ((sub_path ≡ []) × (rel_path ≡ root))
    ⊎ ((is_dir ≡ true)
        × (rel : Str) × (safe_rel_path sub_path ≡ ok rel)
        × (rel_path ≡ root ++ b'/' ∷ rel))

effective_path-Matches :
    (root : Str) (is_dir : Bool) (sub : Str) (m : String) {p : Str}
    → effective_path root is_dir sub m ≡ ok p
    → Matches p root × IsSubPath root sub is_dir p
unfolding effective_path
effective_path-Matches root is_dir [] m e = (inl (sym cc), inl (refl, sym cc))
effective_path-Matches root false (c ∷ s) m e = cc
effective_path-Matches root true (c ∷ s) m e =
    let (rel, r, made) = >>=-eq-ok (safe_rel_path (c ∷ s)) (λ rel. ok (root ++ b'/' ∷ rel)) e in
    (inr (rel, sym cc), inr (refl, rel, r, sym cc))

-- The access is that of the row, at a path that the row covers.
abbrev pub Covers : (owner_id rel_path permission sub_path : Str) → Bool → Access → Type 0
Covers owner_id rel_path permission sub_path is_dir a =
    (a.owner_id ≡ owner_id)
    × Matches a.rel_path rel_path
    × (perm_str a.permission ≡ permission)
    × IsSubPath rel_path sub_path is_dir a.rel_path

covered :
    (owner_id root stored sub : Str) (is_dir : Bool) (m : String) {a : Access}
    → (effective_path root is_dir sub m >>= access_of owner_id is_dir stored) ≡ ok a
    → Covers owner_id root stored sub is_dir a
covered owner_id root stored sub is_dir m {a = a} e =
    let (rel, r, made) =
      >>=-eq-ok (effective_path root is_dir sub m) (access_of owner_id is_dir stored) e in
    let (p, known, built) =
      >>=-eq-ok (perm_from_db stored)
        (λ perm.
          ok (record { owner_id = owner_id; rel_path = rel; is_dir = is_dir; permission = perm }))
        made in
    let (under, dir_or_root) = effective_path-Matches root is_dir sub m r in
    let fields : (rel ≡ a.rel_path) × (owner_id ≡ a.owner_id) × (p ≡ a.permission) = (cc, cc, cc) in
    (
      sym fields.1,
      rw (← fields.0) under,
      rw (← fields.2) (perm_from_db-perm_str stored known),
      rw (← fields.0) dir_or_root,
    )

-- Whoever resolves a share is its grantee, and what they get is the owner's path that the row names
-- or, for a folder and a sub path that `fSafeRelPath` accepts, that path, a slash and what it makes of
-- the sub path; at the level that the row stores.
pub resolve_share_access-Covers :
    (user_id share_id sub_path : Str) (db : Database) {a : Access}
    → resolve_share_access user_id share_id sub_path db ≡ ok a
    → (s : ShareRow) × (share_by_id db share_id ≡ some s)
      × (s.grantee_id ≡ user_id)
      × Covers s.owner_id s.rel_path s.permission sub_path s.is_dir a
unfolding resolve_share_access load_share
resolve_share_access-Covers user_id share_id sub_path db {a = a} e =
    let (s, loaded, granted) =
      >>=-eq-ok (load_share share_id db) (grantee_access user_id sub_path) e in
    elim (Bool-cases (str_eq s.grantee_id user_id)) [
      | inl mine ↦ (
        s,
        or_not_found-eq-ok (share_by_id db share_id) loaded,
        (str_eq_iff s.grantee_id user_id).0 mine,
        covered s.owner_id s.rel_path s.permission sub_path s.is_dir "not a folder share"
            (rw mine at granted),
      )
      | inr other ↦ absurd (refused (rw other at granted))
    ]
  where
    refused : err not_found ≡ ok a → ⊥
    refused h = cc

-- A link leads to its owner's path that the row names or, for a folder and a sub path that
-- `fSafeRelPath` accepts, to that path, a slash and what it makes of the sub path; at the level that
-- the row stores.
pub resolve_link_access-Covers :
    (token sub_path : Str) (db : Database) {a : Access}
    → resolve_link_access token sub_path db ≡ ok a
    → (l : LinkRow) × (link_by_id db token ≡ some l)
      × Covers l.owner_id l.rel_path l.permission sub_path l.is_dir a
unfolding resolve_link_access load_link
resolve_link_access-Covers token sub_path db e =
    let (l, loaded, granted) = >>=-eq-ok (load_link token db) (visitor_access sub_path) e in
    (
      l,
      or_not_found-eq-ok (link_by_id db token) loaded,
      covered l.owner_id l.rel_path l.permission sub_path l.is_dir "not a folder link" granted,
    )

-- A path of `owner_id` that the link with the token gives.
abbrev pub LinkGives : Database → (token owner_id rel_path : Str) → Type 0
LinkGives db token owner_id rel_path =
    (l : LinkRow) × (link_by_id db token ≡ some l)
    × (owner_id ≡ l.owner_id)
    × Matches rel_path l.rel_path

-- A path of `owner_id` that the share gives, which is one with `user_id`.
abbrev pub ShareGives : Database → (id user_id owner_id rel_path : Str) → Type 0
ShareGives db id user_id owner_id rel_path =
    (s : ShareRow) × (share_by_id db id ≡ some s)
    × (s.grantee_id ≡ user_id)
    × (owner_id ≡ s.owner_id)
    × Matches rel_path s.rel_path

watched-eq-some :
    (r : Result Access) {o p : Str}
    → watched r ≡ some (o, p)
    → (a : Access) × (r ≡ ok a) × (a.owner_id ≡ o) × (a.rel_path ≡ p)
watched-eq-some (ok a) e = (a, refl, cc, cc)
watched-eq-some (err x) e = cc

link_watch :
    (db : Database) (token sub : Str) {o p : Str}
    → watched (resolve_link_access token sub db) ≡ some (o, p)
    → LinkGives db token o p
link_watch db token sub e =
    let (a, r, owner, path) = watched-eq-some (resolve_link_access token sub db) e in
    let (l, row, c) = resolve_link_access-Covers token sub db r in
    (l, row, sym owner ∙ c.0, rw (← path) c.1)

share_watch :
    (db : Database) (user_id id sub : Str) {o p : Str}
    → watched (resolve_share_access user_id id sub db) ≡ some (o, p)
    → ShareGives db id user_id o p
share_watch db user_id id sub e =
    let (a, r, owner, path) = watched-eq-some (resolve_share_access user_id id sub db) e in
    let (s, row, mine, c) = resolve_share_access-Covers user_id id sub db r in
    (s, row, mine, sym owner ∙ c.0, rw (← path) c.1)

-- What the hub is told that a connection may follow, the link that the request names gives to anyone or
-- the share that it names gives to the user of that connection.
pub resolve_watch-IsGiven :
    (db : Database) (user_id : Str) (request : Fields) {o p : Str}
    → resolve_watch db user_id request ≡ some (o, p)
    → LinkGives db (string_field request "link") o p
      ⊎ ShareGives db (string_field request "share") user_id o p
unfolding resolve_watch
resolve_watch-IsGiven db user_id request {o = o} {p = p} e = elim (Bool-cases (is_empty link)) [
  | inr by_link ↦ inl (link_watch db link sub (rw by_link at e))
  | inl no_link ↦ elim (Bool-cases (is_empty share)) [
    | inl no_share ↦ absurd (none_given (rw (no_link, no_share) at e))
    | inr by_share ↦ elim (Bool-cases (is_empty user_id)) [
      | inl nobody ↦ absurd (none_given (rw (no_link, by_share, nobody) at e))
      | inr somebody ↦
          inr (share_watch db user_id share sub (rw (no_link, by_share, somebody) at e))
    ]
  ]
]
  where
    link : Str
    link = string_field request "link"

    share : Str
    share = string_field request "share"

    sub : Str
    sub = string_field request "path"

    none_given : ◌≡◌ {A = Option (Str × Str)} none (some (o, p)) → ⊥
    none_given h = cc
