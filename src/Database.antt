-- ===== src/Database.antt =====
-- The tables of migrations/ and the SQL statements that src/session.cpp, src/auth.cpp, src/share.cpp
-- and src/workspace.cpp run on them; those of src/fonts.cpp are in Database/Fonts.antt. `none` is a statement that fails on a constraint of the schema
-- (a primary key, UNIQUE, CHECK or REFERENCES); other failures of SQLite are not modelled.
pub mod Fonts
use lectern_server.Prelude.{
  ℕ, Bool, false, not, ◌&&◌, ◌||◌, Option, none, some, List, [], ◌∷◌, ◌++◌, map, leb, if◌then◌else◌,
  Str, bytes, str_eq, is_empty, any, keep_if, find_if,
}

pub record User : Type 0 where
  pub id : Str
  pub email : Str
  pub password_hash : Str
  pub created_at : ℕ
  pub api_token : Str

pub record SessionRow : Type 0 where
  pub id : Str
  pub user_id : Str
  pub expires_at : ℕ

pub record ShareRow : Type 0 where
  pub id : Str
  pub owner_id : Str
  pub grantee_id : Str
  pub rel_path : Str
  pub is_dir : Bool
  pub permission : Str
  pub created_at : ℕ

pub record LinkRow : Type 0 where
  pub id : Str
  pub owner_id : Str
  pub rel_path : Str
  pub is_dir : Bool
  pub permission : Str
  pub created_at : ℕ

pub record CommentRow : Type 0 where
  pub id : Str
  pub owner_id : Str
  pub rel_path : Str
  pub author_id : Option Str
  pub body : Str
  pub created_at : ℕ
  pub anchor : Option Str

pub record Tombstone : Type 0 where
  pub user_id : Str
  pub rel_path : Str
  pub deleted_at : ℕ

pub record FontRow : Type 0 where
  pub id : Str
  pub owner_id : Str
  pub family_name : Str
  pub filename : Str
  pub content_type : Str
  pub byte_size : ℕ
  pub created_at : ℕ

pub record Database : Type 0 where
  pub users : List User
  pub sessions : List SessionRow
  pub shares : List ShareRow
  pub share_links : List LinkRow
  pub comments : List CommentRow
  pub deleted_files : List Tombstone
  pub custom_fonts : List FontRow

abbrev pub is_user : Database → Str → Bool
is_user db id = any (λ u. str_eq u.id id) db.users

-- users

abbrev pub user_by_id : Database → Str → Option User
user_by_id db id = find_if (λ u. str_eq u.id id) db.users

abbrev pub user_by_email : Database → Str → Option User
user_by_email db email = find_if (λ u. str_eq u.email email) db.users

abbrev pub user_by_token : Database → Str → Option User
user_by_token db token = find_if (λ u. str_eq u.api_token token) db.users

-- The unique index on `api_token` leaves the empty ones out.
abbrev pub user_conflict : User → User → Bool
user_conflict new u =
    str_eq u.id new.id
    || (str_eq u.email new.email
        || (not (is_empty new.api_token) && str_eq u.api_token new.api_token))

unfoldable pub insert_user : User → Database → Option Database
unfolding str_eq
insert_user new db =
    if any (user_conflict new) db.users
    then none
    else some (record db { users = db.users ++ new ∷ [] })

abbrev pub token_taken : Str → Str → User → Bool
token_taken token id u = not (is_empty token) && (str_eq u.api_token token && not (str_eq u.id id))

unfoldable pub set_api_token : Str → Str → Database → Option Database
unfolding str_eq
set_api_token token id db =
    if any (token_taken token id) db.users
    then none
    else some (record db {
      users = map (λ u. if str_eq u.id id then record u { api_token = token } else u) db.users;
    })

-- sessions

abbrev pub session_by_id : Database → Str → Option SessionRow
session_by_id db id = find_if (λ s. str_eq s.id id) db.sessions

unfoldable pub insert_session : SessionRow → Database → Option Database
unfolding str_eq
insert_session new db =
    if any (λ s. str_eq s.id new.id) db.sessions || not (is_user db new.user_id)
    then none
    else some (record db { sessions = db.sessions ++ new ∷ [] })

unfoldable pub delete_session : Str → Database → Database
unfolding str_eq
delete_session id db = record db { sessions = keep_if (λ s. not (str_eq s.id id)) db.sessions }

unfoldable pub touch_session : ℕ → Str → Database → Database
unfolding str_eq
touch_session expires_at id db = record db {
  sessions =
      map (λ s. if str_eq s.id id then record s { expires_at = expires_at } else s) db.sessions;
}

unfoldable pub delete_expired_sessions : ℕ → Database → Database
delete_expired_sessions now db = record db {
  sessions = keep_if (λ s. not (leb s.expires_at now)) db.sessions;
}

-- shares

abbrev pub share_by_id : Database → Str → Option ShareRow
share_by_id db id = find_if (λ s. str_eq s.id id) db.shares

abbrev pub share_key : Str → Str → Str → ShareRow → Bool
share_key owner_id grantee_id rel_path s =
    str_eq s.owner_id owner_id && (str_eq s.grantee_id grantee_id && str_eq s.rel_path rel_path)

abbrev pub share_of : Database → Str → Str → Str → Option ShareRow
share_of db owner_id grantee_id rel_path =
    find_if (share_key owner_id grantee_id rel_path) db.shares

-- The CHECK on `permission`.
abbrev pub is_permission : Str → Bool
is_permission p = str_eq p (bytes "view") || (str_eq p (bytes "comment") || str_eq p (bytes "edit"))

-- `ON CONFLICT (owner_id, grantee_id, rel_path) DO UPDATE SET permission, is_dir`.
unfoldable pub upsert_share : ShareRow → Database → Option Database
unfolding str_eq
upsert_share new db =
    let same = share_key new.owner_id new.grantee_id new.rel_path in
    if not (is_permission new.permission)
    then none
    else if any same db.shares
    then some (record db {
      shares =
          map
            (λ s.
              if same s then record s { permission = new.permission; is_dir = new.is_dir } else s)
            db.shares;
    })
    else if any (λ s. str_eq s.id new.id) db.shares
        || (not (is_user db new.owner_id) || not (is_user db new.grantee_id))
    then none
    else some (record db { shares = db.shares ++ new ∷ [] })

abbrev pub ends_share : Str → Str → ShareRow → Bool
ends_share id user_id s =
    str_eq s.id id && (str_eq s.owner_id user_id || str_eq s.grantee_id user_id)

unfoldable pub delete_share : Str → Str → Database → Database
unfolding str_eq
delete_share id user_id db = record db {
  shares = keep_if (λ s. not (ends_share id user_id s)) db.shares;
}

-- share_links

abbrev pub link_by_id : Database → Str → Option LinkRow
link_by_id db id = find_if (λ l. str_eq l.id id) db.share_links

unfoldable pub insert_link : LinkRow → Database → Option Database
unfolding str_eq
insert_link new db =
    if not (is_permission new.permission)
      || (any (λ l. str_eq l.id new.id) db.share_links || not (is_user db new.owner_id))
    then none
    else some (record db { share_links = db.share_links ++ new ∷ [] })

abbrev pub ends_link : Str → Str → LinkRow → Bool
ends_link id owner_id l = str_eq l.id id && str_eq l.owner_id owner_id

unfoldable pub delete_link : Str → Str → Database → Database
unfolding str_eq
delete_link id owner_id db = record db {
  share_links = keep_if (λ l. not (ends_link id owner_id l)) db.share_links;
}

-- comments

abbrev pub author_missing : Database → Option Str → Bool
author_missing db none = false
author_missing db (some id) = not (is_user db id)

unfoldable pub insert_comment : CommentRow → Database → Option Database
unfolding str_eq
insert_comment new db =
    if any (λ c. str_eq c.id new.id) db.comments
      || (not (is_user db new.owner_id) || author_missing db new.author_id)
    then none
    else some (record db { comments = db.comments ++ new ∷ [] })

abbrev pub is_author : Option Str → Str → Bool
is_author none id = false
is_author (some a) id = str_eq a id

abbrev pub ends_comment : Str → Str → CommentRow → Bool
ends_comment id user_id c =
    str_eq c.id id && (is_author c.author_id user_id || str_eq c.owner_id user_id)

unfoldable pub delete_comment : Str → Str → Database → Database
unfolding str_eq
delete_comment id user_id db = record db {
  comments = keep_if (λ c. not (ends_comment id user_id c)) db.comments;
}

-- deleted_files

abbrev pub tombstone_key : Str → Str → Tombstone → Bool
tombstone_key user_id rel_path t = str_eq t.user_id user_id && str_eq t.rel_path rel_path

unfoldable pub upsert_tombstone : Tombstone → Database → Option Database
unfolding str_eq
upsert_tombstone new db =
    let same = tombstone_key new.user_id new.rel_path in
    if any same db.deleted_files
    then some (record db {
      deleted_files =
          map (λ t. if same t then record t { deleted_at = new.deleted_at } else t)
            db.deleted_files;
    })
    else if not (is_user db new.user_id)
    then none
    else some (record db { deleted_files = db.deleted_files ++ new ∷ [] })

unfoldable pub delete_tombstone : Str → Str → Database → Database
unfolding str_eq
delete_tombstone user_id rel_path db = record db {
  deleted_files = keep_if (λ t. not (tombstone_key user_id rel_path t)) db.deleted_files;
}
