-- ===== src/Share.antt =====
-- src/share.cpp: who may reach which file of whose workspace, at what level, and the reads and
-- writes through a share or a link. The handlers stand in the modules below.
pub mod Resolve
pub mod Targets
pub mod Writing
mod Tests
pub mod Grants
pub mod Links
pub mod Shared
pub mod Comments
use lectern_server.Prelude.{
  ℕ, ◌+◌, ◌*◌, String, Bool, true, false, not, ◌&&◌, ◌||◌, Option, none, some, List, [], ◌∷◌, ◌++◌,
  ltb, leb, ◌==◌, if◌then◌else◌, Str, bytes, str_eq, is_empty, length,
}
use lectern_server.Error.{
  AppError, Result, ok, err, ◌>>=◌ as ◌>>=ᵣ◌, bad_request, internal, unauthorized, forbidden,
  not_found, exception,
}
use lectern_server.Util.{split}
use lectern_server.Paths.{safe_rel_path, is_work_file}
use lectern_server.Json.{Json, text, Fields, find_field, text_or_empty}
use lectern_server.Hub.{string_field}
use lectern_server.Files.{
  FilePath, Node, Files, node_at, is_directory, is_regular_file, write_file_atomic, read_file,
}
use lectern_server.Database.{Database, ShareRow, LinkRow, share_by_id, link_by_id}
use lectern_server.Workspace.{path_in, require_quota, device}
use lectern_server.World.{
  Env, World, M, pure, throw, after, ◌>>=◌, ◌>>◌, lift, require, found, query, read_files,
  change_files, notify_changes, Request, json_string_or,
}

pub data Perm : Type 0 where
  view comment edit : Perm

abbrev pub rank : Perm → ℕ
rank view = 0
rank comment = 1
rank edit = 2

-- `a < b` of the enumeration.
abbrev pub perm_less : Perm → Perm → Bool
perm_less a b = ltb (rank a) (rank b)

unfoldable pub parse_perm : Str → Option Perm
unfolding str_eq
parse_perm value =
    if str_eq value (bytes "view")
    then some view
    else if str_eq value (bytes "comment")
    then some comment
    else if str_eq value (bytes "edit")
    then some edit
    else none

unfoldable pub perm_str : Perm → Str
perm_str view = bytes "view"
perm_str comment = bytes "comment"
perm_str edit = bytes "edit"

abbrev pub or_bad_permission : Option Perm → Result Perm
or_bad_permission none = err (internal "bad permission in db")
or_bad_permission (some perm) = ok perm

unfoldable pub perm_from_db : Str → Result Perm
unfolding parse_perm
perm_from_db value = or_bad_permission (parse_perm value)

pub record Access : Type 0 where
  pub owner_id : Str
  pub rel_path : Str
  pub is_dir : Bool
  pub permission : Perm

abbrev pub or_not_found : {A : Type 0} → Option A → Result A
or_not_found none = err not_found
or_not_found (some a) = ok a

unfoldable pub load_share : Str → Database → Result ShareRow
unfolding str_eq
load_share share_id db = or_not_found (share_by_id db share_id)

unfoldable pub load_link : Str → Database → Result LinkRow
unfolding str_eq
load_link token db = or_not_found (link_by_id db token)

unfoldable pub effective_path :
    (shared_root : Str) → Bool → (sub_path : Str) → (not_a_folder : String) → Result Str
unfolding safe_rel_path
effective_path shared_root is_dir sub_path not_a_folder =
    if is_empty sub_path
    then ok shared_root
    else if not is_dir
    then err (bad_request not_a_folder)
    else safe_rel_path sub_path >>=ᵣ λ rel. ok (shared_root ++ b'/' ∷ rel)

abbrev pub access_of : (owner_id : Str) → Bool → (stored : Str) → Str → Result Access
access_of owner_id is_dir stored rel = perm_from_db stored >>=ᵣ λ perm.
    ok (record { owner_id = owner_id; rel_path = rel; is_dir = is_dir; permission = perm })

abbrev pub grantee_access : Str → Str → ShareRow → Result Access
grantee_access user_id sub_path share =
    if not (str_eq share.grantee_id user_id)
    then err not_found
    else effective_path share.rel_path share.is_dir sub_path "not a folder share"
      >>=ᵣ access_of share.owner_id share.is_dir share.permission

unfoldable pub resolve_share_access : (user_id share_id sub_path : Str) → Database → Result Access
unfolding load_share str_eq effective_path perm_from_db
resolve_share_access user_id share_id sub_path db =
    load_share share_id db >>=ᵣ grantee_access user_id sub_path

abbrev pub visitor_access : Str → LinkRow → Result Access
visitor_access sub_path link =
    effective_path link.rel_path link.is_dir sub_path "not a folder link"
    >>=ᵣ access_of link.owner_id link.is_dir link.permission

unfoldable pub resolve_link_access : (token sub_path : Str) → Database → Result Access
unfolding load_link effective_path perm_from_db
resolve_link_access token sub_path db = load_link token db >>=ᵣ visitor_access sub_path

-- Below the workspaces directory.
unfoldable pub owner_full_path : (owner_id rel : Str) → Result FilePath
unfolding safe_rel_path split
owner_full_path owner_id rel = safe_rel_path rel >>=ᵣ λ key. ok (path_in owner_id key)

unfoldable pub read_through : Access → M Str
unfolding is_work_file owner_full_path read_file
read_through access = do
  require (is_work_file access.rel_path) (bad_request "not a work file")
  full ← lift (owner_full_path access.owner_id access.rel_path)
  content ← read_files (read_file full)
  found content not_found

unfoldable pub write_through : Env → Access → (content origin_device : Str) → M (Unit {0})
unfolding is_work_file owner_full_path is_regular_file write_file_atomic notify_changes
    require_quota
write_through env access content origin_device = do
  require (not (perm_less access.permission edit)) forbidden
  require (is_work_file access.rel_path) (bad_request "not a work file")
  full ← lift (owner_full_path access.owner_id access.rel_path)
  present ← read_files (is_regular_file full)
  require present not_found
  require_quota env access.owner_id full (length content)
  change_files exception (write_file_atomic full content env.now_ms)
  notify_changes access.owner_id (access.rel_path ∷ []) origin_device

unfoldable pub require_entry_exists : (owner_id rel : Str) → Bool → M (Unit {0})
unfolding is_directory is_regular_file split
require_entry_exists owner_id rel is_dir = do
  folder ← read_files (is_directory (path_in owner_id rel))
  require (not is_dir || folder) (bad_request "no such folder")
  present ← read_files (is_regular_file (path_in owner_id rel))
  require (is_dir || present) (bad_request "no such file")

pub record CommentTarget : Type 0 where
  pub path : Str
  pub share : Str
  pub link : Str
  pub sub_path : Str

abbrev pub target_from_query : Request → CommentTarget
target_from_query req = record {
  path = req.parameter "path";
  share = req.parameter "share";
  link = req.parameter "link";
  sub_path = req.parameter "subPath";
}

unfoldable pub target_from_body : Fields → CommentTarget
unfolding json_string_or
target_from_body body = record {
  path = json_string_or body "path" [];
  share = json_string_or body "share" [];
  link = json_string_or body "link" [];
  sub_path = json_string_or body "subPath" [];
}

-- The owner and the path, where the level is enough.
abbrev pub at_level : Perm → Access → Result (Str × Str)
at_level need access =
    if perm_less access.permission need
    then err forbidden
    else ok (access.owner_id, access.rel_path)

abbrev pub users_target : Str → CommentTarget → Perm → Database → Result (Str × Str)
users_target user_id target need db =
    if not (is_empty target.share)
    then resolve_share_access user_id target.share target.sub_path db >>=ᵣ at_level need
    else safe_rel_path target.path >>=ᵣ λ rel. ok (user_id, rel)

abbrev pub known_target : Option Str → CommentTarget → Perm → Database → Result (Str × Str)
known_target none target need db = err unauthorized
known_target (some user_id) target need db = users_target user_id target need db

unfoldable pub resolve_comment_target :
    Option Str → CommentTarget → Perm → Database → Result (Str × Str)
unfolding resolve_link_access resolve_share_access safe_rel_path
resolve_comment_target user_id target need db =
    if not (is_empty target.link)
    then resolve_link_access target.link target.sub_path db >>=ᵣ at_level need
    else known_target user_id target need db

abbrev watched : Result Access → Option (Str × Str)
watched (ok access) = some (access.owner_id, access.rel_path)
watched (err e) = none

-- `fResolveWatch`, which the hub is given; what it throws it catches.
unfoldable pub resolve_watch : Database → (user_id : Str) → Fields → Option (Str × Str)
unfolding resolve_link_access resolve_share_access
resolve_watch db user_id request =
    let sub_path = string_field request "path" in
    let link = string_field request "link" in
    let share_id = string_field request "share" in
    if not (is_empty link)
    then watched (resolve_link_access link sub_path db)
    else if not (is_empty share_id) && not (is_empty user_id)
    then watched (resolve_share_access user_id share_id sub_path db)
    else none
