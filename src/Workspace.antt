-- ===== src/Workspace.antt =====
-- The handlers below /api/workspace of src/workspace.cpp; that of the listing is in Listing.
-- A path of the file tree starts with the user's id, the name of the workspace.
pub mod Inside
pub mod Isolation
pub mod Storing
pub mod Removing
mod Tests
use Prim.Native.String
use lectern_server.Prelude.{
  ℕ, ◌+◌, ◌*◌, ◌/◌, ◌%◌, String, Bool, true, false, not, ◌&&◌, Option, none, some, List, [], ◌∷◌,
  ◌++◌, map, ltb, leb, ◌==◌, if◌then◌else◌, Str, bytes, str_eq, is_empty, drop, length, keep_if,
  zero, suc,
}
use lectern_server.Error.{AppError, Result, ok, err, bad_request, internal, not_found, exception}
use lectern_server.Util.{split}
use lectern_server.Paths.{safe_rel_path}
use lectern_server.Json.{Json, Items, text, number, object, array, field, end, to_items}
use lectern_server.Files.{
  resolve, FilePath, Node, Files, file, find_node, node_at, or_same, parent_path, is_directory,
  is_regular_file, create_directories, write_file_atomic, remove, remove_all, rename, read_file,
  collect_files_under, check_quota,
}
use lectern_server.Database.{Database, Tombstone, upsert_tombstone, delete_tombstone}
use lectern_server.Auth.{current_user_id_with_headers}
use lectern_server.World.{
  Env, World, M, pure, throw, after, ◌>>=◌, ◌>>◌, lift, require, found, query, execute_total,
  read_files, change_files, notify_changes, by_method, Request, Response, json_response,
  text_response, ok_response, required_query, query_bool, json_body, json_string, to_hex,
}

-- `root / rel` for the workspace of `user_id`.
unfoldable pub path_in : Str → Str → FilePath
unfolding resolve split
path_in user_id rel = resolve (user_id ∷ []) (split rel b'/')

abbrev or_old : Database → Option Database → Database
or_old db none = db
or_old db (some new) = new

-- `fRecordTombstone`: a statement that fails changes nothing, and nobody hears of it.
unfoldable pub record_tombstone : Env → Str → Str → Database → Database
unfolding upsert_tombstone str_eq
record_tombstone env user_id rel_path db = or_old db (
    upsert_tombstone (record { user_id = user_id; rel_path = rel_path; deleted_at = env.now_ms })
      db)

-- `fClearTombstone`.
unfoldable pub clear_tombstone : Str → Str → Database → Database
unfolding delete_tombstone str_eq
clear_tombstone user_id rel_path db = delete_tombstone user_id rel_path db

unfoldable pub record_tombstones : Env → Str → List Str → Database → Database
unfolding record_tombstone
record_tombstones env user_id [] db = db
record_tombstones env user_id (rel ∷ rest) db =
    record_tombstones env user_id rest (record_tombstone env user_id rel db)

abbrev make_root : Str → M (Unit {0})
unfolding create_directories
make_root user_id w =
    (ok tt, record w { files = or_same w.files (create_directories (user_id ∷ []) w.files) })

-- `fUserRoot`, with the user's id.
unfoldable pub user_root : Env → Request → M Str
unfolding make_root
user_root env req = do
  user_id ← current_user_id_with_headers env req
  make_root user_id
  pure user_id

-- Decimal digits of a message's number.
abbrev pub digit : ℕ → String
digit d =
    if d == 0
    then "0"
    else if d == 1
    then "1"
    else if d == 2
    then "2"
    else if d == 3
    then "3"
    else if d == 4
    then "4"
    else if d == 5
    then "5"
    else if d == 6
    then "6"
    else if d == 7
    then "7"
    else if d == 8
    then "8"
    else "9"

abbrev pub decimal : (fuel : ℕ) → ℕ → String
decimal zero n = ""
decimal (suc fuel) n =
    let rest = decimal fuel (n / 10) in
    if ltb n 10 then digit n else String.◌++◌ rest (digit (n % 10))

abbrev pub megabytes : ℕ → String
megabytes n = decimal 20 (n / (1024 * 1024))

abbrev pub file_is_too_large : Env → AppError
file_is_too_large env =
    bad_request (
      String.◌++◌ "file is too large ("
        (String.◌++◌ (megabytes env.max_work_file_bytes) " MB max)"))

abbrev pub workspace_is_full : Env → AppError
workspace_is_full env = bad_request (
    String.◌++◌ "workspace is full ("
      (String.◌++◌ (megabytes env.workspace_quota_bytes) " MB max) — delete something first"))

-- `fCheckQuota` as the handlers call it.
unfoldable pub require_quota : Env → (root : Str) → FilePath → (incoming : ℕ) → M (Unit {0})
unfolding check_quota
require_quota env root path incoming = do
  fits ← read_files (check_quota env.workspace_quota_bytes (root ∷ []) path incoming)
  require fits (workspace_is_full env)

-- The `x-lectern-device` header.
abbrev pub device : Request → Str
device req = req.header "x-lectern-device"

abbrev get_file : FilePath → M Response
unfolding read_file
get_file path = do
  content ← read_files (read_file path)
  bytes_read ← found content not_found
  pure (text_response bytes_read)

abbrev put_file : Env → Request → (user_id rel : Str) → M Response
unfolding require_quota split check_quota write_file_atomic clear_tombstone notify_changes
put_file env req user_id rel = do
  let path = path_in user_id rel
  require (leb (length req.body) env.max_work_file_bytes) (file_is_too_large env)
  require_quota env user_id path (length req.body)
  change_files exception (write_file_atomic path req.body env.now_ms)
  execute_total (clear_tombstone user_id rel)
  notify_changes user_id (rel ∷ []) (device req)
  pure ok_response

-- GET and PUT /api/workspace/file.
unfoldable pub file_handler : Env → Request → M Response
unfolding put_file get_file user_root required_query safe_rel_path split
file_handler env req = do
  user_id ← user_root env req
  given ← lift (required_query req "path")
  rel ← lift (safe_rel_path given)
  by_method req.method (get_file (path_in user_id rel)) (put_file env req user_id rel)

-- POST /api/workspace/folder.
unfoldable pub folder_handler : Env → Request → M Response
unfolding user_root json_body json_string safe_rel_path split create_directories notify_changes
folder_handler env req = do
  user_id ← user_root env req
  body ← lift (json_body env req)
  given ← lift (json_string body "relPath")
  rel ← lift (safe_rel_path given)
  change_files (internal "Not a directory") (create_directories (path_in user_id rel))
  notify_changes user_id [] (device req)
  pure ok_response

abbrev delete_folder : Env → (user_id rel : Str) → FilePath → M (Unit {0})
unfolding collect_files_under remove_all record_tombstones
delete_folder env user_id rel path = do
  inside ← read_files (collect_files_under path rel)
  change_files not_found (remove_all path)
  execute_total (record_tombstones env user_id inside)

abbrev pub delete_file : Env → (user_id rel : Str) → FilePath → M (Unit {0})
unfolding remove record_tombstone
delete_file env user_id rel path = do
  change_files not_found (remove path)
  execute_total (record_tombstone env user_id rel)

-- DELETE /api/workspace/entry.
unfoldable pub entry_handler : Env → Request → M Response
unfolding delete_folder delete_file user_root required_query safe_rel_path split query_bool
    notify_changes
entry_handler env req = do
  user_id ← user_root env req
  given ← lift (required_query req "path")
  rel ← lift (safe_rel_path given)
  let path = path_in user_id rel
  let is_dir = query_bool req "isDir"
  if is_dir then delete_folder env user_id rel path else delete_file env user_id rel path
  notify_changes user_id (if is_dir then [] else rel ∷ []) (device req)
  pure ok_response

-- The tombstones of a move: `from` and `to` are the keys, `moved` the files' old ones.
unfoldable pub retarget : Env → (user_id from to : Str) → List Str → Database → Database
unfolding record_tombstone clear_tombstone
retarget env user_id from to [] db = db
retarget env user_id from to (rel ∷ rest) db =
    let dest = to ++ drop (length from) rel in
    retarget env user_id from to rest
      (clear_tombstone user_id dest (record_tombstone env user_id rel db))

-- `create_directories(parent, ec)`, whose failure is passed over.
abbrev make_parent : FilePath → M (Unit {0})
unfolding create_directories parent_path
make_parent path w =
    (ok tt, record w { files = or_same w.files (create_directories (parent_path path) w.files) })

-- POST /api/workspace/move.
unfoldable pub move_handler : Env → Request → M Response
unfolding make_parent user_root json_body json_string safe_rel_path split is_directory
    collect_files_under rename retarget notify_changes
move_handler env req = do
  user_id ← user_root env req
  body ← lift (json_body env req)
  given_from ← lift (json_string body "from")
  from_key ← lift (safe_rel_path given_from)
  given_to ← lift (json_string body "to")
  to_key ← lift (safe_rel_path given_to)
  let from = path_in user_id from_key
  let to = path_in user_id to_key
  was_dir ← read_files (is_directory from)
  inside ← read_files (collect_files_under from from_key)
  make_parent to
  change_files not_found (rename from to)
  execute_total (retarget env user_id from_key to_key (if was_dir then inside else from_key ∷ []))
  notify_changes user_id (if was_dir then [] else from_key ∷ to_key ∷ []) (device req)
  pure ok_response

abbrev tombstone_json : Tombstone → Json
tombstone_json t =
    object (field "relPath" (text t.rel_path) (field "deletedAt" (number t.deleted_at) end))

-- GET /api/workspace/deleted; the rows are in no specified order.
unfoldable pub deleted_handler : Env → Request → M Response
unfolding user_root str_eq
deleted_handler env req = do
  user_id ← user_root env req
  rows ← query (λ db. keep_if (λ t. str_eq t.user_id user_id) db.deleted_files)
  pure (json_response (array (to_items (map tombstone_json rows))))

abbrev stat_json : Env → Option Node → Result Json
stat_json env (some (file content modified)) = ok (
    object
      (field "modified" (number modified) (field "hash" (text (to_hex (env.sha256 content))) end)))
stat_json env _ = err not_found

-- `fStatFile`.
unfoldable pub stat_file : Env → FilePath → Files → Result Json
unfolding node_at to_hex
stat_file env path fs = stat_json env (node_at path fs)

-- GET /api/workspace/stat.
unfoldable pub stat_handler : Env → Request → M Response
unfolding user_root required_query safe_rel_path split stat_file
stat_handler env req = do
  user_id ← user_root env req
  given ← lift (required_query req "path")
  rel ← lift (safe_rel_path given)
  answer ← read_files (stat_file env (path_in user_id rel))
  body ← lift answer
  pure (json_response body)
