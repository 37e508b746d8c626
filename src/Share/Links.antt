-- ===== src/Share/Links.antt =====
-- The handlers /api/links, /api/links/{id} and /api/link/{token} of src/share.cpp: links, made and
-- ended by their owner, used by whoever has the token.
use lectern_server.Prelude.{
  Bool, false, ◌&&◌, List, map, leb, if◌then◌else◌, Str, str_eq, any, keep_if, order_by,
}
use lectern_server.Error.{AppError, bad_request, not_found}
use lectern_server.Util.{basename_of}
use lectern_server.Paths.{safe_rel_path, is_work_file}
use lectern_server.Json.{Json, text, boolean, object, array, field, end, to_items}
use lectern_server.Files.{is_directory, is_regular_file}
use lectern_server.Database.{Database, LinkRow, user_by_id, insert_link, ends_link, delete_link}
use lectern_server.Auth.{current_user_id_with_headers, fresh_uuid}
use lectern_server.Workspace.{device, stat_file}
use lectern_server.Share.{
  Perm, Access, parse_perm, perm_str, require_entry_exists, load_link, resolve_link_access,
  owner_full_path, read_through, write_through,
}
use lectern_server.World.{
  Env, M, pure, ◌>>=◌, ◌>>◌, lift, require, found, query, execute, execute_total, read_files,
  by_method, Request, Response, json_response, text_response, ok_response, required_query,
  json_body, json_string, json_bool,
}

abbrev link_json : LinkRow → Json
link_json l = object (
    field "id" (text l.id) (
      field "relPath" (text l.rel_path)
        (field "isDir" (boolean l.is_dir) (field "permission" (text l.permission) end))))

abbrev links_at : Str → Str → Database → List LinkRow
links_at owner_id rel db =
    order_by (λ a b. leb a.created_at b.created_at)
      (keep_if (λ l. str_eq l.owner_id owner_id && str_eq l.rel_path rel) db.share_links)

abbrev list_links : Request → Str → M Response
unfolding required_query safe_rel_path str_eq order_by
list_links req owner_id = do
  given ← lift (required_query req "path")
  rel ← lift (safe_rel_path given)
  rows ← query (links_at owner_id rel)
  pure (json_response (array (to_items (map link_json rows))))

abbrev bad_permission : AppError
bad_permission = bad_request "permission must be view, comment or edit"

-- The row id doubles as the URL's token.
abbrev pub new_link : Env → (owner_id rel : Str) → Bool → Perm → LinkRow
unfolding perm_str
new_link env owner_id rel is_dir perm = record {
  id = fresh_uuid env 0;
  owner_id = owner_id;
  rel_path = rel;
  is_dir = is_dir;
  permission = perm_str perm;
  created_at = env.now_ms;
}

abbrev create_link : Env → Request → Str → M Response
unfolding parse_perm perm_str json_body json_string json_bool safe_rel_path require_entry_exists
    insert_link str_eq
create_link env req owner_id = do
  body ← lift (json_body env req)
  level ← lift (json_string body "permission")
  perm ← found (parse_perm level) bad_permission
  given ← lift (json_string body "relPath")
  rel ← lift (safe_rel_path given)
  let is_dir = json_bool body "isDir" false
  require_entry_exists owner_id rel is_dir
  execute (insert_link (new_link env owner_id rel is_dir perm))
  pure (json_response (link_json (new_link env owner_id rel is_dir perm)))

-- GET and POST /api/links.
unfoldable pub links_handler : Env → Request → M Response
unfolding list_links create_link
links_handler env req = do
  owner_id ← current_user_id_with_headers env req
  by_method req.method (list_links req owner_id) (create_link env req owner_id)

-- DELETE /api/links/{id}.
unfoldable pub link_handler : Env → Request → (link_id : Str) → M Response
unfolding delete_link str_eq
link_handler env req link_id = do
  owner_id ← current_user_id_with_headers env req
  affected ← query (λ db. any (ends_link link_id owner_id) db.share_links)
  execute_total (delete_link link_id owner_id)
  require affected not_found
  pure ok_response

-- GET /api/link/{token}.
unfoldable pub visit_handler : (token : Str) → M Response
unfolding load_link str_eq owner_full_path is_directory is_regular_file basename_of
visit_handler token = do
  loaded ← query (load_link token)
  link ← lift loaded
  row ← query (λ db. user_by_id db link.owner_id)
  owner ← found row not_found
  full ← lift (owner_full_path link.owner_id link.rel_path)
  exists ← read_files (λ fs. if link.is_dir then is_directory full fs else is_regular_file full fs)
  pure (
      json_response (
        object (
          field "name" (text (basename_of link.rel_path)) (
            field "isDir" (boolean link.is_dir) (
              field "permission" (text link.permission)
                (field "ownerEmail" (text owner.email) (field "exists" (boolean exists) end)))))))

abbrev use_file : Env → Request → Access → M Response
unfolding read_through write_through
use_file env req access =
    by_method req.method (do content ← read_through access; pure (text_response content))
      (do write_through env access req.body (device req); pure ok_response)

-- GET and PUT /api/link/{token}/file.
unfoldable pub link_file_handler : Env → Request → (token : Str) → M Response
unfolding use_file resolve_link_access
link_file_handler env req token = do
  resolved ← query (resolve_link_access token (req.parameter "path"))
  access ← lift resolved
  use_file env req access

-- GET /api/link/{token}/stat.
unfoldable pub link_stat_handler : Env → Request → (token : Str) → M Response
unfolding resolve_link_access is_work_file owner_full_path stat_file
link_stat_handler env req token = do
  resolved ← query (resolve_link_access token (req.parameter "path"))
  access ← lift resolved
  require (is_work_file access.rel_path) (bad_request "not a work file")
  full ← lift (owner_full_path access.owner_id access.rel_path)
  answer ← read_files (stat_file env full)
  body ← lift answer
  pure (json_response body)
