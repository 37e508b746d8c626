-- ===== src/Share/Grants.antt =====
-- The handlers /api/shares and /api/shares/{id} of src/share.cpp: an owner's shares, made and ended.
use lectern_server.Prelude.{
  Bool, false, not, ◌&&◌, Option, none, some, List, map, Str, str_eq, any, keep_if, order_by,
  str_leb, gather,
}
use lectern_server.Error.{AppError, bad_request, internal, not_found}
use lectern_server.Util.{trim, to_lower}
use lectern_server.Paths.{safe_rel_path}
use lectern_server.Json.{Json, text, boolean, object, array, field, end, to_items}
use lectern_server.Database.{
  Database, User, ShareRow, user_by_id, user_by_email, share_of, upsert_share, ends_share,
  delete_share,
}
use lectern_server.Auth.{current_user_id_with_headers, fresh_uuid}
use lectern_server.Share.{Perm, parse_perm, perm_str, require_entry_exists}
use lectern_server.World.{
  Env, M, pure, ◌>>=◌, ◌>>◌, lift, require, found, query, execute, execute_total, by_method,
  Request, Response, json_response, ok_response, required_query, json_body, json_string, json_bool,
}

abbrev share_json : (email : Str) → ShareRow → Json
share_json email s = object (
    field "id" (text s.id) (
      field "relPath" (text s.rel_path) (
        field "isDir" (boolean s.is_dir)
          (field "permission" (text s.permission) (field "email" (text email) end)))))

-- A share with its grantee's address; the join leaves out one without.
abbrev with_email : Option User → ShareRow → Option (Str × ShareRow)
with_email none s = none
with_email (some u) s = some (u.email, s)

abbrev shares_at : Str → Str → Database → List (Str × ShareRow)
shares_at owner_id rel db =
    order_by (λ a b. str_leb a.0 b.0)
      (gather (λ s. with_email (user_by_id db s.grantee_id) s)
        (keep_if (λ s. str_eq s.owner_id owner_id && str_eq s.rel_path rel) db.shares))

abbrev list_shares : Request → Str → M Response
unfolding required_query safe_rel_path str_eq order_by str_leb gather
list_shares req owner_id = do
  given ← lift (required_query req "path")
  rel ← lift (safe_rel_path given)
  rows ← query (shares_at owner_id rel)
  pure (json_response (array (to_items (map (λ r. share_json r.0 r.1) rows))))

abbrev bad_permission : AppError
bad_permission = bad_request "permission must be view, comment or edit"

-- The upsert, and the row's id read back.
abbrev grant_share : Env → (owner_id : Str) → User → (rel : Str) → Bool → Perm → M Response
unfolding upsert_share str_eq perm_str
grant_share env owner_id grantee rel is_dir perm = do
  execute (
      upsert_share (record {
        id = fresh_uuid env 0;
        owner_id = owner_id;
        grantee_id = grantee.id;
        rel_path = rel;
        is_dir = is_dir;
        permission = perm_str perm;
        created_at = env.now_ms;
      }))
  row ← query (λ db. share_of db owner_id grantee.id rel)
  actual ← found row (internal "share row vanished")
  pure (
      json_response (
        object (
          field "id" (text actual.id) (
            field "relPath" (text rel) (
              field "isDir" (boolean is_dir) (
                field "email" (text grantee.email)
                  (field "permission" (text (perm_str perm)) end)))))))

abbrev create_share : Env → Request → Str → M Response
unfolding grant_share parse_perm json_body json_string json_bool safe_rel_path require_entry_exists
    trim to_lower str_eq
create_share env req owner_id = do
  body ← lift (json_body env req)
  level ← lift (json_string body "permission")
  perm ← found (parse_perm level) bad_permission
  given ← lift (json_string body "relPath")
  rel ← lift (safe_rel_path given)
  let is_dir = json_bool body "isDir" false
  require_entry_exists owner_id rel is_dir
  given_email ← lift (json_string body "email")
  row ← query (λ db. user_by_email db (to_lower (trim given_email)))
  grantee ← found row (bad_request "no account with that email")
  require (not (str_eq grantee.id owner_id)) (bad_request "that's you — no need to share")
  grant_share env owner_id grantee rel is_dir perm

-- GET and POST /api/shares.
unfoldable pub shares_handler : Env → Request → M Response
unfolding list_shares create_share
shares_handler env req = do
  owner_id ← current_user_id_with_headers env req
  by_method req.method (list_shares req owner_id) (create_share env req owner_id)

-- DELETE /api/shares/{id}: the owner revokes it, or the grantee leaves.
unfoldable pub share_handler : Env → Request → (share_id : Str) → M Response
unfolding delete_share str_eq
share_handler env req share_id = do
  user_id ← current_user_id_with_headers env req
  affected ← query (λ db. any (ends_share share_id user_id) db.shares)
  execute_total (delete_share share_id user_id)
  require affected not_found
  pure ok_response
