-- ===== src/Share/Shared.antt =====
-- The handlers below /api/shared of src/share.cpp: what a grantee sees of, reads and writes through
-- the shares with them.
use lectern_server.Prelude.{
  Bool, Option, none, some, List, [], ◌∷◌, if◌then◌else◌, Str, str_eq, keep_if, order_by, str_leb,
  gather,
}
use lectern_server.Error.{Result, ok, ◌>>=◌ as ◌>>=ᵣ◌, bad_request}
use lectern_server.Util.{basename_of}
use lectern_server.Paths.{is_work_file}
use lectern_server.Json.{Json, text, boolean, object, array, field, end, to_items}
use lectern_server.Files.{FilePath, Files, is_directory, is_regular_file}
use lectern_server.Database.{Database, User, ShareRow, user_by_id}
use lectern_server.Auth.{current_user_id_with_headers}
use lectern_server.Workspace.{device, stat_file}
use lectern_server.Share.{
  Access, resolve_share_access, owner_full_path, read_through, write_through,
}
use lectern_server.World.{
  Env, M, pure, ◌>>=◌, ◌>>◌, lift, require, query, read_files, by_method, Request, Response,
  json_response, text_response, ok_response, required_query,
}

abbrev with_owner : Option User → ShareRow → Option (Str × ShareRow)
with_owner none s = none
with_owner (some u) s = some (u.email, s)

-- `ORDER BY u.email, s.rel_path`.
abbrev comes_first : Str × ShareRow → Str × ShareRow → Bool
unfolding str_eq str_leb
comes_first a b = if str_eq a.0 b.0 then str_leb a.1.rel_path b.1.rel_path else str_leb a.0 b.0

abbrev shared_with : Str → Database → List (Str × ShareRow)
unfolding str_eq str_leb order_by gather
shared_with user_id db = order_by comes_first (
    gather (λ s. with_owner (user_by_id db s.owner_id) s)
      (keep_if (λ s. str_eq s.grantee_id user_id) db.shares))

abbrev exists_at : Bool → FilePath → Files → Bool
unfolding is_directory is_regular_file
exists_at is_dir full fs = if is_dir then is_directory full fs else is_regular_file full fs

abbrev shared_json : Files → Str → ShareRow → FilePath → Json
unfolding exists_at basename_of
shared_json fs owner_email s full = object (
    field "shareId" (text s.id) (
      field "ownerEmail" (text owner_email) (
        field "name" (text (basename_of s.rel_path)) (
          field "isDir" (boolean s.is_dir) (
            field "permission" (text s.permission)
              (field "exists" (boolean (exists_at s.is_dir full fs)) end))))))

-- The loop over the rows; a path that is refused ends it.
shared_items : Files → List (Str × ShareRow) → Result (List Json)
unfolding shared_json owner_full_path
shared_items fs [] = ok []
shared_items fs ((email, s) ∷ rows) = owner_full_path s.owner_id s.rel_path >>=ᵣ λ full.
    shared_items fs rows >>=ᵣ λ rest. ok (shared_json fs email s full ∷ rest)

-- GET /api/shared.
unfoldable pub shared_handler : Env → Request → M Response
unfolding shared_with shared_items
shared_handler env req = do
  user_id ← current_user_id_with_headers env req
  rows ← query (shared_with user_id)
  listed ← read_files (λ fs. shared_items fs rows)
  items ← lift listed
  pure (json_response (array (to_items items)))

-- What the handlers of one shared entry begin with.
unfoldable pub access_for : Env → Request → M Access
unfolding required_query resolve_share_access
access_for env req = do
  user_id ← current_user_id_with_headers env req
  share_id ← lift (required_query req "share")
  resolved ← query (resolve_share_access user_id share_id (req.parameter "path"))
  lift resolved

-- GET and PUT /api/shared/file.
unfoldable pub shared_file_handler : Env → Request → M Response
unfolding access_for read_through write_through
shared_file_handler env req = do
  access ← access_for env req
  by_method req.method (do content ← read_through access; pure (text_response content))
      (do write_through env access req.body (device req); pure ok_response)

-- GET /api/shared/stat.
unfoldable pub shared_stat_handler : Env → Request → M Response
unfolding access_for is_work_file owner_full_path stat_file
shared_stat_handler env req = do
  access ← access_for env req
  require (is_work_file access.rel_path) (bad_request "not a work file")
  full ← lift (owner_full_path access.owner_id access.rel_path)
  answer ← read_files (stat_file env full)
  body ← lift answer
  pure (json_response body)
