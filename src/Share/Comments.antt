-- ===== src/Share/Comments.antt =====
-- The handlers /api/comments and /api/comments/{id} of src/share.cpp.
use lectern_server.Prelude.{
  ℕ, ◌*◌, Bool, true, false, not, ◌&&◌, Option, none, some, List, [], map, leb, if◌then◌else◌, Str,
  bytes, str_eq, any, keep_if, is_empty, length, order_by,
}
use lectern_server.Error.{AppError, bad_request, not_found, too_many_requests}
use lectern_server.Util.{trim}
use lectern_server.Paths.{is_work_file}
use lectern_server.Limiter.{seconds}
use lectern_server.Json.{
  Json, Fields, null, text, number, boolean, object, array, field, end, to_items,
}
use lectern_server.Files.{is_regular_file}
use lectern_server.Database.{
  Database, User, CommentRow, user_by_id, insert_comment, is_author, ends_comment, delete_comment,
}
use lectern_server.Auth.{current_user_id_with_headers, optional_user_id, fresh_uuid}
use lectern_server.Share.{
  view, comment, target_from_query, target_from_body, resolve_comment_target, owner_full_path,
}
use lectern_server.World.{
  Env, M, pure, ◌>>=◌, ◌>>◌, lift, require, query, execute, execute_total, read_files,
  is_limited_now, record_now, by_method, Request, Response, json_response, ok_response, json_body,
  json_string, json_string_or, client_ip,
}

abbrev pub max_comment_len : ℕ
max_comment_len = 4000

abbrev pub max_anchor_len : ℕ
max_anchor_len = 2000

abbrev pub comment_limit : ℕ
comment_limit = 20

abbrev pub comment_window : ℕ
comment_window = seconds (10 * 60)

abbrev or_null : Option Str → Json
or_null none = null
or_null (some s) = text s

abbrev email_of : Option User → Option Str
email_of none = none
email_of (some u) = some u.email

-- The left join's address: none for an author who has none.
abbrev author_email : Database → Option Str → Option Str
author_email db none = none
author_email db (some id) = email_of (user_by_id db id)

abbrev is_mine : Option Str → Option Str → Bool
is_mine author_id none = false
is_mine author_id (some user_id) = is_author author_id user_id

abbrev comment_json :
    (id : Str) → Option Str → (body : Str) → (created_at : ℕ) → Bool → Option Str → Json
comment_json id email body created_at mine anchor = object (
    field "id" (text id) (
      field "authorEmail" (or_null email) (
        field "body" (text body) (
          field "createdAt" (number created_at)
            (field "mine" (boolean mine) (field "anchor" (or_null anchor) end))))))

abbrev row_json : Option Str → Database → CommentRow → Json
row_json user_id db c =
    comment_json c.id (author_email db c.author_id) c.body c.created_at
      (is_mine c.author_id user_id) c.anchor

abbrev comments_on : Str → Str → Database → List CommentRow
comments_on owner_id rel_path db =
    order_by (λ a b. leb a.created_at b.created_at)
      (keep_if (λ c. str_eq c.owner_id owner_id && str_eq c.rel_path rel_path) db.comments)

abbrev only_on_work_files : AppError
only_on_work_files = bad_request "comments are only available on work files"

abbrev list_comments : Request → Option Str → M Response
unfolding resolve_comment_target is_work_file str_eq order_by
list_comments req user_id = do
  resolved ← query (resolve_comment_target user_id (target_from_query req) view)
  target ← lift resolved
  require (is_work_file target.1) only_on_work_files
  items ← query (λ db. map (row_json user_id db) (comments_on target.0 target.1 db))
  pure (json_response (array (to_items items)))

-- The lid on anonymous posting.
abbrev pub limit_anonymous : Env → Request → Option Str → M (Unit {0})
unfolding client_ip
limit_anonymous env req (some user_id) = pure tt
limit_anonymous env req none = do
  let ip = client_ip env req
  limited ← is_limited_now env ip (bytes "anon-comment") comment_limit comment_window
  require (not limited) too_many_requests
  record_now env ip (bytes "anon-comment") comment_window

abbrev non_empty : Str → Option Str
non_empty s = if is_empty s then none else some s

abbrev is_some : Option Str → Bool
is_some none = false
is_some (some s) = true

-- From the text on: the checks, the file's presence, the insertion and the answer.
abbrev pub post_on : Env → Option Str → Fields → (owner_id rel_path : Str) → M Response
unfolding trim json_string json_string_or owner_full_path is_regular_file insert_comment str_eq
post_on env user_id body owner_id rel_path = do
  given ← lift (json_string body "body")
  let content = trim given
  require (not (is_empty content)) (bad_request "empty comment")
  require (leb (length content) max_comment_len) (bad_request "comment too long")
  let anchor = json_string_or body "anchor" []
  require (leb (length anchor) max_anchor_len) (bad_request "anchor too large")
  full ← lift (owner_full_path owner_id rel_path)
  present ← read_files (is_regular_file full)
  require present not_found
  execute (
      insert_comment (record {
        id = fresh_uuid env 0;
        owner_id = owner_id;
        rel_path = rel_path;
        author_id = user_id;
        body = content;
        created_at = env.now_ms;
        anchor = non_empty anchor;
      }))
  email ← query (λ db. author_email db user_id)
  pure (
      json_response (
        comment_json (fresh_uuid env 0) email content env.now_ms (is_some user_id)
          (non_empty anchor)))

abbrev post_comment : Env → Request → Option Str → M Response
unfolding post_on limit_anonymous json_body target_from_body resolve_comment_target is_work_file
post_comment env req user_id = do
  body ← lift (json_body env req)
  limit_anonymous env req user_id
  resolved ← query (resolve_comment_target user_id (target_from_body body) comment)
  target ← lift resolved
  require (is_work_file target.1) only_on_work_files
  post_on env user_id body target.0 target.1

-- GET and POST /api/comments.
unfoldable pub comments_handler : Env → Request → M Response
unfolding list_comments post_comment optional_user_id
comments_handler env req = do
  user_id ← optional_user_id env req
  by_method req.method (list_comments req user_id) (post_comment env req user_id)

-- DELETE /api/comments/{id}: by its author or the file's owner.
unfoldable pub comment_handler : Env → Request → (comment_id : Str) → M Response
unfolding delete_comment str_eq
comment_handler env req comment_id = do
  user_id ← current_user_id_with_headers env req
  affected ← query (λ db. any (ends_comment comment_id user_id) db.comments)
  execute_total (delete_comment comment_id user_id)
  require affected not_found
  pure ok_response
