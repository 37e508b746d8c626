-- ===== src/Listing.antt =====
-- `fWalkWorkDir` of src/workspace.cpp, and the three handlers that answer with its listing: GET
-- /api/workspace, and of src/share.cpp GET /api/link/{token}/list and GET /api/shared/list. The walk
-- goes down the tree on fuel: one more than the length of the longest path in the tree.
pub mod Walk
pub mod Complete
mod Tests
use lectern_server.Prelude.{
  ℕ, zero, suc, Bool, true, false, not, ◌&&◌, Option, none, some, List, [], ◌∷◌, ◌++◌, map, leb,
  ◌==◌, if◌then◌else◌, Str, str_leb, length, is_empty, order_by, gather,
}
use lectern_server.Error.{AppError, Result, ok, err, bad_request, not_found, exception}
use lectern_server.Util.{to_lower}
use lectern_server.Json.{
  Json, Items, boolean, text, number, object, array, field, end, nil, to_items,
}
use lectern_server.Files.{FilePath, Node, Files, file, dir, strip, is_directory}
use lectern_server.Workspace.{user_root}
use lectern_server.Share.{Access, resolve_link_access, owner_full_path}
use lectern_server.Share.Shared.{access_for}
use lectern_server.World.{
  Env, World, M, pure, ◌>>=◌, ◌>>◌, lift, require, query, read_files, Request, Response,
  json_response, to_hex,
}

-- `fs::directory_iterator`: the names just below the folder, with what they are.
abbrev pub child_at : Option FilePath → Node → Option (Str × Node)
child_at (some (name ∷ [])) n = some (name, n)
child_at _ n = none

unfoldable pub children : FilePath → Files → List (Str × Node)
unfolding gather strip
children p fs = gather (λ e. child_at (strip p e.0) e.1) fs

pub record Entry : Type 0 where
  pub name : Str
  pub is_dir : Bool
  pub value : Json

abbrev pub rel_path_of : (rel_prefix name : Str) → Str
rel_path_of rel_prefix name = if is_empty rel_prefix then name else rel_prefix ++ b'/' ∷ name

abbrev pub listing_json : (name rel_path : Str) → Bool → ℕ → (hash : Str) → Items → Json
listing_json name rel_path is_dir modified hash below = object (
    field "name" (text name) (
      field "relPath" (text rel_path) (
        field "isDir" (boolean is_dir) (
          field "modified" (number modified)
            (field "hash" (text hash) (field "children" (array below) end))))))

abbrev pub folder_entry : (name rel_path : Str) → Items → Entry
folder_entry name rel_path below = record {
  name = name;
  is_dir = true;
  value = listing_json name rel_path true 0 [] below;
}

abbrev pub file_entry : Env → (name rel_path content : Str) → (modified : ℕ) → Entry
unfolding to_hex
file_entry env name rel_path content modified = record {
  name = name;
  is_dir = false;
  value = listing_json name rel_path false modified (to_hex (env.sha256 content)) nil;
}

abbrev pub is_dotfile : Str → Bool
is_dotfile [] = false
is_dotfile (c ∷ name) = c == b'.'

-- `none`: the fuel ran out.
abbrev pub Walked : Type 0 → Type 0
Walked A = Option (Result A)

abbrev pub push_back : Entry → Walked (List Entry) → Walked (List Entry)
push_back entry (some (ok entries)) = some (ok (entry ∷ entries))
push_back entry other = other

abbrev pub push_folder :
    (name rel_path : Str) → Walked Items → Walked (List Entry) → Walked (List Entry)
push_folder name rel_path (some (ok below)) rest = push_back (folder_entry name rel_path below) rest
push_folder name rel_path (some (err e)) rest = some (err e)
push_folder name rel_path none rest = none

-- The loop over the entries; `walk` is the recursive call.
unfoldable pub collect_entries :
    Env
    → (walk : (name rel_path : Str) → Walked Items) → (rel_prefix : Str) → List (Str × Node)
    → Walked (List Entry)
unfolding file_entry
collect_entries env walk rel_prefix [] = some (ok [])
collect_entries env walk rel_prefix ((name, dir) ∷ rest) =
    let rel_path = rel_path_of rel_prefix name in
    push_folder name rel_path (walk name rel_path) (collect_entries env walk rel_prefix rest)
collect_entries env walk rel_prefix ((name, file content modified) ∷ rest) =
    let more = collect_entries env walk rel_prefix rest in
    if is_dotfile name
    then more
    else push_back (file_entry env name (rel_path_of rel_prefix name) content modified) more

-- Folders first, then by the names in lower case. Names equal in lower case are in no specified order.
abbrev pub entry_before : Entry → Entry → Bool
unfolding to_lower str_leb
entry_before a b =
    if a.is_dir && not b.is_dir
    then true
    else if b.is_dir && not a.is_dir
    then false
    else str_leb (to_lower a.name) (to_lower b.name)

abbrev pub finished : Walked (List Entry) → Walked Items
unfolding order_by entry_before
finished (some (ok entries)) =
    some (ok (to_items (map (λ (e : Entry). e.value) (order_by entry_before entries))))
finished (some (err e)) = some (err e)
finished none = none

unfoldable pub walk_work_dir :
    (fuel : ℕ) → Env → Files → FilePath → (rel_prefix : Str) → Walked Items
unfolding children collect_entries finished is_directory
walk_work_dir zero env fs p rel_prefix = none
walk_work_dir (suc fuel) env fs p rel_prefix =
    let listing = finished (
      collect_entries env (λ name rel_path. walk_work_dir fuel env fs (p ++ name ∷ []) rel_path)
        rel_prefix (children p fs)) in
    if is_directory p fs then listing else some (err not_found)

-- The length of the longest path.
unfoldable pub deepest : Files → ℕ
deepest [] = 0
deepest ((p, n) ∷ fs) = let rest = deepest fs in if leb (length p) rest then rest else length p

abbrev pub returned : Walked Items → Result Items
returned none = err exception
returned (some r) = r

-- The whole walk.
unfoldable pub list_dir : Env → FilePath → Files → Result Items
unfolding walk_work_dir deepest
list_dir env p fs = returned (walk_work_dir (suc (deepest fs)) env fs p [])

-- GET /api/workspace.
unfoldable pub workspace_handler : Env → Request → M Response
unfolding user_root list_dir
workspace_handler env req = do
  user_id ← user_root env req
  listing ← read_files (list_dir env (user_id ∷ []))
  below ← lift listing
  pure (json_response (array below))

abbrev list_folder : Env → Access → AppError → M Response
unfolding owner_full_path is_directory list_dir
list_folder env access not_a_folder = do
  require access.is_dir not_a_folder
  full ← lift (owner_full_path access.owner_id access.rel_path)
  there ← read_files (is_directory full)
  require there not_found
  listing ← read_files (list_dir env full)
  below ← lift listing
  pure (json_response (array below))

-- GET /api/link/{token}/list.
unfoldable pub link_list_handler : Env → Request → (token : Str) → M Response
unfolding resolve_link_access list_folder
link_list_handler env req token = do
  resolved ← query (resolve_link_access token (req.parameter "path"))
  access ← lift resolved
  list_folder env access (bad_request "not a folder link")

-- GET /api/shared/list.
unfoldable pub shared_list_handler : Env → Request → M Response
unfolding access_for list_folder
shared_list_handler env req = do
  access ← access_for env req
  list_folder env access (bad_request "not a folder share")
