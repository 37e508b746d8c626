-- ===== src/Workspace/Tests.antt =====
-- Tests of src/workspace.cpp on the sample server.
use lectern_server.Prelude.{
  ◌≡◌, ◌≢◌, refl, ap, Bool, true, false, str_eq, All, Str, bytes, strs_eq, if◌then◌else◌, some,
}
use lectern_server.Prelude.{none}
use lectern_server.Error.{Result, ok, err}
use lectern_server.Paths.{safe_rel_path}
use lectern_server.Files.{FilePath, file_content}
use lectern_server.Files.Laws.{SameFor}
use lectern_server.Util
use lectern_server.World
use lectern_server.World.{World}
use lectern_server.Auth
use lectern_server.Workspace.{file_handler, user_root}
use lectern_server.Workspace.Inside.{plain_path}
use lectern_server.Workspace.Isolation.{caller, workspace_handlers, workspace_handlers-SameFor}
use lectern_server.Workspace.Storing.{is_marked, file_handler-Stores}
use lectern_server.Files.{read_file}
use lectern_server.Workspace.{delete_file, path_in}
use lectern_server.Workspace.Removing.{delete_file-Marks}
use lectern_server.Files.{Node, node_at, remove}
use lectern_server.Sample.{sample_env, sample_world, sample_files, sample_put}

abbrev is_bob : Result Str → Bool
is_bob (ok id) = str_eq id (bytes "b")
is_bob (err e) = false

apart : false ≡ true → ⊥
apart e = cc

not_bob : caller sample_env sample_put sample_world ≢ ok (bytes "b")
unfolding Auth.current_user_id_with_headers World.after World.found str_eq
not_bob e = apart (ap is_bob e)

workspace_handlers-SameFor_example :
    All
      (λ h. SameFor (bytes "b") sample_files (h sample_env sample_put sample_world).1.files)
      workspace_handlers
workspace_handlers-SameFor_example =
    workspace_handlers-SameFor sample_env sample_put sample_world (bytes "b") not_bob

abbrev after_put : World
after_put = (file_handler sample_env sample_put sample_world).1

file_handler-Stores_example :
    (user_id : Str) × (rel : Str) × (caller sample_env sample_put sample_world ≡ ok user_id)
    × (safe_rel_path (bytes "d/x.mdp") ≡ ok rel)
    × (read_file (path_in user_id rel) after_put.files ≡ some (bytes "new"))
    × ((q : FilePath)
        → file_content q after_put.files ≡ (
            if strs_eq (path_in user_id rel) q
            then some (bytes "new")
            else file_content q sample_files))
    × (is_marked after_put.db user_id rel ≡ false)
unfolding file_handler user_root Auth.current_user_id_with_headers World.after World.found
    World.require World.change_files path_in
file_handler-Stores_example = file_handler-Stores sample_env sample_put sample_world refl refl

abbrev after_delete : World
after_delete =
    (delete_file sample_env (bytes "a") (bytes "d/x.mdp") (plain_path (bytes "a") (bytes "d/x.mdp"))
      sample_world).1

delete_file-Marks_example :
    ((n : Node) × (node_at (plain_path (bytes "a") (bytes "d/x.mdp")) sample_files ≡ some n))
    × (node_at (plain_path (bytes "a") (bytes "d/x.mdp")) after_delete.files ≡ none)
    × (is_marked after_delete.db (bytes "a") (bytes "d/x.mdp") ≡ true)
unfolding delete_file World.after World.change_files remove Util.split str_eq
delete_file-Marks_example =
    delete_file-Marks sample_env (bytes "a") (bytes "d/x.mdp") sample_world refl refl
