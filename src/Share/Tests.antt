-- ===== src/Share/Tests.antt =====
-- Tests of src/share.cpp on the sample server.
use lectern_server.Prelude.{◌≡◌, refl, true, [], Str, bytes, strs_eq, if◌then◌else◌, some}
use lectern_server.Error.{ok}
use lectern_server.Paths.{is_work_file}
use lectern_server.Files.{FilePath, file_content}
use lectern_server.Database.{ShareRow, LinkRow, share_by_id, link_by_id}
use lectern_server.World
use lectern_server.World.{World}
use lectern_server.Workspace.{path_in}
use lectern_server.Share.{
  comment, edit, Access, CommentTarget, resolve_share_access, resolve_link_access,
  resolve_comment_target, write_through, owner_full_path,
}
use lectern_server.Share.Resolve.{Covers, resolve_share_access-Covers, resolve_link_access-Covers}
use lectern_server.Share.Targets.{MayUse, resolve_comment_target-MayUse}
use lectern_server.Share.Writing.{write_through-Writes}
use lectern_server.Sample.{sample_env, sample_world, sample_files, sample_db}

abbrev bobs_access : Access
bobs_access = record {
  owner_id = bytes "a";
  rel_path = bytes "d/x.mdp";
  is_dir = true;
  permission = edit;
}

resolve_share_access-Covers_example :
    (s : ShareRow) × (share_by_id sample_db (bytes "h") ≡ some s)
    × (s.grantee_id ≡ bytes "b")
    × Covers s.owner_id s.rel_path s.permission (bytes "x.mdp") s.is_dir bobs_access
unfolding resolve_share_access
resolve_share_access-Covers_example =
    resolve_share_access-Covers (bytes "b") (bytes "h") (bytes "x.mdp") sample_db refl

resolve_link_access-Covers_example :
    (l : LinkRow) × (link_by_id sample_db (bytes "l") ≡ some l)
    × Covers l.owner_id l.rel_path l.permission
        (bytes "x.mdp")
        l.is_dir
        (record bobs_access { permission = comment })
unfolding resolve_link_access
resolve_link_access-Covers_example =
    resolve_link_access-Covers (bytes "l") (bytes "x.mdp") sample_db refl

abbrev by_link : CommentTarget
by_link = record { path = []; share = []; link = bytes "l"; sub_path = bytes "x.mdp" }

resolve_comment_target-MayUse_example :
    MayUse sample_db (some (bytes "b")) by_link comment (bytes "a") (bytes "d/x.mdp")
unfolding resolve_comment_target
resolve_comment_target-MayUse_example =
    resolve_comment_target-MayUse (some (bytes "b")) by_link comment sample_db refl

abbrev after_write : World
after_write = (write_through sample_env bobs_access (bytes "new") [] sample_world).1

write_through-Writes_example :
    (bobs_access.permission ≡ edit)
    × (is_work_file (bytes "d/x.mdp") ≡ true)
    × ((p : FilePath) × (owner_full_path (bytes "a") (bytes "d/x.mdp") ≡ ok p)
        × ((old : Str) × (file_content p sample_files ≡ some old))
        × ((q : FilePath)
            → file_content q after_write.files
              ≡ (if strs_eq p q then some (bytes "new") else file_content q sample_files)))
    × (after_write.db ≡ sample_db)
unfolding write_through World.after World.require World.change_files path_in
write_through-Writes_example =
    write_through-Writes sample_env bobs_access (bytes "new") [] sample_world refl
