-- ===== src/Files/Tests.antt =====
-- Tests of the file operations of src/workspace.cpp and src/util.cpp.
use lectern_server.Prelude.{
  ℕ, ◌≡◌, ◌≢◌, ◌≤◌, refl, [], ◌∷◌, bytes, some, strs_eq, if◌then◌else◌, arith,
}
use lectern_server.Files.{
  FilePath, Files, file, dir, node_at, put_node, dir_size_bytes, check_quota, write_file_atomic,
  FilePath, read_file, file_content, is_under,
}
use lectern_server.Files.Quota.{overwrite_within_quota}
use lectern_server.Files.Reading.{read_file-write_file_atomic}
use Prim.Native.Nat.{max}

abbrev root : FilePath
root = bytes "a" ∷ []

abbrev target : FilePath
target = bytes "a" ∷ bytes "x" ∷ []

abbrev tree : Files
tree = (root, dir) ∷ (target, file (bytes "hi") 0) ∷ []

target_named : target ≢ []
target_named e = cc

quota_is_on : ◌≢◌ {A = ℕ} 4 0
quota_is_on e = cc

overwrite_within_quota_example :
    dir_size_bytes root (put_node target (file (bytes "new") 1) tree)
    ≤ max 4 (dir_size_bytes root tree)
unfolding node_at is_under dir_size_bytes check_quota
overwrite_within_quota_example =
    overwrite_within_quota 4 root target (bytes "new") (bytes "hi") 1 0 tree target_named refl refl
      (omega arith) quota_is_on refl

abbrev after_write : Files
after_write = (target, file (bytes "new") 1) ∷ []

read_file-write_file_atomic_example :
    (read_file target ((root, dir) ∷ after_write) ≡ some (bytes "new"))
    × ((q : FilePath)
        → file_content q ((root, dir) ∷ after_write)
          ≡ (if strs_eq target q then some (bytes "new") else file_content q tree))
unfolding write_file_atomic
read_file-write_file_atomic_example =
    read_file-write_file_atomic target (bytes "new") 1 tree ((root, dir) ∷ after_write) refl refl
