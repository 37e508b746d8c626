-- ===== src/Files.antt =====
-- The file tree below the workspaces directory, as src/workspace.cpp, src/share.cpp and `fWriteFileAtomic`
-- of src/util.cpp use std::filesystem on a POSIX system. A path is its segments; a workspace is the
-- folder named by its user's id. Symbolic links, permissions and failing disks are not modelled.
pub mod Laws
pub mod Reading
mod Tests
pub mod Quota
use lectern_server.Prelude.{
  ℕ, ◌+◌, ◌-◌, ◌*◌, ◌/◌, ◌%◌, Bool, true, false, not, ◌&&◌, ◌||◌, Option, none, some, List, [], ◌∷◌,
  ◌++◌, map, ltb, leb, ◌==◌, if◌then◌else◌, Str, bytes, str_eq, strs_eq, length, is_empty, any,
  keep_if,
}
use lectern_server.Error.{AppError, Result, ok, err, not_found, bad_request}
use lectern_server.Paths.{join}

abbrev pub FilePath : Type 0
FilePath = List Str

pub data Node : Type 0 where
  file : (content : Str) → (modified : ℕ) → Node
  dir : Node

abbrev pub Files : Type 0
Files = List (FilePath × Node)

unfoldable pub find_node : FilePath → Files → Option Node
find_node p [] = none
find_node p ((q, n) ∷ rest) = if strs_eq q p then some n else find_node p rest

-- The workspaces directory itself is always there.
unfoldable pub node_at : FilePath → Files → Option Node
unfolding find_node strs_eq str_eq
node_at p fs = if is_empty p then some dir else find_node p fs

pub put_node : FilePath → Node → Files → Files
unfolding strs_eq str_eq
put_node p n [] = (p, n) ∷ []
put_node p n ((q, old) ∷ rest) = if strs_eq q p then (p, n) ∷ rest else (q, old) ∷ put_node p n rest

-- What is left of `q` behind the folder `p`.
unfoldable pub strip : FilePath → FilePath → Option FilePath
strip [] q = some q
strip (a ∷ p) [] = none
strip (a ∷ p) (b ∷ q) = if str_eq a b then strip p q else none

abbrev is_inside : Option FilePath → Bool
is_inside none = false
is_inside (some []) = false
is_inside (some (s ∷ rest)) = true

abbrev is_some : Option FilePath → Bool
is_some none = false
is_some (some rest) = true

pub is_under : FilePath → FilePath → Bool
unfolding strip
is_under p q = is_inside (strip p q)

pub is_at_or_under : FilePath → FilePath → Bool
unfolding strip
is_at_or_under p q = is_some (strip p q)

pub has_children : FilePath → Files → Bool
unfolding is_under
has_children p fs = any (λ e. is_under p e.0) fs

abbrev pub dir_test : Option Node → Bool
dir_test (some dir) = true
dir_test _ = false

abbrev pub file_test : Option Node → Bool
file_test (some (file content modified)) = true
file_test _ = false

-- With an `error_code`, both tests are false and set the code where nothing is there.
unfoldable pub is_directory : FilePath → Files → Bool
unfolding node_at
is_directory p fs = dir_test (node_at p fs)

unfoldable pub is_regular_file : FilePath → Files → Bool
unfolding node_at
is_regular_file p fs = file_test (node_at p fs)

-- `fs::create_directories(done / rest, ec)`; `none` where the code is set.
pub make_folders : FilePath → FilePath → Files → Option Files
unfolding node_at put_node
make_folders done [] fs = some fs
make_folders done (s ∷ rest) fs = elim (node_at (done ++ s ∷ []) fs) [
  | none ↦ make_folders (done ++ s ∷ []) rest (put_node (done ++ s ∷ []) dir fs)
  | some (file content modified) ↦ none
  | some dir ↦ make_folders (done ++ s ∷ []) rest fs
]

unfoldable pub create_directories : FilePath → Files → Option Files
unfolding make_folders
create_directories p fs = make_folders [] p fs

abbrev pub or_same : Files → Option Files → Files
or_same fs none = fs
or_same fs (some gs) = gs

unfoldable pub parent_path : FilePath → FilePath
parent_path [] = []
parent_path (s ∷ []) = []
parent_path (s ∷ t ∷ rest) = s ∷ parent_path (t ∷ rest)

-- Where the segments lead from a folder: "." and an empty one stay, ".." goes up.
unfoldable pub resolve : FilePath → List Str → FilePath
unfolding parent_path str_eq
resolve done [] = done
resolve done (s ∷ rest) =
    let stay = resolve done rest in
    let up = resolve (parent_path done) rest in
    let down = resolve (done ++ s ∷ []) rest in
    if is_empty s || str_eq s (bytes ".") then stay else if str_eq s (bytes "..") then up else down

-- `fWriteFileAtomic`: the temporary file is renamed over `p`; where `p` is a folder the rename
-- fails, and the fallback removes it first, which works on an empty folder only. `none` stands for
-- the exception.
abbrev replaced : FilePath → Node → Files → Option Node → Option Files
replaced p n fs (some dir) = if has_children p fs then none else some (put_node p n fs)
replaced p n fs _ = some (put_node p n fs)

unfoldable pub write_file_atomic : FilePath → Str → ℕ → Files → Option Files
unfolding create_directories is_directory put_node has_children parent_path
write_file_atomic p content now fs =
    let gs = or_same fs (create_directories (parent_path p) fs) in
    if is_directory (parent_path p) gs
    then replaced p (file content now) gs (node_at p gs)
    else none

pub erase_node : FilePath → Files → Files
erase_node p fs = keep_if (λ e. not (strs_eq e.0 p)) fs

-- `!fs::remove(p, ec) || ec` as `none`.
unfoldable pub remove : FilePath → Files → Option Files
unfolding erase_node node_at has_children
remove p fs = elim (node_at p fs) [
  | none ↦ none
  | some (file content modified) ↦ some (erase_node p fs)
  | some dir ↦ if has_children p fs then none else some (erase_node p fs)
]

pub erase_under : FilePath → Files → Files
unfolding is_at_or_under
erase_under p fs = keep_if (λ e. not (is_at_or_under p e.0)) fs

-- `fs::remove_all(p, ec) == 0 || ec` as `none`.
unfoldable pub remove_all : FilePath → Files → Option Files
unfolding erase_under node_at
remove_all p fs = elim (node_at p fs) [ none ↦ none | some n ↦ some (erase_under p fs) ]

abbrev rebased : FilePath → FilePath → Option FilePath → FilePath
rebased q to none = q
rebased q to (some rest) = to ++ rest

pub rebase : FilePath → FilePath → Files → Files
unfolding strip
rebase from to fs = map (λ e. (rebased e.0 to (strip from e.0), e.1)) fs

-- Whether `::rename` may put a node of this kind where `there` stands.
abbrev may_replace : Node → Option Node → Bool → Bool
may_replace n none occupied = true
may_replace (file c m) (some (file d k)) occupied = true
may_replace (file c m) (some dir) occupied = false
may_replace dir (some (file d k)) occupied = false
may_replace dir (some dir) occupied = not occupied

-- `fs::rename(from, to, ec)`; `none` where the code is set.
abbrev rename_node : FilePath → FilePath → Files → Node → Option Files
rename_node from to fs n =
    if strs_eq from to
    then some fs
    else if is_under from to || not (is_directory (parent_path to) fs)
    then none
    else if may_replace n (node_at to fs) (has_children to fs)
    then some (rebase from to (erase_node to fs))
    else none

unfoldable pub rename : FilePath → FilePath → Files → Option Files
unfolding node_at is_under is_directory has_children parent_path rebase erase_node strs_eq str_eq
rename from to fs = elim (node_at from fs) [ none ↦ none | some n ↦ rename_node from to fs n ]

abbrev pub size_of : Node → ℕ
size_of (file content modified) = length content
size_of dir = 0

-- `fDirSizeBytes`.
pub dir_size_bytes : FilePath → Files → ℕ
unfolding is_under
dir_size_bytes p [] = 0
dir_size_bytes p ((q, n) ∷ rest) =
    if is_under p q then size_of n + dir_size_bytes p rest else dir_size_bytes p rest

abbrev collected : Str → Node → Option FilePath → List Str → List Str
collected prefix (file c m) (some (s ∷ rest)) out =
    (if is_empty prefix then join (s ∷ rest) else prefix ++ b'/' ∷ join (s ∷ rest)) ∷ out
collected prefix _ _ out = out

-- `fCollectFilesUnder`; the order of a directory's entries is not specified.
unfoldable pub collect_files_under : FilePath → Str → Files → List Str
unfolding strip
collect_files_under p prefix [] = []
collect_files_under p prefix ((q, n) ∷ rest) =
    collected prefix n (strip p q) (collect_files_under p prefix rest)

abbrev readable : Option Node → Option Str
readable none = none
readable (some dir) = some []
readable (some (file content modified)) = some content

-- `fReadFile`. A folder opens and reads as empty, as libstdc++ has it.
unfoldable pub read_file : FilePath → Files → Option Str
unfolding node_at
read_file p fs = readable (node_at p fs)

-- The content of a regular file.
unfoldable pub file_content : FilePath → Files → Option Str
unfolding node_at
file_content p fs = elim (node_at p fs) [ some (file content modified) ↦ some content | _ ↦ none ]

-- `fs::is_regular_file(target, ec) ? fs::file_size(target, ec) : 0`, and whether `ec` is set: the
-- standard has the test set the code where the target does not exist.
abbrev pub existing_len : Option Node → ℕ × Bool
existing_len none = (0, true)
existing_len (some dir) = (0, false)
existing_len (some (file content modified)) = (length content, false)

-- `fCheckQuota`, with the quota that src/state.h keeps; 0 switches it off. The sizes are `uint64_t`s.
unfoldable pub check_quota : (quota : ℕ) → FilePath → FilePath → (incoming : ℕ) → Files → Bool
unfolding node_at dir_size_bytes
check_quota quota root target incoming fs =
    let (existing, ec) = existing_len (node_at target fs) in
    let projected =
      ((dir_size_bytes root fs + 18446744073709551616 - existing) % 18446744073709551616 + incoming)
      % 18446744073709551616 in
    if quota == 0
    then true
    else if ec || leb incoming existing
    then true
    else not (ltb quota projected)
