-- ===== src/Workspace/Isolation.antt =====
-- The handlers of src/workspace.cpp touch the workspace of the account that asks, and no other.
use lectern_server.Prelude.{
  ◌≡◌, ◌≢◌, refl, sym, subst, ap, ◌∙◌, Bool, true, false, Bool-cases, inl, inr, Option, some,
  Option-cases, List, [], ◌∷◌, Str, str_eq, str_eq_iff, All, if◌then◌else◌,
}
use lectern_server.Error.{AppError, Result, ok}
use lectern_server.Util.{split}
use lectern_server.Files.{FilePath, Files, find_node, write_file_atomic, create_directories}
use lectern_server.Files.Laws.{
  SameFor, create_directories-SameFor, or_same-SameFor, remove-SameFor, remove_all-SameFor,
  rename-SameFor, write_file_atomic-SameFor, parent-SameFor,
}
use lectern_server.World.{
  Env, World, M, Request, Response, Method, get, put, post, delete, by_method, after, change_files,
  require, lift, ◌>>=◌, written, query_bool, ◌>>◌, pure, notify_changes,
}
use lectern_server.World.Laws.{
  Leaves, Leaves-bind, Leaves-bind_ok, Leaves-require, Leaves-found, >>=-eq-ok,
}
use lectern_server.Auth.{current_user_id_with_headers}
use lectern_server.Auth.Frame.{current_user_id_with_headers-SameFiles}
use lectern_server.Paths.{safe_rel_path}
use lectern_server.Workspace.Inside.{plain_path, path_in-plain_path}
use lectern_server.Workspace.{
  path_in, make_root, user_root, get_file, put_file, file_handler, folder_handler, delete_folder,
  delete_file, entry_handler, make_parent, move_handler, deleted_handler, stat_handler,
  require_quota,
}

abbrev pub LeavesAlone : Str → World → World → Type 0
LeavesAlone v w w' = SameFor v w.files w'.files

module _ (v : Str) where
  alone_refl : (w : World) → LeavesAlone v w w
  alone_refl w q = refl

  alone_trans : (a b c : World) → LeavesAlone v a b → LeavesAlone v b c → LeavesAlone v a c
  alone_trans a b c h k q = k q ∙ h q

  -- A change of the tree that keeps `v`'s folder.
  change_files-alone :
      (e : AppError) (f : Files → Option Files) (w : World)
      → ((gs : Files) → f w.files ≡ some gs → SameFor v w.files gs)
      → LeavesAlone v w (change_files e f w).1
  unfolding change_files
  change_files-alone e f w h = elim (Option-cases (f w.files)) [
    | inl n ↦ rw (n, written) (λ q. refl)
    | inr (gs, s) ↦ rw (s, written) (h gs s)
  ]

  same_then :
      {A B : Type 0} (m : M A) (f : A → M B)
      → Leaves (LeavesAlone v) m
      → ((a : A) → Leaves (LeavesAlone v) (f a))
      → Leaves (LeavesAlone v) (m >>= f)
  same_then m f h k = Leaves-bind (LeavesAlone v) alone_refl alone_trans m f h k

  -- What follows a check that passed.
  checked_then :
      {A B : Type 0} (r : Result A) (f : A → M B)
      → ((a : A) → r ≡ ok a → Leaves (LeavesAlone v) (f a))
      → Leaves (LeavesAlone v) (lift r >>= f)
  checked_then r f h w =
      Leaves-bind_ok (LeavesAlone v) alone_refl alone_trans (lift r) f w (alone_refl w)
        (λ a w' e. h a (ap (λ x. x.0) e) w')

  by_method-alone :
      {A : Type 0} (method : Method) (m n : M A)
      → Leaves (LeavesAlone v) m
      → Leaves (LeavesAlone v) n
      → Leaves (LeavesAlone v) (by_method method m n)
  by_method-alone get m n h k = h
  by_method-alone post m n h k = k
  by_method-alone put m n h k = k
  by_method-alone delete m n h k = k

  branch-alone :
      {A : Type 0} (b : Bool) (m n : M A)
      → Leaves (LeavesAlone v) m
      → Leaves (LeavesAlone v) n
      → Leaves (LeavesAlone v) (if b then m else n)
  branch-alone true m n h k = h
  branch-alone false m n h k = k

module _ (v u : Str) (other : str_eq u v ≡ false) where
  make_root-alone : Leaves (LeavesAlone v) (make_root u)
  unfolding make_root
  make_root-alone w =
      or_same-SameFor v u other (create_directories (u ∷ []) w.files) w.files
        (create_directories-SameFor v u other [] w.files)

  make_parent-alone :
      (path : FilePath) (segments : List Str)
      → path ≡ u ∷ segments
      → Leaves (LeavesAlone v) (make_parent path)
  unfolding make_parent
  make_parent-alone path segments e w = rw e (parent-SameFor v u other segments w.files)

  require-alone : (b : Bool) (e : AppError) → Leaves (LeavesAlone v) (require b e)
  require-alone b e = Leaves-require (LeavesAlone v) (alone_refl v) (alone_trans v) b e

  put_file-alone :
      (env : Env) (req : Request) (rel : Str)
      → path_in u rel ≡ plain_path u rel
      → Leaves (LeavesAlone v) (put_file env req u rel)
  unfolding put_file require_quota notify_changes
  put_file-alone env req rel inside = same_then v _ _ (require-alone _ _) λ a.
      same_then v _ _ (same_then v _ _ (alone_refl v) λ fits. require-alone _ _) λ b.
        same_then v _ _
          (λ w. change_files-alone v _ _ w (
            subst
              (λ p.
                (gs : Files)
                → write_file_atomic p req.body env.now_ms w.files ≡ some gs
                → SameFor v w.files gs)
              (sym inside)
              (write_file_atomic-SameFor v u other (split rel b'/') req.body env.now_ms w.files)))
          λ c. same_then v _ _ (alone_refl v) λ d. same_then v _ _ (alone_refl v) λ e. alone_refl v

  delete_folder-alone :
      (env : Env) (rel : Str) (path : FilePath) (segments : List Str)
      → path ≡ u ∷ segments
      → Leaves (LeavesAlone v) (delete_folder env u rel path)
  unfolding delete_folder
  delete_folder-alone env rel path segments below = same_then v _ _ (alone_refl v) λ inside.
      same_then v _ _
        (λ w. change_files-alone v _ _ w (rw below (remove_all-SameFor v u other segments w.files)))
        λ a. alone_refl v

  delete_file-alone :
      (env : Env) (rel : Str) (path : FilePath) (segments : List Str)
      → path ≡ u ∷ segments
      → Leaves (LeavesAlone v) (delete_file env u rel path)
  unfolding delete_file
  delete_file-alone env rel path segments inside =
      same_then v _ _
        (λ w. change_files-alone v _ _ w (rw inside (remove-SameFor v u other segments w.files)))
        λ a. alone_refl v

  get_file-alone : (path : FilePath) → Leaves (LeavesAlone v) (get_file path)
  unfolding get_file
  get_file-alone path = same_then v _ _ (alone_refl v) λ content.
      same_then v _ _ (Leaves-found (LeavesAlone v) (alone_refl v) (alone_trans v) _ _)
        λ s. alone_refl v

apart : (u v : Str) → u ≢ v → str_eq u v ≡ false
apart u v h = elim (Bool-cases (str_eq u v)) [
  | inl same ↦ absurd (h ((str_eq_iff u v).0 same))
  | inr other ↦ other
]

-- The account that the request comes from.
abbrev pub caller : Env → Request → World → Result Str
caller env req w = (current_user_id_with_headers env req w).0

module _ (env : Env) (req : Request) (w : World) (v : Str)
    (stranger : caller env req w ≢ ok v) where
  caller_other :
      (u : Str) (w' : World)
      → current_user_id_with_headers env req w ≡ (ok u, w')
      → str_eq u v ≡ false
  caller_other u w' e = apart u v (λ same. stranger (ap (λ r. r.0) e ∙ ap ok same))

  user_root-caller : (u : Str) (w' : World) → user_root env req w ≡ (ok u, w') → str_eq u v ≡ false
  unfolding user_root after
  user_root-caller u w' e =
      let (id, w₁, known, rest) = >>=-eq-ok (current_user_id_with_headers env req) _ w e in
      caller_other u w₁ (known ∙ ap (λ r. (r.0, w₁)) rest)

  user_root-alone : LeavesAlone v w (user_root env req w).1
  unfolding user_root
  user_root-alone =
      Leaves-bind_ok (LeavesAlone v) (alone_refl v) (alone_trans v)
        (current_user_id_with_headers env req) (λ u. make_root u >> pure u) w
        (λ q. ap (find_node (v ∷ q)) (current_user_id_with_headers-SameFiles env req w))
        λ u w' e.
          same_then v (make_root u) (λ a. pure u) (make_root-alone v u (caller_other u w' e))
            (λ a. alone_refl v) w'

  for_caller :
      (f : Str → M Response)
      → ((u : Str) → str_eq u v ≡ false → Leaves (LeavesAlone v) (f u))
      → LeavesAlone v w ((user_root env req >>= f) w).1
  for_caller f h =
      Leaves-bind_ok (LeavesAlone v) (alone_refl v) (alone_trans v) (user_root env req) f w
        user_root-alone λ u w' e. h u (user_root-caller u w' e) w'

  file_handler-alone : LeavesAlone v w (file_handler env req w).1
  unfolding file_handler
  file_handler-alone = for_caller _ λ u other. same_then v _ _ (alone_refl v) λ given.
      checked_then v (safe_rel_path given) _ λ rel safe.
        by_method-alone v req.method _ _ (get_file-alone v u other (path_in u rel))
          (put_file-alone v u other env req rel (path_in-plain_path u given safe))

  folder_handler-alone : LeavesAlone v w (folder_handler env req w).1
  unfolding folder_handler notify_changes
  folder_handler-alone = for_caller _ λ u other. same_then v _ _ (alone_refl v) λ body.
      same_then v _ _ (alone_refl v) λ given. checked_then v (safe_rel_path given) _ λ rel safe.
        same_then v _ _
          (λ w'. change_files-alone v _ _ w' (
            rw (path_in-plain_path u given safe)
              (create_directories-SameFor v u other (split rel b'/') w'.files)))
          λ a. same_then v _ _ (alone_refl v) λ b. alone_refl v

  entry_handler-alone : LeavesAlone v w (entry_handler env req w).1
  unfolding entry_handler notify_changes
  entry_handler-alone = for_caller _ λ u other. same_then v _ _ (alone_refl v) λ given.
      checked_then v (safe_rel_path given) _ λ rel safe.
        same_then v _ _
          (branch-alone v (query_bool req "isDir") _ _
            (delete_folder-alone v u other env rel _ _ (path_in-plain_path u given safe))
            (delete_file-alone v u other env rel _ _ (path_in-plain_path u given safe)))
          λ a. same_then v _ _ (alone_refl v) λ b. alone_refl v

  move_handler-alone : LeavesAlone v w (move_handler env req w).1
  unfolding move_handler notify_changes
  move_handler-alone = for_caller _ λ u other. same_then v _ _ (alone_refl v) λ body.
      same_then v _ _ (alone_refl v) λ given_from.
        checked_then v (safe_rel_path given_from) _ λ from_key safe_from.
          same_then v _ _ (alone_refl v) λ given_to.
            checked_then v (safe_rel_path given_to) _ λ to_key safe_to.
              same_then v _ _ (alone_refl v) λ was_dir. same_then v _ _ (alone_refl v) λ inside.
                same_then v _ _
                  (make_parent-alone v u other _ _ (path_in-plain_path u given_to safe_to))
                  λ a.
                    same_then v _ _
                      (λ w'. change_files-alone v _ _ w' (
                        rw
                          (
                            path_in-plain_path u given_from safe_from,
                            path_in-plain_path u given_to safe_to,
                          )
                          (rename-SameFor v u other (split from_key b'/') (split to_key b'/')
                            w'.files)))
                      λ b.
                        same_then v _ _ (alone_refl v)
                          λ c. same_then v _ _ (alone_refl v) λ d. alone_refl v

  stat_handler-alone : LeavesAlone v w (stat_handler env req w).1
  unfolding stat_handler
  stat_handler-alone = for_caller _ λ u other. same_then v _ _ (alone_refl v) λ given.
      same_then v _ _ (alone_refl v) λ rel.
        same_then v _ _ (alone_refl v) λ answer. same_then v _ _ (alone_refl v) λ body. alone_refl v

  deleted_handler-alone : LeavesAlone v w (deleted_handler env req w).1
  unfolding deleted_handler
  deleted_handler-alone =
      for_caller _ λ u other. same_then v _ _ (alone_refl v) λ rows. alone_refl v

-- The handlers of src/workspace.cpp, but for the listing.
abbrev pub workspace_handlers : List (Env → Request → M Response)
workspace_handlers =
    file_handler ∷ folder_handler ∷ entry_handler ∷ move_handler ∷ stat_handler ∷ deleted_handler
    ∷ []

-- Whatever a handler of the workspace, other than the listing, does with a request and whatever it
-- answers, the folder of every user but the one that the request authenticates as holds the same
-- nodes after it.
pub workspace_handlers-SameFor :
    (env : Env) (req : Request) (w : World) (v : Str)
    → caller env req w ≢ ok v
    → All (λ h. SameFor v w.files (h env req w).1.files) workspace_handlers
workspace_handlers-SameFor env req w v stranger = (
  file_handler-alone env req w v stranger,
  (
    folder_handler-alone env req w v stranger,
    (
      entry_handler-alone env req w v stranger,
      (
        move_handler-alone env req w v stranger,
        (stat_handler-alone env req w v stranger, (deleted_handler-alone env req w v stranger, tt)),
      ),
    ),
  ),
)
