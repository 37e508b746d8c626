-- ===== src/Listing/Walk.antt =====
-- The walk of src/workspace.cpp ends: its fuel is enough on every tree.
use lectern_server.Prelude.{
  ℕ, zero, suc, ◌+◌, ◌≤◌, ◌<◌, ◌≡◌, refl, ap, ◌∙◌, true, false, Bool-cases, inl, inr, Option, none,
  some, Option-cases, List, [], ◌∷◌, ◌++◌, map, arith, length, length-append, Str, strs_eq,
  strs_eq_iff, All, All-imp, gather, order_by,
}
use lectern_server.Error.{ok}
use lectern_server.Json.{Items, to_items}
use lectern_server.Files.{FilePath, Node, file, dir, Files, find_node, node_at, strip, is_directory}
use lectern_server.Files.Laws.{strip_append}
use lectern_server.World.{Env}
use lectern_server.Listing.{
  Entry, Walked, child_at, children, rel_path_of, collect_entries, folder_entry, file_entry,
  is_dotfile, walk_work_dir, deepest, entry_before, list_dir, returned,
}

-- Each path stands in the tree once.
abbrev pub IsIndexed : Files → Type 0
IsIndexed fs = All (λ e. find_node e.0 fs ≡ some e.1) fs

find_node-deepest :
    (p : FilePath) (n : Node) (fs : Files) → find_node p fs ≡ some n → length p ≤ deepest fs
unfolding find_node deepest
find_node-deepest p n [] e = cc
find_node-deepest p n ((q, m) ∷ fs) e = elim (Bool-cases (strs_eq q p)) [
  | inl hit ↦ ground (arith, ap length ((strs_eq_iff q p).0 hit))
  | inr miss ↦ ground (arith, find_node-deepest p n fs (ground arith))
]

is_directory-deepest :
    (p : FilePath) (fs : Files) → is_directory p fs ≡ true → length p ≤ deepest fs
unfolding is_directory node_at
is_directory-deepest [] fs h = omega arith
is_directory-deepest (s ∷ p) fs h = elim (Option-cases (find_node (s ∷ p) fs)) [
  | inl n ↦ absurd (off (rw n at h))
  | inr (n, e) ↦ find_node-deepest (s ∷ p) n fs e
]
  where
    off : false ≡ true → ⊥
    off e = cc

-- A child is there, at its path.
IsThere : FilePath → Files → Str × Node → Type 0
IsThere p fs e = find_node (p ++ e.0 ∷ []) fs ≡ some e.1

child_at-IsThere :
    (p q : FilePath) (n : Node) (fs : Files) (rest : Option FilePath) (e : Str × Node)
    → find_node q fs ≡ some n
    → strip p q ≡ rest
    → child_at rest n ≡ some e
    → IsThere p fs e
unfolding IsThere
child_at-IsThere p q n fs none e h s c = cc
child_at-IsThere p q n fs (some []) e h s c = cc
child_at-IsThere p q n fs (some (name ∷ [])) e h s c =
    let same : ◌≡◌ {A = Str × Node} (name, n) e = cc in
    rw (← same) (rw (strip_append p q (name ∷ []) s) at h)
child_at-IsThere p q n fs (some (a ∷ b ∷ rest)) e h s c = cc

children-IsThere :
    (p : FilePath) (fs gs : Files)
    → All (λ e. find_node e.0 fs ≡ some e.1) gs
    → All (IsThere p fs) (gather (λ e. child_at (strip p e.0) e.1) gs)
unfolding gather
children-IsThere p fs [] h = tt
children-IsThere p fs ((q, n) ∷ gs) (h, k) = elim (Option-cases (child_at (strip p q) n)) [
  | inl none_there ↦ rw none_there (children-IsThere p fs gs k)
  | inr (e, there) ↦
      rw there (child_at-IsThere p q n fs (strip p q) e h refl there, children-IsThere p fs gs k)
]

-- What a walk is to give: a listing, no error.
abbrev pub Lists : Walked Items → Type 0
Lists r = (items : Items) × (r ≡ some (ok items))

-- The loop over the entries gets through where each folder's walk does.
abbrev Goes : (walk : (name rel_path : Str) → Walked Items) → Str × Node → Type 0
Goes walk e = (rel_path : Str) → e.1 ≡ dir → Lists (walk e.0 rel_path)

collect_entries-total :
    (env : Env) (walk : (name rel_path : Str) → Walked Items) (rel_prefix : Str)
    (es : List (Str × Node))
    → All (Goes walk) es
    → (entries : List Entry) × (collect_entries env walk rel_prefix es ≡ some (ok entries))
unfolding collect_entries
collect_entries-total env walk rel_prefix [] h = ([], refl)
collect_entries-total env walk rel_prefix ((name, dir) ∷ es) (h, k) =
    let (items, e) = h (rel_path_of rel_prefix name) refl in
    let (entries, f) = collect_entries-total env walk rel_prefix es k in
    (folder_entry name (rel_path_of rel_prefix name) items ∷ entries, rw e (rw f refl))
collect_entries-total env walk rel_prefix ((name, file content modified) ∷ es) (h, k) =
    let (entries, f) = collect_entries-total env walk rel_prefix es k in
    elim (Bool-cases (is_dotfile name)) [
      | inl hidden ↦ (entries, rw hidden f)
      | inr shown ↦ (
        file_entry env name (rel_path_of rel_prefix name) content modified ∷ entries,
        rw shown (rw f refl),
      )
    ]

there_is_directory :
    (p : FilePath) (name : Str) (fs : Files)
    → IsThere p fs (name, dir)
    → is_directory (p ++ name ∷ []) fs ≡ true
unfolding IsThere is_directory node_at
there_is_directory [] name fs h = rw h refl
there_is_directory (s ∷ p) name fs h = rw h refl

-- With one unit of fuel less, what holds of every folder holds of a child.
child-Goes :
    (fuel : ℕ) (env : Env) (fs : Files) (p : FilePath)
    → ((q : FilePath) (rel_prefix : Str)
        → is_directory q fs ≡ true
        → deepest fs < fuel + length q
        → Lists (walk_work_dir fuel env fs q rel_prefix))
    → deepest fs < suc fuel + length p
    → (e : Str × Node) → IsThere p fs e
    → Goes (λ name rel_path. walk_work_dir fuel env fs (p ++ name ∷ []) rel_path) e
unfolding IsThere
child-Goes fuel env fs p ih enough (name, n) there rel_path is_dir =
    ih (p ++ name ∷ []) rel_path (there_is_directory p name fs (there ∙ ap some is_dir))
      (omega (arith, length-append p (name ∷ [])))

-- A walk that starts at a folder, with fuel for what is left of the tree's depth, ends with a listing.
pub walk_work_dir-total :
    (fuel : ℕ) (env : Env) (fs : Files) (p : FilePath) (rel_prefix : Str)
    → IsIndexed fs
    → is_directory p fs ≡ true
    → deepest fs < fuel + length p
    → Lists (walk_work_dir fuel env fs p rel_prefix)
unfolding walk_work_dir
walk_work_dir-total zero env fs p rel_prefix ix h enough =
    absurd (omega (arith, is_directory-deepest p fs h))
walk_work_dir-total (suc fuel) env fs p rel_prefix ix h enough =
    let walk = λ (name rel_path : Str). walk_work_dir fuel env fs (p ++ name ∷ []) rel_path in
    let (entries, e) = collect_entries-total env walk rel_prefix (children p fs) (
      All-imp (IsThere p fs) (Goes walk) (children p fs)
        (child-Goes fuel env fs p (λ q r d. walk_work_dir-total fuel env fs q r ix d) enough)
        (children-IsThere p fs fs ix)) in
    (to_items (map (λ (x : Entry). x.value) (order_by entry_before entries)), rw h (rw e refl))

-- On a tree whose paths are distinct, GET /api/workspace, the listing of a link and that of a share
-- have a listing to answer with for every folder: the walk neither fails nor runs out of fuel.
pub list_dir-total :
    (env : Env) (p : FilePath) (fs : Files)
    → IsIndexed fs
    → is_directory p fs ≡ true
    → (items : Items) × (list_dir env p fs ≡ ok items)
unfolding list_dir
list_dir-total env p fs ix h =
    let (items, e) = walk_work_dir-total (suc (deepest fs)) env fs p [] ix h (omega arith) in
    (items, ap returned e)
