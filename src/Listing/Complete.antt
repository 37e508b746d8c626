-- ===== src/Listing/Complete.antt =====
-- Nothing is hidden: what the listing of src/workspace.cpp shows of a tree.
use lectern_server.Prelude.{
  ℕ, zero, suc, ◌≡◌, refl, sym, ap, subst, ◌∙◌, ◌⊎◌, inl, inr, true, false, Bool-cases, Option,
  none, some, Option-cases, List, [], ◌∷◌, ◌++◌, map, arith, Str, str_eq_refl, In, In-order_by,
  gather, order_by,
}
use lectern_server.Error.{AppError, ok, err}
use lectern_server.Json.{Json, Items, nil, cons, to_items}
use lectern_server.Files.{FilePath, Node, file, dir, Files, strip, is_directory}
use lectern_server.World.{Env}
use lectern_server.Listing.{
  Entry, Walked, child_at, children, rel_path_of, collect_entries, push_back, push_folder,
  folder_entry, file_entry, finished, is_dotfile, walk_work_dir, deepest, entry_before, list_dir,
  returned,
}
use lectern_server.Listing.Walk.{IsIndexed, walk_work_dir-total}

abbrev pub InItems : Json → Items → Type 0
InItems v nil = ⊥
InItems v (cons u us) = (u ≡ v) ⊎ InItems v us

InItems-to_items :
    (e : Entry) (es : List Entry)
    → In e es
    → InItems e.value (to_items (map (λ (x : Entry). x.value) es))
InItems-to_items e [] h = h
InItems-to_items e (x ∷ es) (inl same) = inl (ap (λ (y : Entry). y.value) same)
InItems-to_items e (x ∷ es) (inr i) = inr (InItems-to_items e es i)

In-gather :
    {A B : Type 0} (f : A → Option B) (x : A) (y : B) (xs : List A)
    → In x xs
    → f x ≡ some y
    → In y (gather f xs)
unfolding gather
In-gather f x y [] h e = h
In-gather f x y (z ∷ zs) (inl same) e = rw (ap f same ∙ e) (inl refl)
In-gather f x y (z ∷ zs) (inr i) e = elim (Option-cases (f z)) [
  | inl n ↦ rw n (In-gather f x y zs i e)
  | inr (b, s) ↦ rw s (inr (In-gather f x y zs i e))
]

strip-append : (p rest : FilePath) → strip p (p ++ rest) ≡ some rest
unfolding strip
strip-append [] rest = refl
strip-append (a ∷ p) rest = rw (str_eq_refl a) (strip-append p rest)

In-children :
    (p : FilePath) (name : Str) (n : Node) (fs : Files)
    → In (p ++ name ∷ [], n) fs
    → In (name, n) (children p fs)
unfolding children
In-children p name n fs i =
    In-gather (λ e. child_at (strip p e.0) e.1) (p ++ name ∷ [], n) (name, n) fs i
      (ap (λ o. child_at o n) (strip-append p (name ∷ [])))

push_back-ok :
    (e : Entry) (r : Walked (List Entry)) {es : List Entry}
    → push_back e r ≡ some (ok es)
    → (ds : List Entry) × (r ≡ some (ok ds)) × (es ≡ e ∷ ds)
push_back-ok e (some (ok ds)) h = (ds, refl, cc)
push_back-ok e (some (err x)) h = cc
push_back-ok e none h = cc

push_folder-ok :
    (name rel_path : Str) (walked : Walked Items) (r : Walked (List Entry)) {es : List Entry}
    → push_folder name rel_path walked r ≡ some (ok es)
    → (below : Items) × (ds : List Entry) × (walked ≡ some (ok below))
      × (r ≡ some (ok ds))
      × (es ≡ folder_entry name rel_path below ∷ ds)
push_folder-ok name rel_path (some (ok below)) r h =
    let (ds, e, f) = push_back-ok (folder_entry name rel_path below) r h in (below, ds, refl, e, f)
push_folder-ok name rel_path (some (err x)) r h = cc
push_folder-ok name rel_path none r h = cc

-- What the loop keeps of one entry.
Kept :
    Env
    → ((name rel_path : Str) → Walked Items)
    → (rel_prefix : Str) → Str × Node
    → List Entry
    → Type 0
Kept env walk rel_prefix (name, dir) es =
    (below : Items) × (walk name (rel_path_of rel_prefix name) ≡ some (ok below))
    × In (folder_entry name (rel_path_of rel_prefix name) below) es
Kept env walk rel_prefix (name, file content modified) es =
    is_dotfile name ≡ false
    → In (file_entry env name (rel_path_of rel_prefix name) content modified) es

Kept-later :
    (env : Env) (walk : (name rel_path : Str) → Walked Items) (rel_prefix : Str) (x : Str × Node)
    (e : Entry) (es ds : List Entry)
    → es ≡ e ∷ ds
    → Kept env walk rel_prefix x ds
    → Kept env walk rel_prefix x es
unfolding Kept
Kept-later env walk rel_prefix (name, dir) e es ds s (below, f, i) = (below, f, rw s (inr i))
Kept-later env walk rel_prefix (name, file content modified) e es ds s k = λ h. rw s (inr (k h))

collect_entries-Kept :
    (env : Env) (walk : (name rel_path : Str) → Walked Items) (rel_prefix : Str) (x : Str × Node)
    (cs : List (Str × Node)) {es : List Entry}
    → collect_entries env walk rel_prefix cs ≡ some (ok es)
    → In x cs
    → Kept env walk rel_prefix x es
unfolding collect_entries Kept
collect_entries-Kept env walk rel_prefix x [] h i = elim i [ ]
collect_entries-Kept env walk rel_prefix x ((name, dir) ∷ cs) {es = es} h (inl same) =
    let (below, ds, f, r, e) = push_folder-ok name (rel_path_of rel_prefix name) _ _ h in
    subst (λ y. Kept env walk rel_prefix y es) same (below, f, rw e (inl refl))
collect_entries-Kept env walk rel_prefix x ((name, dir) ∷ cs) {es = es} h (inr i) =
    let (below, ds, f, r, e) = push_folder-ok name (rel_path_of rel_prefix name) _ _ h in
    Kept-later env walk rel_prefix x _ es ds e (collect_entries-Kept env walk rel_prefix x cs r i)
collect_entries-Kept env walk rel_prefix x ((name, file content modified) ∷ cs) {es = es} h i =
    elim (Bool-cases (is_dotfile name)) [
      | inl hidden ↦ elim i [
        | inl same ↦
            subst (λ y. Kept env walk rel_prefix y es) same
              (λ shown. absurd (off (sym hidden ∙ shown)))
        | inr j ↦ collect_entries-Kept env walk rel_prefix x cs (rw hidden at h) j
      ]
      | inr shown ↦
          let (ds, r, e) =
            push_back-ok (file_entry env name (rel_path_of rel_prefix name) content modified) _
              (rw shown at h) in
          elim i [
            | inl same ↦ subst (λ y. Kept env walk rel_prefix y es) same (λ s. rw e (inl refl))
            | inr j ↦
                Kept-later env walk rel_prefix x _ es ds e
                  (collect_entries-Kept env walk rel_prefix x cs r j)
          ]
    ]
  where
    off : true ≡ false → ⊥
    off e = cc

finished-ok :
    (r : Walked (List Entry)) {items : Items}
    → finished r ≡ some (ok items)
    → (es : List Entry) × (r ≡ some (ok es))
      × (items ≡ to_items (map (λ (x : Entry). x.value) (order_by entry_before es)))
unfolding finished
finished-ok (some (ok es)) h = (es, refl, cc)
finished-ok (some (err e)) h = cc
finished-ok none {items = items} h = absurd (off h)
  where
    off : ◌≡◌ {A = Walked Items} none (some (ok items)) → ⊥
    off e = cc

-- The recursive calls of a walk.
abbrev walk_below : ℕ → Env → Files → FilePath → (name rel_path : Str) → Walked Items
walk_below fuel env fs p name rel_path = walk_work_dir fuel env fs (p ++ name ∷ []) rel_path

-- The walk's own step, as an inversion.
walk_work_dir-ok :
    (fuel : ℕ) (env : Env) (fs : Files) (p : FilePath) (rel_prefix : Str) {items : Items}
    → walk_work_dir (suc fuel) env fs p rel_prefix ≡ some (ok items)
    → (es : List Entry) × (collect_entries env (walk_below fuel env fs p) rel_prefix (children p fs)
        ≡ some (ok es))
      × (items ≡ to_items (map (λ (x : Entry). x.value) (order_by entry_before es)))
unfolding walk_work_dir
walk_work_dir-ok fuel env fs p rel_prefix {items = items} h =
    elim (Bool-cases (is_directory p fs)) [
      | inl folder ↦ finished-ok _ (rw folder at h)
      | inr other ↦ absurd (off (rw other at h))
    ]
  where
    off : {e : AppError} → ◌≡◌ {A = Walked Items} (some (err e)) (some (ok items)) → ⊥
    off e = cc

-- Folder by folder from `p` down to a file that is no dotfile.
abbrev pub Reaches : Files → FilePath → FilePath → (content : Str) → (modified : ℕ) → Type 0
Reaches fs p [] content modified = ⊥
Reaches fs p (name ∷ []) content modified =
    In (p ++ name ∷ [], file content modified) fs × (is_dotfile name ≡ false)
Reaches fs p (name ∷ next ∷ rest) content modified =
    In (p ++ name ∷ [], dir) fs × Reaches fs (p ++ name ∷ []) (next ∷ rest) content modified

-- The listing has the file, below the entries of its folders.
abbrev pub Shows :
    Env → (rel_prefix : Str) → FilePath → (content : Str) → (modified : ℕ) → Items → Type 0
Shows env rel_prefix [] content modified items = ⊥
Shows env rel_prefix (name ∷ []) content modified items =
    InItems (file_entry env name (rel_path_of rel_prefix name) content modified).value items
Shows env rel_prefix (name ∷ next ∷ rest) content modified items =
    (below : Items) × InItems (folder_entry name (rel_path_of rel_prefix name) below).value items
    × Shows env (rel_path_of rel_prefix name) (next ∷ rest) content modified below

sorted-In :
    (e : Entry) (es : List Entry) {items : Items}
    → items ≡ to_items (map (λ (x : Entry). x.value) (order_by entry_before es))
    → In e es
    → InItems e.value items
sorted-In e es s i =
    rw s (InItems-to_items e (order_by entry_before es) (In-order_by entry_before e es i))

walk_work_dir-Shows :
    (fuel : ℕ) (env : Env) (fs : Files) (p : FilePath) (rel_prefix : Str) (path : FilePath)
    (content : Str) (modified : ℕ) {items : Items}
    → walk_work_dir fuel env fs p rel_prefix ≡ some (ok items)
    → Reaches fs p path content modified
    → Shows env rel_prefix path content modified items
unfolding Kept walk_work_dir
walk_work_dir-Shows zero env fs p rel_prefix path content modified {items = items} h r =
    absurd (off h)
  where
    off : ◌≡◌ {A = Walked Items} none (some (ok items)) → ⊥
    off e = cc
walk_work_dir-Shows (suc fuel) env fs p rel_prefix [] content modified h r = r
walk_work_dir-Shows (suc fuel) env fs p rel_prefix (name ∷ []) content modified h (there, shown) =
    let (es, c, s) = walk_work_dir-ok fuel env fs p rel_prefix h in
    sorted-In (file_entry env name (rel_path_of rel_prefix name) content modified) es s (
      collect_entries-Kept env (walk_below fuel env fs p) rel_prefix (name, file content modified)
        (children p fs) c (In-children p name (file content modified) fs there) shown)
walk_work_dir-Shows (suc fuel) env fs p rel_prefix (name ∷ next ∷ rest) content modified h
      (there, r) =
    let (es, c, s) = walk_work_dir-ok fuel env fs p rel_prefix h in
    let (below, walked, i) =
      collect_entries-Kept env (walk_below fuel env fs p) rel_prefix (name, dir) (children p fs) c
        (In-children p name dir fs there) in
    (
      below,
      sorted-In (folder_entry name (rel_path_of rel_prefix name) below) es s i,
      walk_work_dir-Shows fuel env fs (p ++ name ∷ []) (rel_path_of rel_prefix name) (next ∷ rest)
          content modified walked r,
    )

-- On a tree whose paths are distinct a folder has a listing, and it shows every file that is reached
-- from the folder through folders and whose name starts with no dot: below the entries of its
-- folders, under its path, with its modification time and the digest of its content.
pub list_dir-Shows :
    (env : Env) (p : FilePath) (fs : Files)
    → IsIndexed fs
    → is_directory p fs ≡ true
    → (items : Items) × (list_dir env p fs ≡ ok items)
      × ((path : FilePath) (content : Str) (modified : ℕ)
          → Reaches fs p path content modified
          → Shows env [] path content modified items)
unfolding list_dir
list_dir-Shows env p fs ix h =
    let (items, e) = walk_work_dir-total (suc (deepest fs)) env fs p [] ix h (omega arith) in
    (
      items,
      ap returned e,
      λ path content modified r.
          walk_work_dir-Shows (suc (deepest fs)) env fs p [] path content modified e r,
    )
