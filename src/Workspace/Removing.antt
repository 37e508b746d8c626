-- ===== src/Workspace/Removing.antt =====
-- What DELETE /api/workspace/entry of src/workspace.cpp leaves of a file.
use lectern_server.Prelude.{
  ◌≡◌, refl, sym, ap, ◌∙◌, Bool, true, Bool-cases, inl, inr, Option, none, some, List, [], ◌∷◌,
  ◌++◌, map, Str, str_eq_refl, strs_eq_refl, any, if◌then◌else◌, arith,
}
use lectern_server.Error.{ok}
use lectern_server.Files.{
  FilePath, Node, file, dir, Files, find_node, node_at, has_children, erase_node, remove,
}
use lectern_server.Files.Laws.{Node-cases, find_node-erase_node}
use lectern_server.Util.{split}
use lectern_server.Database.{Database, Tombstone, tombstone_key, is_user, upsert_tombstone}
use lectern_server.World.{Env, World}
use lectern_server.World.Laws.{change_then}
use lectern_server.Workspace.{record_tombstone, delete_file}
use lectern_server.Workspace.Inside.{plain_path}
use lectern_server.Workspace.Storing.{is_marked}

any_added :
    {A : Type 0} (p : A → Bool) (xs : List A) (y : A) → p y ≡ true → any p (xs ++ y ∷ []) ≡ true
any_added p [] y h = ground (arith, h)
any_added p (x ∷ xs) y h = ground (arith, any_added p xs y h)

any-map_same :
    {A : Type 0} (p : A → Bool) (f : A → A) (xs : List A)
    → ((x : A) → p (f x) ≡ p x)
    → any p (map f xs) ≡ any p xs
any-map_same p f [] h = refl
any-map_same p f (x ∷ xs) h = rw (h x, any-map_same p f xs h) refl

-- Recording marks the path of a user who has an account.
record_tombstone-Marks :
    (env : Env) (user_id rel : Str) (db : Database)
    → is_user db user_id ≡ true
    → is_marked (record_tombstone env user_id rel db) user_id rel ≡ true
unfolding record_tombstone upsert_tombstone
record_tombstone-Marks env user_id rel db user = elim (Bool-cases (is_marked db user_id rel)) [
  | inl marked ↦
      rw marked (any-map_same (tombstone_key user_id rel) _ db.deleted_files same ∙ marked)
  | inr unmarked ↦
      rw (unmarked, user)
        (any_added (tombstone_key user_id rel) db.deleted_files _
          (rw (str_eq_refl user_id, str_eq_refl rel) refl))
]
  where
    same :
        (t : Tombstone)
        → tombstone_key user_id rel
            (if tombstone_key user_id rel t then record t { deleted_at = env.now_ms } else t)
          ≡ tombstone_key user_id rel t
    same t = elim (Bool-cases (tombstone_key user_id rel t)) [
      | inl hit ↦ rw hit hit
      | inr miss ↦ rw miss miss
    ]

node_at-erase_node :
    (s : Str) (p : FilePath) (fs : Files) → node_at (s ∷ p) (erase_node (s ∷ p) fs) ≡ none
unfolding node_at
node_at-erase_node s p fs = find_node-erase_node (s ∷ p) (s ∷ p) fs ∙ rw (strs_eq_refl (s ∷ p)) refl

-- What was removed was there, and is gone.
remove-Gone :
    (s : Str) (p : FilePath) (fs gs : Files)
    → remove (s ∷ p) fs ≡ some gs
    → ((n : Node) × (node_at (s ∷ p) fs ≡ some n)) × (node_at (s ∷ p) gs ≡ none)
unfolding remove
remove-Gone s p fs gs e = elim (Node-cases (find_node (s ∷ p) fs)) [
  | inl n ↦ absurd (off (rw (n, remove) at e))
  | inr (inl (c, m, n)) ↦
      let made : ◌≡◌ {A = Option Files} (some (erase_node (s ∷ p) fs)) (some gs) =
        rw (n, remove) at e in
      let same : erase_node (s ∷ p) fs ≡ gs = cc in
      ((file c m, n), ap (node_at (s ∷ p)) (sym same) ∙ node_at-erase_node s p fs)
  | inr (inr n) ↦ elim (Bool-cases (has_children (s ∷ p) fs)) [
    | inl full ↦ absurd (off (rw (n, full, remove) at e))
    | inr empty ↦
        let made : ◌≡◌ {A = Option Files} (some (erase_node (s ∷ p) fs)) (some gs) =
          rw (n, empty, remove) at e in
        let same : erase_node (s ∷ p) fs ≡ gs = cc in
        ((dir, n), ap (node_at (s ∷ p)) (sym same) ∙ node_at-erase_node s p fs)
  ]
]
  where
    off : ◌≡◌ {A = Option Files} none (some gs) → ⊥
    off k = cc

-- Deleting a file that succeeds found something at the path, leaves nothing there, and marks the
-- path as deleted for a user who has an account.
pub delete_file-Marks :
    (env : Env) (user_id rel : Str) (w : World) {u : Unit {0}} {w' : World}
    → is_user w.db user_id ≡ true
    → delete_file env user_id rel (plain_path user_id rel) w ≡ (ok u, w')
    → ((n : Node) × (node_at (plain_path user_id rel) w.files ≡ some n))
      × (node_at (plain_path user_id rel) w'.files ≡ none)
      × (is_marked w'.db user_id rel ≡ true)
unfolding delete_file
delete_file-Marks env user_id rel w user e =
    let (gs, made, e₁) = change_then _ (remove (plain_path user_id rel)) _ w e in
    let (there, gone) = remove-Gone user_id (split rel b'/') w.files gs made in
    (
      there,
      ap (λ x. node_at (plain_path user_id rel) x.1.files) (sym e₁) ∙ gone,
      ap (λ x. is_marked x.1.db user_id rel) (sym e₁)
          ∙ record_tombstone-Marks env user_id rel w.db user,
    )
