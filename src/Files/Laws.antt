-- ===== src/Files/Laws.antt =====
-- How the file operations of src/workspace.cpp and src/util.cpp read back.
use lectern_server.Prelude.{
  ℕ, ◌≡◌, refl, Bool, false, not, Option, none, some, [], ◌∷◌, ◌++◌, arith, if◌then◌else◌, Str,
  Bool-cases, Option-cases, inl, inr, ◌⊎◌, strs_eq, strs_eq_iff, str_eq, str_eq_iff, ◌∙◌, ap,
  keep_if,
}
use lectern_server.Files.{
  FilePath, Node, file, dir, Files, find_node, node_at, put_node, strip, is_at_or_under,
  make_folders, create_directories, or_same, write_file_atomic, erase_node, erase_under, remove,
  remove_all, rebase, rename, parent_path, rebased,
}

pub find_node-put_node :
    (q p : FilePath) (n : Node) (fs : Files)
    → find_node q (put_node p n fs) ≡ (if strs_eq p q then some n else find_node q fs)
unfolding find_node put_node
find_node-put_node q p n [] = refl
find_node-put_node q p n ((r, old) ∷ rest) =
    ground (arith, find_node-put_node q p n rest, strs_eq_iff r p, strs_eq_iff p q, strs_eq_iff r q)

-- What an entry filter leaves.
find_node-keep_if :
    (q : FilePath) (test : FilePath → Bool) (fs : Files)
    → find_node q (keep_if (λ e. not (test e.0)) fs) ≡ (if test q then none else find_node q fs)
unfolding find_node
find_node-keep_if q test [] = ground arith
find_node-keep_if q test ((r, n) ∷ rest) = elim (Bool-cases (strs_eq r q)) [
  | inl same ↦
      rw same
        (ground (arith, same, find_node-keep_if q test rest, ap test ((strs_eq_iff r q).0 same)))
  | inr other ↦ rw other (ground (arith, find_node-keep_if q test rest))
]

pub find_node-erase_node :
    (q p : FilePath) (fs : Files)
    → find_node q (erase_node p fs) ≡ (if strs_eq q p then none else find_node q fs)
unfolding erase_node
find_node-erase_node q p fs = find_node-keep_if q (λ r. strs_eq r p) fs

pub find_node-erase_under :
    (q p : FilePath) (fs : Files)
    → find_node q (erase_under p fs) ≡ (if is_at_or_under p q then none else find_node q fs)
unfolding erase_under
find_node-erase_under q p fs = find_node-keep_if q (is_at_or_under p) fs

pub strip_append : (p q rest : FilePath) → strip p q ≡ some rest → q ≡ p ++ rest
unfolding strip
strip_append [] q rest e = ground arith
strip_append (a ∷ p) [] rest e = cc
strip_append (a ∷ p) (b ∷ q) rest e = ground (arith, strip_append p q rest, str_eq_iff a b)

pub Node-cases :
    (o : Option Node)
    → (o ≡ none) ⊎ (((c : Str) × (m : ℕ) × (o ≡ some (file c m))) ⊎ (o ≡ some dir))
Node-cases none = inl refl
Node-cases (some (file c m)) = inr (inl (c, m, refl))
Node-cases (some dir) = inr (inr refl)

-- Two trees agree on everything in the folder `owner`.
abbrev pub SameFor : Str → Files → Files → Type 0
SameFor owner fs gs = (q : FilePath) → find_node (owner ∷ q) gs ≡ find_node (owner ∷ q) fs

module _ (v u : Str) (other : str_eq u v ≡ false) where
  strs_eq_other : (p q : FilePath) → strs_eq (u ∷ p) (v ∷ q) ≡ false
  unfolding strs_eq
  strs_eq_other p q = rw other

  put_node-SameFor : (p : FilePath) (n : Node) (fs : Files) → SameFor v fs (put_node (u ∷ p) n fs)
  put_node-SameFor p n fs q = find_node-put_node (v ∷ q) (u ∷ p) n fs ∙ rw (strs_eq_other p q)

  erase_node-SameFor : (p : FilePath) (fs : Files) → SameFor v fs (erase_node (u ∷ p) fs)
  erase_node-SameFor p fs q =
      find_node-erase_node (v ∷ q) (u ∷ p) fs
      ∙ ground (arith, strs_eq_iff (v ∷ q) (u ∷ p), strs_eq_iff (u ∷ p) (v ∷ q), strs_eq_other p q)

  strip_other : (p q : FilePath) → strip (u ∷ p) (v ∷ q) ≡ none
  unfolding strip
  strip_other p q = rw other

  at_or_under_other : (p q : FilePath) → is_at_or_under (u ∷ p) (v ∷ q) ≡ false
  unfolding is_at_or_under
  at_or_under_other p q = rw other

  erase_under-SameFor : (p : FilePath) (fs : Files) → SameFor v fs (erase_under (u ∷ p) fs)
  erase_under-SameFor p fs q = find_node-erase_under (v ∷ q) (u ∷ p) fs ∙ rw (at_or_under_other p q)

  make_folders-SameFor :
      (done rest : FilePath) (fs : Files)
      → (gs : Files) → make_folders (u ∷ done) rest fs ≡ some gs
      → SameFor v fs gs
  unfolding make_folders
  make_folders-SameFor done [] fs gs e = λ q. ground arith
  make_folders-SameFor done (s ∷ rest) fs gs e =
      elim (Node-cases (node_at (u ∷ done ++ s ∷ []) fs)) [
        | inl n ↦ λ q.
            make_folders-SameFor (done ++ s ∷ []) rest (put_node (u ∷ done ++ s ∷ []) dir fs) gs
              (ground arith) q
            ∙ put_node-SameFor (done ++ s ∷ []) dir fs q
        | inr (inl (c, m, n)) ↦ absurd (ground arith)
        | inr (inr n) ↦ make_folders-SameFor (done ++ s ∷ []) rest fs gs (ground arith)
      ]

  rebase-SameFor : (from to : FilePath) (fs : Files) → SameFor v fs (rebase (u ∷ from) (u ∷ to) fs)
  unfolding rebase find_node
  rebase-SameFor from to [] q = refl
  rebase-SameFor from to ((r, n) ∷ fs) q = elim (Option-cases (strip (u ∷ from) r)) [
    | inl out ↦ rw (out, rebased) (ground (arith, rebase-SameFor from to fs q))
    | inr (rest, ins) ↦
        rw
          (
            ins,
            rebased,
            strip_append (u ∷ from) r rest ins,
            strs_eq_other (to ++ rest) q,
            strs_eq_other (from ++ rest) q,
          )
          (rebase-SameFor from to fs q)
  ]

  pub or_same-SameFor :
      (o : Option Files) (fs : Files)
      → ((gs : Files) → o ≡ some gs → SameFor v fs gs)
      → SameFor v fs (or_same fs o)
  or_same-SameFor none fs h = λ q. refl
  or_same-SameFor (some gs) fs h = h gs refl

  -- Creating folders below one user's folder leaves every other user's folder as it is.
  pub create_directories-SameFor :
      (p : FilePath) (fs gs : Files) → create_directories (u ∷ p) fs ≡ some gs → SameFor v fs gs
  unfolding create_directories make_folders
  create_directories-SameFor p fs gs e = elim (Node-cases (node_at (u ∷ []) fs)) [
    | inl n ↦ λ q.
        make_folders-SameFor [] p (put_node (u ∷ []) dir fs) gs (ground arith) q
        ∙ put_node-SameFor [] dir fs q
    | inr (inl (c, m, n)) ↦ absurd (ground arith)
    | inr (inr n) ↦ make_folders-SameFor [] p fs gs (ground arith)
  ]

  pub remove-SameFor :
      (p : FilePath) (fs gs : Files) → remove (u ∷ p) fs ≡ some gs → SameFor v fs gs
  unfolding remove
  remove-SameFor p fs gs e q = ground (arith, erase_node-SameFor p fs q)

  pub remove_all-SameFor :
      (p : FilePath) (fs gs : Files) → remove_all (u ∷ p) fs ≡ some gs → SameFor v fs gs
  unfolding remove_all
  remove_all-SameFor p fs gs e q = ground (arith, erase_under-SameFor p fs q)

  pub rename-SameFor :
      (from to : FilePath) (fs gs : Files)
      → rename (u ∷ from) (u ∷ to) fs ≡ some gs
      → SameFor v fs gs
  unfolding rename
  rename-SameFor from to fs gs e q =
      ground (arith, rebase-SameFor from to (erase_node (u ∷ to) fs) q, erase_node-SameFor to fs q)

  pub parent-SameFor :
      (p : FilePath) (fs : Files)
      → SameFor v fs (or_same fs (create_directories (parent_path (u ∷ p)) fs))
  unfolding parent_path create_directories
  parent-SameFor [] fs = or_same-SameFor _ fs (λ gs e q. top fs gs e q)
    where
      top : (fs gs : Files) → create_directories [] fs ≡ some gs → SameFor v fs gs
      top fs gs e q = ground arith
  parent-SameFor (t ∷ p) fs =
      or_same-SameFor _ fs (create_directories-SameFor (parent_path (t ∷ p)) fs)

  pub write_file_atomic-SameFor :
      (p : FilePath) (content : Str) (now : ℕ) (fs gs : Files)
      → write_file_atomic (u ∷ p) content now fs ≡ some gs
      → SameFor v fs gs
  unfolding write_file_atomic
  write_file_atomic-SameFor p content now fs gs e q = ground (
    arith,
    parent-SameFor p fs q,
    put_node-SameFor p (file content now) (or_same fs (create_directories (parent_path (u ∷ p)) fs))
        q,
  )
