-- ===== src/Files/Reading.antt =====
-- What reading a file gives after folders were made and after a file was written.
use lectern_server.Prelude.{
  ℕ, ◌≡◌, refl, ap, ◌∙◌, false, Bool-cases, inl, inr, Option, none, some, Option-cases, [], ◌∷◌,
  ◌++◌, Str, strs_eq, strs_eq_iff, strs_eq_refl, is_empty, if◌then◌else◌, arith,
}
use lectern_server.Files.{
  FilePath, Node, file, dir, Files, node_at, put_node, make_folders, create_directories, or_same,
  parent_path, replaced, write_file_atomic, read_file, file_content, is_directory, remove,
}
use lectern_server.Files.Laws.{find_node-put_node, find_node-erase_node, Node-cases}

-- Making a folder where nothing is changes no file.
file_content-put_dir :
    (q p : FilePath) (fs : Files)
    → node_at p fs ≡ none
    → file_content q (put_node p dir fs) ≡ file_content q fs
unfolding file_content node_at
file_content-put_dir q p fs h = ground (arith, find_node-put_node q p dir fs, strs_eq_iff p q)

file_content-make_folders :
    (q done rest : FilePath) (fs gs : Files)
    → make_folders done rest fs ≡ some gs
    → file_content q gs ≡ file_content q fs
unfolding make_folders
file_content-make_folders q done [] fs gs e = ground arith
file_content-make_folders q done (s ∷ rest) fs gs e =
    elim (Node-cases (node_at (done ++ s ∷ []) fs)) [
      | inl n ↦
          file_content-make_folders q (done ++ s ∷ []) rest (put_node (done ++ s ∷ []) dir fs) gs
            (ground arith)
          ∙ file_content-put_dir q (done ++ s ∷ []) fs n
      | inr (inl (c, m, n)) ↦ absurd (ground arith)
      | inr (inr n) ↦ file_content-make_folders q (done ++ s ∷ []) rest fs gs (ground arith)
    ]

pub file_content-or_same :
    (q p : FilePath) (fs : Files)
    → file_content q (or_same fs (create_directories p fs)) ≡ file_content q fs
unfolding create_directories
file_content-or_same q p fs = elim (Option-cases (create_directories p fs)) [
  | inl n ↦ rw (n, or_same) refl
  | inr (gs, s) ↦ rw s (file_content-make_folders q [] p fs gs s)
]

file_content-put_file :
    (q p : FilePath) (content : Str) (now : ℕ) (fs : Files)
    → is_empty p ≡ false
    → file_content q (put_node p (file content now) fs)
      ≡ (if strs_eq p q then some content else file_content q fs)
unfolding file_content node_at
file_content-put_file q p content now fs h =
    ground (arith, find_node-put_node q p (file content now) fs, strs_eq_iff p q)

replaced-eq-some :
    (p : FilePath) (n : Node) (fs : Files) (there : Option Node) (gs : Files)
    → replaced p n fs there ≡ some gs
    → gs ≡ put_node p n fs
replaced-eq-some p n fs there gs e = ground arith

pub file_content-write_file_atomic :
    (p : FilePath) (content : Str) (now : ℕ) (fs gs : Files)
    → is_empty p ≡ false
    → write_file_atomic p content now fs ≡ some gs
    → (q : FilePath) → file_content q gs ≡ (if strs_eq p q then some content else file_content q fs)
unfolding write_file_atomic
file_content-write_file_atomic p content now fs gs h e q =
    elim (Bool-cases (is_directory (parent_path p) hs)) [
      | inl parent ↦
          let put : gs ≡ put_node p (file content now) hs =
            replaced-eq-some p (file content now) hs (node_at p hs) gs (rw parent at e) in
          ap (file_content q) put
          ∙ file_content-put_file q p content now hs h
          ∙ ap (λ r. if strs_eq p q then some content else r)
              (file_content-or_same q (parent_path p) fs)
      | inr missing ↦ absurd (refused (rw missing at e))
    ]
  where
    hs : Files
    hs = or_same fs (create_directories (parent_path p) fs)

    refused : ◌≡◌ {A = Option Files} none (some gs) → ⊥
    refused k = cc

-- Removing a path, or failing to, leaves the file at every other path.
pub file_content-remove :
    (q p : FilePath) (fs : Files)
    → strs_eq q p ≡ false
    → file_content q (or_same fs (remove p fs)) ≡ file_content q fs
unfolding file_content node_at remove
file_content-remove q p fs h = elim (Node-cases (node_at p fs)) [
  | inl n ↦ rw (n, or_same) refl
  | inr (inl (c, m, n)) ↦ rw (n, or_same) (ground (arith, find_node-erase_node q p fs))
  | inr (inr n) ↦ rw (n, or_same) (ground (arith, find_node-erase_node q p fs))
]

pub read_file-file_content :
    (p : FilePath) (fs : Files) {content : Str}
    → file_content p fs ≡ some content
    → read_file p fs ≡ some content
unfolding read_file file_content node_at
read_file-file_content p fs {content} e = elim (Node-cases (node_at p fs)) [
  | inl n ↦ absurd (ground arith)
  | inr (inl (c, m, n)) ↦ rw n (ground arith)
  | inr (inr n) ↦ absurd (ground arith)
]

-- After a successful write at a path that is not empty, reading the path gives what was written, and
-- every other path holds the same file as before, or none as before.
pub read_file-write_file_atomic :
    (p : FilePath) (content : Str) (now : ℕ) (fs gs : Files)
    → is_empty p ≡ false
    → write_file_atomic p content now fs ≡ some gs
    → (read_file p gs ≡ some content)
      × ((q : FilePath)
          → file_content q gs ≡ (if strs_eq p q then some content else file_content q fs))
read_file-write_file_atomic p content now fs gs h e =
    let written = file_content-write_file_atomic p content now fs gs h e in
    (
      read_file-file_content p gs
          (written p ∙ ap (λ t. if t then some content else file_content p fs) (strs_eq_refl p)),
      written,
    )
