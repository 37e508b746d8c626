-- ===== src/Migrations/Laws.antt =====
-- The migration runner of src/db.cpp applies whole migrations, in order, and each of them once.
use lectern_server.Prelude.{◌≡◌, ◌⊎◌, Bool, true, none, List, [], ◌∷◌, ◌++◌, Str}
use lectern_server.Error.{AppError, Result, ok, err}
use lectern_server.Migrations.{MigrationFile, Store, is_applied, apply_migration, apply_all}

module _ {S : Type 0} (run_script : Str → S → Bool × S) where
  -- One migration fails and leaves the store, or has its name applied and keeps the names before; no
  -- transaction stays open.
  Done : MigrationFile → Store run_script → Result (Unit {0}) × Store run_script → Type 0
  Done file store (ok u, after) =
      (is_applied run_script file.0 after ≡ true)
      × ((name : Str)
          → is_applied run_script name store ≡ true
          → is_applied run_script name after ≡ true)
      × (after.saved ≡ none)
  Done file store (err e, after) = after ≡ store

  -- How far the runner got.
  abbrev pub GotTo :
      List MigrationFile → Store run_script → Result (Unit {0}) × Store run_script → Type 0
  GotTo files store outcome =
      (done : List MigrationFile) × (rest : List MigrationFile) × (files ≡ done ++ rest)
      × (apply_all run_script done store ≡ (ok tt, outcome.1))
      × (((rest ≡ []) × (outcome.0 ≡ ok tt))
          ⊎ ((file : MigrationFile) × (more : List MigrationFile) × (e : AppError) × (rest
                ≡ file ∷ more)
              × (outcome.0 ≡ err e)
              × (apply_migration run_script file outcome.1 ≡ (err e, outcome.1))))
