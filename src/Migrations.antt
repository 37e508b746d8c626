-- ===== src/Migrations.antt =====
-- src/db.cpp: the path of the database, the readers of a row, and the migration runner. What SQLite makes
-- of a script is a parameter: whether it runs through, and the schema it leaves, which may be half
-- changed where it fails. A transaction keeps what the database was at BEGIN until its end. Scripts
-- do not touch `_migrations`, and recording a name that is not there does not fail.
pub mod Laws
pub mod Order
mod Tests
use lectern_server.Prelude.{
  ℕ, zero, suc, Bool, true, false, not, ◌&&◌, Option, none, some, List, [], ◌∷◌, ◌++◌, ltb, ◌==◌,
  if◌then◌else◌, Str, bytes, str_eq, str_leb, drop, length, any, keep_if, order_by,
}
use lectern_server.Error.{Result, ok, err, internal, exception}
use lectern_server.Util.{starts_with, ends_with}
use lectern_server.Settings.{ℤ, pos, stoll}

-- `fPathFromUrl`.
unfoldable pub path_from_url : Str → Str
unfolding starts_with
path_from_url database_url =
    if starts_with database_url (bytes "sqlite://")
    then drop 9 database_url
    else if starts_with database_url (bytes "sqlite:")
    then drop 7 database_url
    else database_url

-- A row: texts, as SQLite gives them, or NULL.
abbrev pub Row : Type 0
Row = List (Option Str)

unfoldable pub opt_text : Row → ℕ → Option Str
opt_text [] index = none
opt_text (column ∷ row) zero = column
opt_text (column ∷ row) (suc index) = opt_text row index

abbrev pub is_null : Row → ℕ → Bool
unfolding opt_text
is_null row index = elim (opt_text row index) [ none ↦ true | some t ↦ false ]

abbrev pub text_at : Row → ℕ → Str
unfolding opt_text
text_at row index = elim (opt_text row index) [ none ↦ [] | some t ↦ t ]

abbrev or_zero : Option ℤ → ℤ
or_zero none = pos 0
or_zero (some n) = n

unfoldable pub i64_at : Row → ℕ → ℤ
unfolding opt_text stoll
i64_at row index = elim (opt_text row index) [ none ↦ pos 0 | some t ↦ or_zero (stoll t) ]

abbrev is_zero : ℤ → Bool
is_zero (pos n) = n == 0
is_zero n = false

unfoldable pub boolean_at : Row → ℕ → Bool
unfolding i64_at
boolean_at row index = not (is_zero (i64_at row index))

-- A regular file of the directory: its name, and its content where it can be read.
abbrev pub MigrationFile : Type 0
MigrationFile = Str × Option Str

-- `entry.path().extension() == ".sql"`.
unfoldable pub is_migration : MigrationFile → Bool
unfolding ends_with
is_migration file = ends_with file.0 (bytes ".sql") && ltb 4 (length file.0)

abbrev pub name_before : MigrationFile → MigrationFile → Bool
unfolding str_leb
name_before a b = str_leb a.0 b.0

unfoldable pub migrations_in : List MigrationFile → List MigrationFile
unfolding is_migration order_by name_before
migrations_in files = order_by name_before (keep_if is_migration files)

module _ {S : Type 0} (run_script : Str → S → Bool × S) where
  -- The schema, and the rows of `_migrations`.
  pub record Store : Type 0 where
    pub schema : S
    pub applied : List Str
    -- What ROLLBACK goes back to while a transaction is open.
    pub saved : Option (S × List Str)

  abbrev pub is_applied : Str → Store → Bool
  unfolding str_eq
  is_applied name store = any (λ n. str_eq n name) store.applied

  abbrev pub begin : Store → Store
  begin store = record store { saved = some (store.schema, store.applied) }

  abbrev pub commit : Store → Store
  commit store = record store { saved = none }

  abbrev back_to : Store → Option (S × List Str) → Store
  back_to store none = store
  back_to store (some (schema, applied)) = record {
    schema = schema;
    applied = applied;
    saved = none;
  }

  abbrev pub rollback : Store → Store
  rollback store = back_to store store.saved

  -- `fExecRaw(*sql)`.
  abbrev pub run_sql : Str → Store → Bool × Store
  run_sql sql store =
      let (fine, schema) = run_script sql store.schema in (fine, record store { schema = schema })

  -- The INSERT into `_migrations`.
  abbrev pub record_name : Str → Store → Store
  record_name name store = record store { applied = store.applied ++ name ∷ [] }

  abbrev pub finish : Str → Bool × Store → Result (Unit {0}) × Store
  finish name (true, store) = (ok tt, commit (record_name name store))
  finish name (false, store) = (err (internal "sqlite"), rollback store)

  abbrev pub read_and_run : Str → Option Str → Store → Result (Unit {0}) × Store
  read_and_run name none store = (err exception, store)
  read_and_run name (some sql) store = finish name (run_sql sql (begin store))

  unfoldable pub apply_migration : MigrationFile → Store → Result (Unit {0}) × Store
  unfolding is_applied
  apply_migration (name, content) store =
      if is_applied name store then (ok tt, store) else read_and_run name content store

  abbrev pub and_then :
      Result (Unit {0}) × Store → (Store → Result (Unit {0}) × Store) → Result (Unit {0}) × Store
  and_then (ok u, store) k = k store
  and_then (err e, store) k = (err e, store)

  unfoldable pub apply_all : List MigrationFile → Store → Result (Unit {0}) × Store
  unfolding apply_migration
  apply_all [] store = (ok tt, store)
  apply_all (file ∷ files) store = and_then (apply_migration file store) (apply_all files)

  -- `fRunMigrations`; `none` where the directory is not there.
  unfoldable pub run_migrations : Option (List MigrationFile) → Store → Result (Unit {0}) × Store
  unfolding apply_all migrations_in
  run_migrations none store = (err exception, store)
  run_migrations (some files) store = apply_all (migrations_in files) store
