-- ===== src/Migrations/Tests.antt =====
-- A directory of three files over a schema that is the list of the scripts it ran.
use lectern_server.Prelude.{
  ◌≡◌, refl, none, Bool, true, false, some, List, [], ◌∷◌, ◌++◌, false, if◌then◌else◌, Str, bytes,
  str_eq,
}
use lectern_server.Error.{err, internal}
use lectern_server.Settings.{negsuc}
use lectern_server.Migrations.{
  MigrationFile, Store, path_from_url, i64_at, boolean_at, is_migration, run_migrations,
}

-- A script that is `bad` fails when it has changed something.
abbrev run_script : Str → List Str → Bool × List Str
run_script sql schema =
    if str_eq sql (bytes "bad") then (false, bytes "half" ∷ schema) else (true, schema ++ sql ∷ [])

abbrev two_and_notes : List MigrationFile
two_and_notes =
    (bytes "0002_b.sql", some (bytes "b"))
    ∷ (bytes "README.md", some (bytes "r"))
    ∷ (bytes "0001_a.sql", some (bytes "a"))
    ∷ []

abbrev one_is_bad : List MigrationFile
one_is_bad =
    (bytes "0003_c.sql", some (bytes "c"))
    ∷ (bytes "0002_b.sql", some (bytes "bad"))
    ∷ (bytes "0001_a.sql", some (bytes "a"))
    ∷ []

abbrev empty_store : Store run_script
empty_store = record { schema = []; applied = []; saved = none }

abbrev at_the_end : Store run_script
at_the_end = record {
  schema = bytes "a" ∷ bytes "b" ∷ [];
  applied = bytes "0001_a.sql" ∷ bytes "0002_b.sql" ∷ [];
  saved = none;
}

stops_at_the_bad_one : run_migrations run_script (some one_is_bad) empty_store ≡ (
  err (internal "sqlite"),
  record { schema = bytes "a" ∷ []; applied = bytes "0001_a.sql" ∷ []; saved = none },
)
unfolding run_migrations
stops_at_the_bad_one = refl

hidden_file : is_migration (bytes ".sql", none) ≡ false
unfolding is_migration
hidden_file = refl

path_of_url : path_from_url (bytes "sqlite:///data/x.db") ≡ bytes "/data/x.db"
unfolding path_from_url
path_of_url = refl

number_of_text : i64_at (some (bytes "-12") ∷ none ∷ []) 0 ≡ negsuc 11
unfolding i64_at
number_of_text = refl

null_is_false : boolean_at (some (bytes "1") ∷ none ∷ []) 1 ≡ false
unfolding boolean_at
null_is_false = refl
