-- ===== src/Listing/Tests.antt =====
-- Tests of the listings on the sample server.
use lectern_server.Prelude.{ℕ, ◌≡◌, refl, [], ◌∷◌, Str, bytes, strs_eq, str_eq}
use lectern_server.Error.{ok}
use lectern_server.Json.{Items}
use lectern_server.Files
use lectern_server.Files.{FilePath, Files}
use lectern_server.Listing.{list_dir}
use lectern_server.Listing.Walk.{IsIndexed}
use lectern_server.Listing.Complete.{Reaches, Shows, list_dir-Shows}
use lectern_server.Sample.{sample_env, sample_files}

sample_files-IsIndexed : IsIndexed sample_files
unfolding Files.find_node strs_eq str_eq
sample_files-IsIndexed = (refl, (refl, (refl, (refl, tt))))

list_dir-Shows_example :
    (items : Items) × (list_dir sample_env (bytes "a" ∷ []) sample_files ≡ ok items)
    × ((path : FilePath) (content : Str) (modified : ℕ)
        → Reaches sample_files (bytes "a" ∷ []) path content modified
        → Shows sample_env [] path content modified items)
unfolding Files.is_directory
list_dir-Shows_example =
    list_dir-Shows sample_env (bytes "a" ∷ []) sample_files sample_files-IsIndexed refl
