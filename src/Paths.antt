-- ===== src/Paths.antt =====
-- src/workspace.cpp, `fSafeRelPath` and `fIsWorkFile`: which relative paths are accepted.
pub mod Folders
mod Tests
pub mod Spec
pub mod Laws
use lectern_server.Prelude.{
  ℕ, Bool, true, ◌||◌, List, [], ◌∷◌, ◌++◌, ◌==◌, if◌then◌else◌, Str, bytes, str_eq, any, is_empty,
}
use lectern_server.Error.{AppError, bad_request, Result, ok, err, ◌>>=◌}
use lectern_server.Util.{extension_of}

abbrev pub invalid_path : AppError
invalid_path = bad_request "invalid path"

abbrev pub has : ℕ → Str → Bool
has c s = any (λ d. d == c) s

-- `c == '/' || c == '\\'`.
abbrev pub is_separator : ℕ → Bool
is_separator c = c == b'/' || c == 92

-- The lambda `fFlush`: the segments after it; `current` is empty in every case that goes on.
pub flush : List Str → Str → Result (List Str)
flush segments current =
    if is_empty current
    then ok segments
    else if str_eq current (bytes ".")
    then ok segments
    else if str_eq current (bytes "..")
    then err invalid_path
    else if has b':' current
    then err invalid_path
    else ok (segments ++ current ∷ [])

-- The loop over the characters, and the `fFlush()` behind it.
pub walk : List Str → Str → Str → Result (List Str)
walk segments current [] = flush segments current
walk segments current (c ∷ s) =
    let closed = flush segments current >>= λ done. walk done [] s in
    let longer = walk segments (current ++ c ∷ []) s in
    if is_separator c then closed else if c == 0 then err invalid_path else longer

-- `segments.front()`, and "/" before each later one.
unfoldable pub join : List Str → Str
join [] = []
join (segment ∷ []) = segment
join (segment ∷ next ∷ rest) = segment ++ b'/' ∷ join (next ∷ rest)

abbrev joined : List Str → Result Str
joined [] = err invalid_path
joined (segment ∷ rest) = ok (join (segment ∷ rest))

abbrev starts_absolute : Str → Bool
starts_absolute [] = true
starts_absolute (c ∷ s) = is_separator c

unfoldable pub safe_rel_path : Str → Result Str
unfolding walk flush join str_eq
safe_rel_path rel_path =
    if starts_absolute rel_path then err invalid_path else walk [] [] rel_path >>= joined

abbrev pub work_file_extensions : List Str
work_file_extensions =
    bytes "mdp"
    ∷ bytes "mds"
    ∷ bytes "mdg"
    ∷ bytes "mdn"
    ∷ bytes "mdl"
    ∷ bytes "mdc"
    ∷ bytes "mde"
    ∷ bytes "mdb"
    ∷ bytes "mdd"
    ∷ []

unfoldable pub is_work_file : Str → Bool
unfolding str_eq extension_of
is_work_file rel_path = any (λ e. str_eq e (extension_of rel_path)) work_file_extensions
