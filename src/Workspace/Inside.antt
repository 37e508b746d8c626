-- ===== src/Workspace/Inside.antt =====
-- A path that `fSafeRelPath` of src/workspace.cpp accepts leads below the folder it is read from.
use lectern_server.Prelude.{
  ◌≡◌, refl, ap, true, false, List, [], ◌∷◌, ◌++◌, append_assoc, append-nil, sym, Str, All,
  is_empty, arith, bytes, str_eq_iff,
}
use lectern_server.Error.{ok}
use lectern_server.Util.{split}
use lectern_server.Paths.{safe_rel_path}
use lectern_server.Paths.Laws.{IsPlain}
use lectern_server.Paths.Folders.{safe_rel_path-split}
use lectern_server.Files.{FilePath, resolve}
use lectern_server.Workspace.{path_in}

-- The user's folder and the segments of the path, as they are.
abbrev pub plain_path : Str → Str → FilePath
plain_path user_id rel = user_id ∷ split rel b'/'

is_empty_iff : (s : Str) → is_empty s ≡ true → s ≡ []
is_empty_iff [] h = refl
is_empty_iff (c ∷ s) h = cc

resolve-plain :
    (done : FilePath) (segments : List Str)
    → All IsPlain segments
    → resolve done segments ≡ done ++ segments
unfolding resolve
resolve-plain done [] h = sym (append-nil done)
resolve-plain done (s ∷ rest) (p, h) = ground (
  arith,
  str_eq_iff s (bytes "."),
  str_eq_iff s (bytes ".."),
  is_empty_iff s,
  resolve-plain (done ++ s ∷ []) rest h,
  append_assoc done (s ∷ []) rest,
)

pub path_in-plain_path :
    (user_id given : Str) {rel : Str}
    → safe_rel_path given ≡ ok rel
    → path_in user_id rel ≡ plain_path user_id rel
unfolding path_in
path_in-plain_path user_id given {rel} e =
    resolve-plain (user_id ∷ []) (split rel b'/') (safe_rel_path-split given e).1

pub is_empty-path_in :
    (user_id given : Str) {rel : Str}
    → safe_rel_path given ≡ ok rel
    → is_empty (path_in user_id rel) ≡ false
is_empty-path_in user_id given e = ap is_empty (path_in-plain_path user_id given e)
