-- ===== src/Paths/Tests.antt =====
-- Tests of `fSafeRelPath` of src/workspace.cpp.
use lectern_server.Prelude.{◌≡◌, Str, bytes}
use lectern_server.Paths.{safe_rel_path}
use lectern_server.Paths.Spec.{described, safe_rel_path-described}

abbrev messy : Str
messy = bytes "d//./x.mdp"

abbrev clean : Str
clean = bytes "d/x.mdp"

safe_rel_path-described_example : safe_rel_path (bytes "d/../x") ≡ described (bytes "d/../x")
safe_rel_path-described_example = safe_rel_path-described (bytes "d/../x")
