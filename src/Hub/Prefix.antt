-- ===== src/Hub/Prefix.antt =====
-- Which changed paths belong to a followed one: `fMatchesPrefix` of src/sync_hub.cpp.
use lectern_server.Prelude.{
  ◌≡◌, refl, true, [], ◌∷◌, ◌++◌, arith, Str, length, Bool-cases, inl, inr, ◌⊎◌, str_eq, str_eq_iff,
  str_eq_refl, take, drop, ◌↔◌, and_split, take-append, drop-append,
}
use lectern_server.Hub.{matches_prefix, slash_at}

-- The path is the followed one, or lies under it as under a folder.
abbrev pub Matches : Str → Str → Type 0
Matches path prefix = (path ≡ prefix) ⊎ ((rest : Str) × (path ≡ prefix ++ b'/' ∷ rest))

take_prefix :
    (path prefix : Str)
    → str_eq (take (length prefix) path) prefix ≡ true
    → path ≡ prefix ++ drop (length prefix) path
unfolding str_eq
take_prefix path [] h = refl
take_prefix [] (c ∷ prefix) h = cc
take_prefix (d ∷ path) (c ∷ prefix) h = ground (arith, take_prefix path prefix)

slash_rest :
    (path prefix tail : Str) → path ≡ prefix ++ tail → slash_at tail ≡ true → Matches path prefix
slash_rest path prefix [] e h = cc
slash_rest path prefix (c ∷ rest) e h =
    let slash : c ≡ b'/' = ground arith in inr (rest, rw (← slash) e)

pub matches_prefix_sound :
    (path prefix : Str) → matches_prefix path prefix ≡ true → Matches path prefix
unfolding matches_prefix
matches_prefix_sound path prefix h = elim (Bool-cases (str_eq path prefix)) [
  | inl same ↦ inl ((str_eq_iff path prefix).0 same)
  | inr other ↦
      let (here, slash) = and_split _ _ (rw other at h) in
      slash_rest path prefix (drop (length prefix) path) (take_prefix path prefix here) slash
]

matches_prefix_complete :
    (path prefix : Str) → Matches path prefix → matches_prefix path prefix ≡ true
unfolding matches_prefix
matches_prefix_complete path prefix (inl same) = rw (same, str_eq_refl prefix)
matches_prefix_complete path prefix (inr (rest, e)) =
    rw (e, take-append prefix (b'/' ∷ rest), drop-append prefix (b'/' ∷ rest), str_eq_refl prefix)
      (ground arith)

-- The prefix test accepts the followed path and what lies under it, and nothing else: not a sibling
-- whose name merely begins alike.
pub matches_prefix_iff :
    (path prefix : Str) → (matches_prefix path prefix ≡ true) ↔ Matches path prefix
matches_prefix_iff path prefix =
    (matches_prefix_sound path prefix, matches_prefix_complete path prefix)
