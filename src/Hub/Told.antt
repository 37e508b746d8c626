-- ===== src/Hub/Told.antt =====
-- Whom a change reaches: completeness of `fNotify` of src/sync_hub.cpp.
use lectern_server.Prelude.{ℕ, ◌≡◌, some, List, [], ◌∷◌, Str, ◌⊎◌, is_empty, is_empty}
use lectern_server.Hub.Table.{Connection, find_connection}
use lectern_server.Hub.{Hub, Effect, send, changes}

-- Connection `k` is sent a "changes" frame with this list.
abbrev pub IsTold : ℕ → List Str → List Effect → Type 0
IsTold k list [] = ⊥
IsTold k list (e ∷ es) = ((id : Str) × (e ≡ send k (changes id list))) ⊎ IsTold k list es

abbrev IsThere : ℕ → Hub → Type 0
IsThere k h = (c : Connection) × (find_connection k h.connections ≡ some c)

abbrev TargetIn : ℕ → List Str → List (ℕ × List Str) → Type 0
TargetIn k list [] = ⊥
TargetIn k list ((i, l) ∷ ts) = ((i ≡ k) × (l ≡ list)) ⊎ TargetIn k list ts
