-- ===== src/Files/Quota.antt =====
-- What the quota check of src/workspace.cpp guarantees, and what it lets by.
use lectern_server.Prelude.{
  ℕ, ◌+◌, ◌-◌, ◌≤◌, ◌<◌, ◌≡◌, ◌≢◌, refl, true, ◌||◌, some, [], ◌∷◌, arith, leb, ◌==◌, Str, length,
  strs_eq_iff, ◌∙◌, sym,
}
use Prim.Native.Nat.{max}
use lectern_server.Files.{
  FilePath, Node, file, Files, find_node, node_at, put_node, is_under, size_of, dir_size_bytes,
  check_quota, existing_len,
}

-- A write over an existing entry changes the total by the difference of the sizes.
dir_size_bytes-put_node :
    (root p : FilePath) (old new : Node) (fs : Files)
    → find_node p fs ≡ some old
    → is_under root p ≡ true
    → dir_size_bytes root (put_node p new fs) + size_of old ≡ dir_size_bytes root fs + size_of new
unfolding dir_size_bytes put_node find_node
dir_size_bytes-put_node root p old new [] e u = cc
dir_size_bytes-put_node root p old new ((q, n) ∷ rest) e u =
    ground (arith, dir_size_bytes-put_node root p old new rest, strs_eq_iff q p)

size_le :
    (root p : FilePath) (old : Node) (fs : Files)
    → find_node p fs ≡ some old
    → is_under root p ≡ true
    → size_of old ≤ dir_size_bytes root fs
unfolding dir_size_bytes find_node
size_le root p old [] e u = cc
size_le root p old ((q, n) ∷ rest) e u = ground (arith, size_le root p old rest, strs_eq_iff q p)

check_quota_existing :
    (quota : ℕ) (root target : FilePath) (incoming : ℕ) (old : Str) (modified : ℕ) (fs : Files)
    → node_at target fs ≡ some (file old modified)
    → length old ≤ dir_size_bytes root fs
    → dir_size_bytes root fs + incoming < 18446744073709551616
    → check_quota quota root target incoming fs ≡ (
        quota == 0
        || (leb incoming (length old)
            || leb (dir_size_bytes root fs - length old + incoming) quota))
unfolding check_quota
check_quota_existing quota root target incoming old modified fs e le room =
    rw (e, existing_len) (ground arith)

node_at_nonempty : (p : FilePath) (fs : Files) → p ≢ [] → node_at p fs ≡ find_node p fs
unfolding node_at
node_at_nonempty [] fs n = absurd (n refl)
node_at_nonempty (s ∷ p) fs n = refl

-- Let a quota be set, and the sizes stay below 2^64. An overwrite of an existing file under the
-- root that passes the check leaves the total within the quota, or not larger than it was.
pub overwrite_within_quota :
    (quota : ℕ) (root target : FilePath) (content old : Str) (now modified : ℕ) (fs : Files)
    → target ≢ []
    → node_at target fs ≡ some (file old modified)
    → is_under root target ≡ true
    → dir_size_bytes root fs + length content < 18446744073709551616
    → quota ≢ 0
    → check_quota quota root target (length content) fs ≡ true
    → dir_size_bytes root (put_node target (file content now) fs)
      ≤ max quota (dir_size_bytes root fs)
overwrite_within_quota quota root target content old now modified fs n e u room q c =
    let found : find_node target fs ≡ some (file old modified) =
      sym (node_at_nonempty target fs n) ∙ e in
    let le = size_le root target (file old modified) fs found u in
    ground (
      arith,
      le,
      dir_size_bytes-put_node root target (file old modified) (file content now) fs found u,
      check_quota_existing quota root target (length content) old modified fs e le room,
    )
