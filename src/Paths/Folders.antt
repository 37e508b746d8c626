-- ===== src/Paths/Folders.antt =====
-- Where an accepted path leads when std::filesystem reads it: its segments, one folder each.
use lectern_server.Prelude.{◌≡◌, ◌≢◌, refl, ap, ◌∙◌, List, [], ◌∷◌, ◌++◌, Str, All, arith}
use lectern_server.Error.{ok}
use lectern_server.Util.{split}
use lectern_server.Paths.{safe_rel_path, join}
use lectern_server.Paths.Laws.{IsSegmentByte, IsPlain, safe_rel_path-IsCanonical}

split_segment :
    (segment rest : Str)
    → All IsSegmentByte segment
    → split (segment ++ b'/' ∷ rest) b'/' ≡ segment ∷ split rest b'/'
unfolding split
split_segment [] rest h = refl
split_segment (c ∷ s) rest (p, h) = ground (arith, split_segment s rest h)

split_last : (segment : Str) → All IsSegmentByte segment → split segment b'/' ≡ segment ∷ []
unfolding split
split_last [] h = refl
split_last (c ∷ s) (p, h) = ground (arith, split_last s h)

pub split-join :
    (segments : List Str)
    → segments ≢ []
    → All IsPlain segments
    → split (join segments) b'/' ≡ segments
unfolding join
split-join [] n h = absurd (n refl)
split-join (x ∷ []) n (p, h) = split_last x p.4
split-join (x ∷ y ∷ rest) n (p, h) =
    split_segment x (join (y ∷ rest)) p.4 ∙ ap (◌∷◌ x) (split-join (y ∷ rest) (λ e. cc) h)

-- Splitting an accepted path at its slashes gives at least one folder name and nothing but plain
-- ones: none is empty, "." or "..", none has a "/", "\", ":" or a byte 0. Joining them gives the path.
pub safe_rel_path-split :
    (given : Str) {rel : Str}
    → safe_rel_path given ≡ ok rel
    → (split rel b'/' ≢ []) × All IsPlain (split rel b'/') × (join (split rel b'/') ≡ rel)
safe_rel_path-split given e =
    let (segments, n, made, h) = safe_rel_path-IsCanonical given e in
    rw (made, split-join segments n h) (n, h, refl)
