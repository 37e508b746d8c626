-- ===== src/Paths/Laws.antt =====
-- What `fSafeRelPath` of src/workspace.cpp lets through.
use lectern_server.Prelude.{
  ℕ, true, false, ◌≡◌, ◌≢◌, refl, ◌⊎◌, inl, inr, List, [], ◌∷◌, ◌++◌, arith, Bool-cases, Str, bytes,
  str_eq_iff, is_empty, All, All-append, append_assoc, append-nil, sym, ap, ◌∙◌,
}
use lectern_server.Error.{ok, err, ◌>>=◌, >>=-eq-ok}
use lectern_server.Paths.{
  invalid_path, has, is_separator, flush, walk, join, joined, starts_absolute, safe_rel_path,
}

-- A byte that may stand in a segment while it is read.
abbrev pub IsSegmentByte : ℕ → Type 0
IsSegmentByte c = (c ≢ b'/') × (c ≢ 92) × (c ≢ 0)

abbrev pub IsPlain : Str → Type 0
IsPlain segment =
    (segment ≢ [])
    × (segment ≢ bytes ".")
    × (segment ≢ bytes "..")
    × (has b':' segment ≡ false)
    × All IsSegmentByte segment

is_empty_iff : (s : Str) → is_empty s ≡ false → s ≢ []
is_empty_iff [] h = cc
is_empty_iff (c ∷ s) h = λ e. cc

flush-IsPlain :
    (segments : List Str) (current : Str) {out : List Str}
    → flush segments current ≡ ok out
    → All IsPlain segments
    → All IsSegmentByte current
    → All IsPlain out
unfolding flush
flush-IsPlain segments [] e h k = ground arith
flush-IsPlain segments (c ∷ s) e h k = ground (
  arith,
  str_eq_iff (c ∷ s) (bytes "."),
  str_eq_iff (c ∷ s) (bytes ".."),
  All-append IsPlain segments ((c ∷ s) ∷ []) h,
)

walk_separator :
    (segments : List Str) (current : Str) (c : ℕ) (s : Str)
    → is_separator c ≡ true
    → walk segments current (c ∷ s) ≡ (flush segments current >>= λ done. walk done [] s)
unfolding walk
walk_separator segments current c s h = rw h

walk_byte :
    (segments : List Str) (current : Str) (c : ℕ) (s : Str)
    → IsSegmentByte c
    → walk segments current (c ∷ s) ≡ walk segments (current ++ c ∷ []) s
unfolding walk
walk_byte segments current c s h = ground arith

-- A character of a path is a separator, a segment's byte or the byte 0, which is refused.
byte_cases :
    (segments : List Str) (current : Str) (c : ℕ) (s : Str)
    → (is_separator c ≡ true)
      ⊎ (IsSegmentByte c ⊎ ((c ≡ 0) × (walk segments current (c ∷ s) ≡ err invalid_path)))
unfolding walk
byte_cases segments current c s = ground arith

walk-IsPlain :
    (segments : List Str) (current s : Str) {out : List Str}
    → walk segments current s ≡ ok out
    → All IsPlain segments
    → All IsSegmentByte current
    → All IsPlain out
unfolding walk
walk-IsPlain segments current [] e h k = flush-IsPlain segments current e h k
walk-IsPlain segments current (c ∷ s) {out} e h k = elim (byte_cases segments current c s) [
  | inl sep ↦
      let (done, flushed, more) =
        >>=-eq-ok (flush segments current) _ (sym (walk_separator segments current c s sep) ∙ e) in
      walk-IsPlain done [] s more (flush-IsPlain segments current flushed h k) tt
  | inr (inl plain) ↦
      walk-IsPlain segments (current ++ c ∷ []) s (sym (walk_byte segments current c s plain) ∙ e) h
        (All-append IsSegmentByte current (c ∷ []) k (plain, tt))
  | inr (inr (_, refused)) ↦ cc
]

abbrev pub IsCanonical : Str → Type 0
IsCanonical q = (segments : List Str) × (segments ≢ []) × (q ≡ join segments) × All IsPlain segments

joined-IsCanonical :
    (segments : List Str) {q : Str} → joined segments ≡ ok q → All IsPlain segments → IsCanonical q
joined-IsCanonical [] e h = cc
joined-IsCanonical (x ∷ xs) e h = (x ∷ xs, (λ n. cc), ground arith, h)

-- What is accepted is a "/"-joined list of at least one segment, each of them non-empty, neither
-- "." nor "..", and free of "/", "\", ":" and the byte 0.
pub safe_rel_path-IsCanonical : (p : Str) {q : Str} → safe_rel_path p ≡ ok q → IsCanonical q
unfolding safe_rel_path
safe_rel_path-IsCanonical p e = elim (Bool-cases (starts_absolute p)) [
  | inl bad ↦ absurd (ground arith)
  | inr good ↦
      let (segments, walked, made) = >>=-eq-ok (walk [] [] p) joined (rw good at e) in
      joined-IsCanonical segments made (walk-IsPlain [] [] p walked tt tt)
]

flush_plain :
    (segments : List Str) (segment : Str)
    → IsPlain segment
    → flush segments segment ≡ ok (segments ++ segment ∷ [])
unfolding flush
flush_plain segments [] h = absurd (h.0 refl)
flush_plain segments (c ∷ s) h =
    ground (arith, str_eq_iff (c ∷ s) (bytes "."), str_eq_iff (c ∷ s) (bytes ".."))

walk_segment :
    (segments : List Str) (current segment rest : Str)
    → All IsSegmentByte segment
    → walk segments current (segment ++ rest) ≡ walk segments (current ++ segment) rest
walk_segment segments current [] rest h = rw (append-nil current)
walk_segment segments current (c ∷ s) rest (p, h) =
    walk_byte segments current c (s ++ rest) p
    ∙ walk_segment segments (current ++ c ∷ []) s rest h
    ∙ ap (λ t. walk segments t rest) (append_assoc current (c ∷ []) s)

walk-join :
    (done : List Str) (segments : List Str)
    → segments ≢ []
    → All IsPlain segments
    → walk done [] (join segments) ≡ ok (done ++ segments)
unfolding walk join
walk-join done [] n h = absurd (n refl)
walk-join done (x ∷ []) n (p, h) =
    sym (ap (walk done []) (append-nil x)) ∙ walk_segment done [] x [] p.4 ∙ flush_plain done x p
walk-join done (x ∷ y ∷ rest) n (p, h) =
    walk_segment done [] x (b'/' ∷ join (y ∷ rest)) p.4
    ∙ walk_separator done x b'/' (join (y ∷ rest)) refl
    ∙ ap (λ m. m >>= λ d. walk d [] (join (y ∷ rest))) (flush_plain done x p)
    ∙ walk-join (done ++ x ∷ []) (y ∷ rest) (λ e. cc) h
    ∙ ap ok (append_assoc done (x ∷ []) (y ∷ rest))

join-not_absolute :
    (segments : List Str)
    → segments ≢ []
    → All IsPlain segments
    → starts_absolute (join segments) ≡ false
unfolding join
join-not_absolute [] n h = absurd (n refl)
join-not_absolute ([] ∷ rest) n (p, h) = absurd (p.0 refl)
join-not_absolute ((c ∷ s) ∷ []) n (p, h) = ground arith
join-not_absolute ((c ∷ s) ∷ y ∷ rest) n (p, h) = ground arith

joined-join : (segments : List Str) → segments ≢ [] → joined segments ≡ ok (join segments)
joined-join [] n = absurd (n refl)
joined-join (x ∷ xs) n = refl

-- A path in canonical form is accepted and comes back unchanged.
pub safe_rel_path-join :
    (segments : List Str)
    → segments ≢ []
    → All IsPlain segments
    → safe_rel_path (join segments) ≡ ok (join segments)
unfolding safe_rel_path
safe_rel_path-join segments n h =
    rw (join-not_absolute segments n h, walk-join [] segments n h) (joined-join segments n)

-- Validating an accepted path again accepts it and changes nothing.
pub safe_rel_path_idempotent : (p : Str) {q : Str} → safe_rel_path p ≡ ok q → safe_rel_path q ≡ ok q
safe_rel_path_idempotent p e =
    let (segments, n, made, h) = safe_rel_path-IsCanonical p e in
    rw made (safe_rel_path-join segments n h)
