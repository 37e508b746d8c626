-- ===== src/Limiter/Refines.antt =====
-- `RateLimiter` of src/state.cpp against a table that forgets nothing: each (client, bucket name) has a
-- counter of its own, and there is no sweep.
use lectern_server.Prelude.{
  ℕ, ◌-◌, ◌≤◌, ◌≡◌, ◌⊎◌, refl, inl, inr, Bool, true, false, Option, none, some, List, [], ◌∷◌,
  arith, leb, leb→le, if◌then◌else◌, Bool-cases, Str, ◌∙◌, sym, ap,
}
use lectern_server.Limiter.{
  Bucket, Buckets, max_window, same_key, find_bucket, is_limited, sweep, bucket_or_new, restarted,
  counted, record_hit,
}
use lectern_server.Limiter.Window.{
  IsMap, record_hit-IsMap, if_live, find_bucket-sweep, find_bucket-put_bucket,
  find_bucket-record_hit_other,
}

-- A call of the limiter, with the time it is made at.
pub data Call : Type 0 where
  asks : (ip kind : Str) (max window now : ℕ) → Call
  hits : (ip kind : Str) (window now : ℕ) → Call

-- The answers of a sequence of calls.
pub answers : Buckets → List Call → List Bool
answers buckets [] = []
answers buckets (asks ip kind max window now ∷ calls) =
    is_limited buckets ip kind max window now ∷ answers buckets calls
answers buckets (hits ip kind window now ∷ calls) =
    answers (record_hit buckets ip kind window now) calls

abbrev pub Counters : Type 0
Counters = Str → Str → Option Bucket

abbrev pub no_hits : Counters
no_hits ip kind = none

abbrev pub is_spent : Option Bucket → (max window now : ℕ) → Bool
is_spent none max window now = false
is_spent (some b) max window now = if leb window (now - b.start) then false else leb max b.count

abbrev pub hit : Option Bucket → (window now : ℕ) → Bucket
hit counter window now = counted (restarted (bucket_or_new counter) window now)

abbrev pub hit_at : Counters → Str → Str → (window now : ℕ) → Counters
hit_at counters ip kind window now i k =
    if same_key (ip, kind) i k then some (hit (counters ip kind) window now) else counters i k

unfoldable pub specified : Counters → List Call → List Bool
specified counters [] = []
specified counters (asks ip kind max window now ∷ calls) =
    is_spent (counters ip kind) max window now ∷ specified counters calls
specified counters (hits ip kind window now ∷ calls) =
    specified (hit_at counters ip kind window now) calls

-- The steady clock does not go back, and no window is longer than the longest one.
abbrev pub InOrder : ℕ → List Call → Type 0
InOrder time [] = Unit
InOrder time (asks ip kind max window now ∷ calls) =
    (time ≤ now) × (window ≤ max_window) × InOrder now calls
InOrder time (hits ip kind window now ∷ calls) =
    (time ≤ now) × (window ≤ max_window) × InOrder now calls

-- A counter is in the table, or old enough to have been swept.
abbrev Matches : ℕ → Option Bucket → Option Bucket → Type 0
Matches time found counter =
    (found ≡ counter)
    ⊎ ((b : Bucket) × (found ≡ none) × (counter ≡ some b) × (max_window ≤ time - b.start))

Matches-later :
    (time now : ℕ) (found counter : Option Bucket)
    → time ≤ now
    → Matches time found counter
    → Matches now found counter
Matches-later time now found counter le (inl e) = inl e
Matches-later time now found counter le (inr (b, e, f, old)) = inr (b, e, f, omega arith)

Matches-live :
    (now : ℕ) (found counter : Option Bucket)
    → Matches now found counter
    → Matches now (if_live now found) counter
Matches-live now none counter m = m
Matches-live now (some b) counter (inl e) = elim (Bool-cases (leb max_window (now - b.start))) [
  | inl old ↦ rw old (inr (b, refl, sym e, leb→le max_window (now - b.start) old))
  | inr live ↦ rw live (inl e)
]
Matches-live now (some b) counter (inr (c, e, f, old)) = absurd (off e)
  where
    off : ◌≡◌ {A = Option Bucket} (some b) none → ⊥
    off k = cc

is_spent-Matches :
    (max window now : ℕ) (found counter : Option Bucket)
    → window ≤ max_window
    → Matches now found counter
    → is_spent found max window now ≡ is_spent counter max window now
is_spent-Matches max window now found counter le (inl e) = ap (λ x. is_spent x max window now) e
is_spent-Matches max window now found counter le (inr (b, e, f, old)) = rw (e, f) (ground arith)

hit-Matches :
    (window now : ℕ) (found counter : Option Bucket)
    → window ≤ max_window
    → Matches now found counter
    → hit found window now ≡ hit counter window now
hit-Matches window now found counter le (inl e) = ap (λ x. hit x window now) e
hit-Matches window now found counter le (inr (b, e, f, old)) = rw (e, f) (ground arith)

is_limited-is_spent :
    (buckets : Buckets) (ip kind : Str) (max window now : ℕ)
    → is_limited buckets ip kind max window now
      ≡ is_spent (find_bucket buckets ip kind) max window now
unfolding is_limited
is_limited-is_spent buckets ip kind max window now = ground arith

-- The table refines the counters at a time.
record Refines (time : ℕ) (buckets : Buckets) (counters : Counters) : Type 0 where
  map : IsMap buckets
  matches : (ip kind : Str) → Matches time (find_bucket buckets ip kind) (counters ip kind)

Refines-later :
    (time now : ℕ) (buckets : Buckets) (counters : Counters)
    → time ≤ now
    → Refines time buckets counters
    → Refines now buckets counters
Refines-later time now buckets counters le r = record {
  map = r.map;
  matches = λ ip kind. Matches-later time now _ _ le (r.matches ip kind);
}

find_bucket-record_hit_same :
    (buckets : Buckets) (ip kind i k : Str) (window now : ℕ)
    → IsMap buckets
    → same_key (ip, kind) i k ≡ true
    → find_bucket (record_hit buckets ip kind window now) i k
      ≡ some (hit (if_live now (find_bucket buckets ip kind)) window now)
unfolding record_hit
find_bucket-record_hit_same buckets ip kind i k window now m same =
    find_bucket-put_bucket (sweep buckets now) ip kind i k _
    ∙ rw (same, find_bucket-sweep buckets ip kind now m) refl

record_hit-Refines :
    (buckets : Buckets) (counters : Counters) (ip kind : Str) (window now : ℕ)
    → window ≤ max_window
    → Refines now buckets counters
    → Refines now (record_hit buckets ip kind window now) (hit_at counters ip kind window now)
record_hit-Refines buckets counters ip kind window now le r = record {
  map = record_hit-IsMap buckets ip kind window now r.map;
  matches = λ i k. elim (Bool-cases (same_key (ip, kind) i k)) [
    | inl same ↦
        rw (same, find_bucket-record_hit_same buckets ip kind i k window now r.map same)
          (inl (ap some (hit-Matches window now _ _ le (Matches-live now _ _ (r.matches ip kind)))))
    | inr other ↦
        rw (other, find_bucket-record_hit_other buckets ip kind i k window now r.map other)
          (Matches-live now _ _ (r.matches i k))
  ];
}

answers-Refines :
    (time : ℕ) (buckets : Buckets) (counters : Counters) (calls : List Call)
    → InOrder time calls
    → Refines time buckets counters
    → answers buckets calls ≡ specified counters calls
unfolding answers specified
answers-Refines time buckets counters [] o r = refl
answers-Refines time buckets counters (asks ip kind max window now ∷ calls) (le, w, o) r =
    let here = Refines-later time now buckets counters le r in
    let same = is_spent-Matches max window now _ _ w (here.matches ip kind) in
    rw
      (
        is_limited-is_spent buckets ip kind max window now,
        same,
        answers-Refines now buckets counters calls o here,
      )
      refl
answers-Refines time buckets counters (hits ip kind window now ∷ calls) (le, w, o) r =
    answers-Refines now _ _ calls o (
      record_hit-Refines buckets counters ip kind window now w
        (Refines-later time now buckets counters le r))

-- Let the clock not go back and no window be longer than an hour. Then the answers of a limiter that
-- starts empty, in any sequence of questions and hits of any clients, are those of a counter for
-- each client and bucket name that is fed with its own hits only and never swept.
pub answers-specified :
    (calls : List Call) → InOrder 0 calls → answers [] calls ≡ specified no_hits calls
unfolding find_bucket
answers-specified calls o =
    answers-Refines 0 [] no_hits calls o (record { map = tt; matches = λ ip kind. inl refl })
