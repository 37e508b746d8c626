-- ===== src/Limiter/Window.antt =====
-- What the limiter of src/state.cpp promises a caller that asks before each hit.
use lectern_server.Prelude.{
  ℕ, suc, ◌+◌, ◌-◌, ◌≤◌, ◌<◌, ◌≡◌, refl, inl, inr, true, false, Option, none, some, List, [], ◌∷◌,
  arith, leb, if◌then◌else◌, Bool-cases, Str, str_eq_iff, str_eq_refl, leb→le, ◌∙◌, ap, All, length,
}
use Prim.Native.Nat.{min}
use lectern_server.Limiter.{
  Bucket, Buckets, max_window, same_key, find_bucket, put_bucket, is_limited, sweep, restarted,
  counted, record_hit,
}

-- A write is seen at its own key and at no other.
pub find_bucket-put_bucket :
    (bs : Buckets) (ip kind i k : Str) (b : Bucket)
    → find_bucket (put_bucket bs ip kind b) i k
      ≡ (if same_key (ip, kind) i k then some b else find_bucket bs i k)
unfolding find_bucket put_bucket
find_bucket-put_bucket [] ip kind i k b = refl
find_bucket-put_bucket (((j, l), old) ∷ rest) ip kind i k b = ground (
  arith,
  find_bucket-put_bucket rest ip kind i k b,
  str_eq_iff ip i,
  str_eq_iff kind k,
  str_eq_iff j ip,
  str_eq_iff l kind,
  str_eq_iff j i,
  str_eq_iff l k,
)

-- The buckets are a map: no key stands twice.
abbrev pub IsMap : Buckets → Type 0
IsMap [] = Unit
IsMap (((ip, kind), b) ∷ rest) = (find_bucket rest ip kind ≡ none) × IsMap rest

find_bucket-sweep-none :
    (bs : Buckets) (ip kind : Str) (now : ℕ)
    → find_bucket bs ip kind ≡ none
    → find_bucket (sweep bs now) ip kind ≡ none
unfolding find_bucket sweep
find_bucket-sweep-none [] ip kind now h = refl
find_bucket-sweep-none (((i, k), b) ∷ rest) ip kind now h =
    ground (arith, find_bucket-sweep-none rest ip kind now)

sweep-IsMap : (bs : Buckets) (now : ℕ) → IsMap bs → IsMap (sweep bs now)
unfolding sweep
sweep-IsMap [] now h = tt
sweep-IsMap (((i, k), b) ∷ rest) now h = elim (Bool-cases (leb max_window (now - b.start))) [
  | inl old ↦ rw old (sweep-IsMap rest now h.1)
  | inr live ↦ rw live (find_bucket-sweep-none rest i k now h.0, sweep-IsMap rest now h.1)
]

put_bucket-IsMap :
    (bs : Buckets) (ip kind : Str) (b : Bucket) → IsMap bs → IsMap (put_bucket bs ip kind b)
unfolding put_bucket find_bucket
put_bucket-IsMap [] ip kind b h = (refl, tt)
put_bucket-IsMap (((i, k), old) ∷ rest) ip kind b h = elim (Bool-cases (same_key (i, k) ip kind)) [
  | inl same ↦ rw same h
  | inr other ↦ rw other (
    ground (
      arith,
      find_bucket-put_bucket rest ip kind i k b,
      h.0,
      str_eq_iff ip i,
      str_eq_iff i ip,
      str_eq_iff kind k,
      str_eq_iff k kind,
    ),
    put_bucket-IsMap rest ip kind b h.1,
  )
]

-- Recording a hit, on a table with no key twice, gives a table with no key twice.
pub record_hit-IsMap :
    (bs : Buckets) (ip kind : Str) (window now : ℕ)
    → IsMap bs
    → IsMap (record_hit bs ip kind window now)
unfolding record_hit
record_hit-IsMap bs ip kind window now h =
    put_bucket-IsMap (sweep bs now) ip kind _ (sweep-IsMap bs now h)

-- A bucket outlives the sweep while it is younger than the longest window.
abbrev pub if_live : ℕ → Option Bucket → Option Bucket
if_live now none = none
if_live now (some b) = if leb max_window (now - b.start) then none else some b

pub find_bucket-sweep :
    (bs : Buckets) (ip kind : Str) (now : ℕ)
    → IsMap bs
    → find_bucket (sweep bs now) ip kind ≡ if_live now (find_bucket bs ip kind)
unfolding find_bucket sweep
find_bucket-sweep [] ip kind now h = refl
find_bucket-sweep (((i, k), b) ∷ rest) ip kind now h = ground (
  arith,
  find_bucket-sweep rest ip kind now h.1,
  find_bucket-sweep-none rest ip kind now,
  str_eq_iff i ip,
  str_eq_iff k kind,
)

pub find_bucket-record_hit_other :
    (bs : Buckets) (ip kind i k : Str) (window now : ℕ)
    → IsMap bs
    → same_key (ip, kind) i k ≡ false
    → find_bucket (record_hit bs ip kind window now) i k ≡ if_live now (find_bucket bs i k)
unfolding record_hit
find_bucket-record_hit_other bs ip kind i k window now h other =
    find_bucket-put_bucket (sweep bs now) ip kind i k _ ∙ rw other (find_bucket-sweep bs i k now h)

is_limited-eq :
    (bs cs : Buckets) (ip kind : Str) (max w now later : ℕ)
    → find_bucket cs ip kind ≡ if_live now (find_bucket bs ip kind)
    → w ≤ max_window
    → now ≤ later
    → is_limited cs ip kind max w later ≡ is_limited bs ip kind max w later
unfolding is_limited
is_limited-eq bs cs ip kind max w now later e le past = ground arith

-- In a table with no key twice, a hit leaves the answer for every other key as it was, at that
-- time and any later one, for windows up to the longest one.
pub is_limited-record_hit_other :
    (bs : Buckets) (ip kind i k : Str) (window now max w later : ℕ)
    → IsMap bs
    → same_key (ip, kind) i k ≡ false
    → w ≤ max_window
    → now ≤ later
    → is_limited (record_hit bs ip kind window now) i k max w later ≡ is_limited bs i k max w later
is_limited-record_hit_other bs ip kind i k window now max w later h other le past =
    is_limited-eq bs _ i k max w now later
      (find_bucket-record_hit_other bs ip kind i k window now h other) le past

-- A caller that asks first and records only what is let through, at each time of a list.
pub admitted : Buckets → Str → Str → (max window : ℕ) → List ℕ → ℕ
admitted bs ip kind max window [] = 0
admitted bs ip kind max window (now ∷ times) =
    let refused = admitted bs ip kind max window times in
    let passed = suc (admitted (record_hit bs ip kind window now) ip kind max window times) in
    if is_limited bs ip kind max window now then refused else passed

-- Every time of the list falls into the window that begins at `start`.
abbrev pub AllWithin : (start window : ℕ) → List ℕ → Type 0
AllWithin start window = All (λ t. (start ≤ t) × (t < start + window))

is_limited_live :
    (bs : Buckets) (ip kind : Str) (b : Bucket) (max window now : ℕ)
    → find_bucket bs ip kind ≡ some b
    → b.start ≤ now
    → now < b.start + window
    → is_limited bs ip kind max window now ≡ leb max b.count
unfolding is_limited
is_limited_live bs ip kind b max window now f g h = ground arith

pub same_key_self : (ip kind : Str) → same_key (ip, kind) ip kind ≡ true
same_key_self ip kind = ground (arith, str_eq_refl ip, str_eq_refl kind)

counted_live :
    (b : Bucket) (window now : ℕ)
    → 0 < b.count
    → b.count + 1 < 4294967296
    → b.start ≤ now
    → now < b.start + window
    → counted (restarted b window now) ≡ record b { count = b.count + 1 }
counted_live b window now p v g h = ground arith

find_bucket-record_hit :
    (bs : Buckets) (ip kind : Str) (b : Bucket) (window now : ℕ)
    → IsMap bs
    → find_bucket bs ip kind ≡ some b
    → 0 < b.count
    → b.count + 1 < 4294967296
    → b.start ≤ now
    → now < b.start + window
    → window ≤ max_window
    → find_bucket (record_hit bs ip kind window now) ip kind
      ≡ some (record b { count = b.count + 1 })
unfolding record_hit
find_bucket-record_hit bs ip kind b window now m f p v g h w =
    let kept : find_bucket (sweep bs now) ip kind ≡ some b =
      find_bucket-sweep bs ip kind now m ∙ rw f (ground arith) in
    find_bucket-put_bucket (sweep bs now) ip kind ip kind _
    ∙ rw (same_key_self ip kind, kept) (ap some (counted_live b window now p v g h))

-- Let no key stand twice in the table, the budget be in the range of `uint32_t` and the window at
-- most the longest one. A client with a bucket of at least one hit and no more than the budget
-- that asks at times within the bucket's window, and records what is let through, gets exactly
-- what is left of the budget or all of its hits through, whichever is less.
pub admitted-min :
    (bs : Buckets) (ip kind : Str) (b : Bucket) (max window : ℕ) (times : List ℕ)
    → IsMap bs
    → find_bucket bs ip kind ≡ some b
    → 0 < b.count
    → b.count ≤ max
    → max < 4294967296
    → window ≤ max_window
    → AllWithin b.start window times
    → admitted bs ip kind max window times ≡ min (max - b.count) (length times)
unfolding admitted is_limited record_hit
admitted-min bs ip kind b max window [] m f p c v w h = omega arith
admitted-min bs ip kind b max window (t ∷ times) m f p c v w (i, h) =
    elim (Bool-cases (leb max b.count)) [
      | inl full ↦
          rw (is_limited_live bs ip kind b max window t f i.0 i.1, full)
            (omega (
              arith,
              admitted-min bs ip kind b max window times m f p c v w h,
              leb→le max b.count full,
            ))
      | inr room ↦
          let more : b.count + 1 ≤ max = ground arith in
          rw (is_limited_live bs ip kind b max window t f i.0 i.1, room)
            (omega (
              arith,
              more,
              admitted-min (record_hit bs ip kind window t) ip kind
                  (record b { count = b.count + 1 }) max window times
                  (record_hit-IsMap bs ip kind window t m)
                  (find_bucket-record_hit bs ip kind b window t m f p (omega arith) i.0 i.1 w)
                  (omega arith) more v w h,
            ))
    ]

find_bucket-record_hit_new :
    (bs : Buckets) (ip kind : Str) (window now : ℕ)
    → IsMap bs
    → find_bucket bs ip kind ≡ none
    → find_bucket (record_hit bs ip kind window now) ip kind
      ≡ some (record { count = 1; start = now })
unfolding record_hit
find_bucket-record_hit_new bs ip kind window now m f =
    find_bucket-put_bucket (sweep bs now) ip kind ip kind _
    ∙ rw (same_key_self ip kind, find_bucket-sweep bs ip kind now m, f) refl

is_limited-none :
    (bs : Buckets) (ip kind : Str) (max window now : ℕ)
    → find_bucket bs ip kind ≡ none
    → is_limited bs ip kind max window now ≡ false
unfolding is_limited
is_limited-none bs ip kind max window now f = ground arith

-- Let no key stand twice in the table, the budget be positive and in the range of `uint32_t`, and
-- the window at most the longest one. A client without a bucket that asks at times within one
-- window of its first hit, and records what is let through, gets exactly the budget or all of its
-- hits through, whichever is less.
pub admitted_fresh :
    (bs : Buckets) (ip kind : Str) (max window t : ℕ) (times : List ℕ)
    → IsMap bs
    → find_bucket bs ip kind ≡ none
    → 0 < max
    → max < 4294967296
    → window ≤ max_window
    → AllWithin t window times
    → admitted bs ip kind max window (t ∷ times) ≡ min max (suc (length times))
unfolding admitted
admitted_fresh bs ip kind max window t times m f p v w h =
    rw (is_limited-none bs ip kind max window t f) (
      omega (
        arith,
        admitted-min (record_hit bs ip kind window t) ip kind (record { count = 1; start = t }) max
            window times (record_hit-IsMap bs ip kind window t m)
            (find_bucket-record_hit_new bs ip kind window t m f) (omega arith) p v w h,
      ))
