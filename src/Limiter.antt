-- ===== src/Limiter.antt =====
-- src/state.h and src/state.cpp, `RateLimiter`: fixed-window counters by (client, bucket name).
-- Times are readings of the steady clock, in nanoseconds. A count wraps as a `uint32_t` does.
pub mod Refines
pub mod Window
mod Tests
use lectern_server.Prelude.{
  ℕ, ◌+◌, ◌-◌, ◌*◌, ◌%◌, Bool, false, not, ◌&&◌, ◌||◌, Option, none, some, List, [], ◌∷◌, leb, ◌==◌,
  if◌then◌else◌, Str, str_eq, keep_if,
}

pub record Bucket : Type 0 where
  pub count : ℕ
  pub start : ℕ

abbrev pub Buckets : Type 0
Buckets = List ((Str × Str) × Bucket)

abbrev pub seconds : ℕ → ℕ
seconds n = n * 1000000000

abbrev pub max_window : ℕ
max_window = seconds 3600

abbrev pub same_key : Str × Str → Str → Str → Bool
same_key (i, k) ip kind = str_eq i ip && str_eq k kind

-- `buckets_.find({ip, kind})`.
pub find_bucket : Buckets → Str → Str → Option Bucket
find_bucket [] ip kind = none
find_bucket ((key, b) ∷ rest) ip kind =
    if same_key key ip kind then some b else find_bucket rest ip kind

pub put_bucket : Buckets → Str → Str → Bucket → Buckets
put_bucket [] ip kind b = ((ip, kind), b) ∷ []
put_bucket ((key, old) ∷ rest) ip kind b =
    if same_key key ip kind then (key, b) ∷ rest else (key, old) ∷ put_bucket rest ip kind b

unfoldable pub is_limited : Buckets → Str → Str → (max window now : ℕ) → Bool
unfolding find_bucket str_eq
is_limited buckets ip kind max window now = elim (find_bucket buckets ip kind) [
  | none ↦ false
  | some b ↦ if leb window (now - b.start) then false else leb max b.count
]

-- The sweep that each hit begins with.
pub sweep : Buckets → ℕ → Buckets
sweep buckets now = keep_if (λ e. not (leb max_window (now - e.1.start))) buckets

-- `buckets_[{ip, kind}]` makes an empty bucket where there is none.
abbrev pub bucket_or_new : Option Bucket → Bucket
bucket_or_new none = record { count = 0; start = 0 }
bucket_or_new (some b) = b

abbrev pub restarted : Bucket → (window now : ℕ) → Bucket
restarted b window now =
    if b.count == 0 || leb window (now - b.start) then record { count = 0; start = now } else b

abbrev pub counted : Bucket → Bucket
counted b = record b { count = (b.count + 1) % 4294967296 }

unfoldable pub record_hit : Buckets → Str → Str → (window now : ℕ) → Buckets
unfolding find_bucket put_bucket sweep str_eq
record_hit buckets ip kind window now =
    let swept = sweep buckets now in
    let bucket = bucket_or_new (find_bucket swept ip kind) in
    put_bucket swept ip kind (counted (restarted bucket window now))
