-- ===== src/Limiter/Tests.antt =====
-- Tests of `RateLimiter` of src/state.cpp.
use lectern_server.Prelude.{◌≡◌, refl, ◌-◌, List, [], ◌∷◌, true, false, Str, bytes, arith, str_eq}
use lectern_server.Limiter.{Buckets, find_bucket}
use lectern_server.Limiter.Window.{admitted, admitted-min}
use lectern_server.Limiter.Refines.{
  Call, asks, hits, answers, specified, no_hits, answers-specified,
}
use Prim.Native.Nat.{min}

abbrev ip : Str
ip = bytes "1"

abbrev kind : Str
kind = bytes "register"

abbrev one_hit : Buckets
one_hit = ((ip, kind), record { count = 1; start = 0 }) ∷ []

admitted-min_example : admitted one_hit ip kind 2 10 (1 ∷ 2 ∷ 3 ∷ []) ≡ min (2 - 1) 3
unfolding find_bucket str_eq
admitted-min_example =
    admitted-min one_hit ip kind (record { count = 1; start = 0 }) 2 10 (1 ∷ 2 ∷ 3 ∷ []) (refl, tt)
      refl (omega arith) (omega arith) (omega arith) (omega arith)
      (omega arith, (omega arith, (omega arith, tt)))

-- Two hits of one client and one of another; the first window has passed when it asks last.
abbrev some_calls : List Call
some_calls =
    hits ip kind 10 1
    ∷ hits (bytes "2") kind 10 2
    ∷ hits ip kind 10 3
    ∷ asks ip kind 2 10 4
    ∷ asks (bytes "2") kind 2 10 4
    ∷ asks ip kind 2 10 11
    ∷ []

spent_for_a_window : specified no_hits some_calls ≡ true ∷ false ∷ false ∷ []
unfolding specified str_eq
spent_for_a_window = refl

answers-specified_example : answers [] some_calls ≡ specified no_hits some_calls
answers-specified_example = answers-specified some_calls (
  omega arith,
  omega arith,
  (
    omega arith,
    omega arith,
    (
      omega arith,
      omega arith,
      (omega arith, omega arith, (omega arith, omega arith, (omega arith, omega arith, tt))),
    ),
  ),
)
