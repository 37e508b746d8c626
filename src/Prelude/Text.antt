-- ===== src/Prelude/Text.antt =====
-- C++ strings as lists of bytes, their equality test, and searches for a byte.
use Prim.Native.Nat.{ℕ, suc, ◌+◌}
use Prim.Native.Char.{code}
use Prim.Native.String.{String}
use mathlib.Core.Path.{◌≡◌, refl, sym, ap, ◌∙◌}
use mathlib.Core.Logic.{◌↔◌, inl, inr}
use mathlib.Core.Bool.{Bool, true, false, ◌&&◌}
use mathlib.Core.Option.{Option, none, some}
use mathlib.Core.Option
use mathlib.Core.List.{List, [], ◌∷◌, ◌++◌}
use native.Mathlib.Omega.{arith}
use lectern_server.Prelude.Tests.{◌==◌, ltb, if◌then◌else◌, Option-cases}
use lectern_server.Prelude.Lists.{length, take, drop, take-append}

abbrev pub Str : Type 0
Str = List ℕ

-- The bytes of a literal of the source: its code points, which are all below 128.
abbrev pub bytes : String → Str
bytes String.[] = []
bytes (String.◌∷◌ c s) = code c ∷ bytes s

unfoldable pub str_eq : Str → Str → Bool
str_eq [] [] = true
str_eq (a ∷ x) (b ∷ y) = (a == b) && str_eq x y
str_eq _ _ = false

pub str_eq_sound : (x y : Str) → str_eq x y ≡ true → x ≡ y
unfolding str_eq
str_eq_sound [] [] h = refl
str_eq_sound (a ∷ x) (b ∷ y) h = ground (arith, str_eq_sound x y)
str_eq_sound [] (b ∷ y) h = cc
str_eq_sound (a ∷ x) [] h = cc

pub str_eq_refl : (x : Str) → str_eq x x ≡ true
unfolding str_eq
str_eq_refl [] = refl
str_eq_refl (a ∷ x) = ground (arith, str_eq_refl x)

pub str_eq_iff : (x y : Str) → (str_eq x y ≡ true) ↔ (x ≡ y)
str_eq_iff x y = (str_eq_sound x y, λ e. ground (arith, str_eq_refl x))

-- Lists of texts: file paths by their segments.
unfoldable pub strs_eq : List Str → List Str → Bool
strs_eq [] [] = true
strs_eq (a ∷ x) (b ∷ y) = str_eq a b && strs_eq x y
strs_eq _ _ = false

pub strs_eq_sound : (x y : List Str) → strs_eq x y ≡ true → x ≡ y
unfolding strs_eq
strs_eq_sound [] [] h = refl
strs_eq_sound (a ∷ x) (b ∷ y) h = ground (arith, strs_eq_sound x y, str_eq_iff a b)
strs_eq_sound [] (b ∷ y) h = cc
strs_eq_sound (a ∷ x) [] h = cc

pub strs_eq_refl : (x : List Str) → strs_eq x x ≡ true
unfolding strs_eq
strs_eq_refl [] = refl
strs_eq_refl (a ∷ x) = ground (arith, strs_eq_refl x, str_eq_refl a)

pub strs_eq_iff : (x y : List Str) → (strs_eq x y ≡ true) ↔ (x ≡ y)
strs_eq_iff x y = (strs_eq_sound x y, λ e. ground (arith, strs_eq_refl x))

-- `s.find(c)` and `s.rfind(c)`; `none` is `npos`.
unfoldable pub find : ℕ → Str → Option ℕ
find c [] = none
find c (x ∷ s) = if x == c then some 0 else Option.map suc (find c s)

abbrev later : ℕ → ℕ → Option ℕ → Option ℕ
later c x (some i) = some (suc i)
later c x none = if x == c then some 0 else none

unfoldable pub rfind : ℕ → Str → Option ℕ
rfind c [] = none
rfind c (x ∷ s) = later c x (rfind c s)

-- Byte by byte, a prefix first.
unfoldable pub str_leb : Str → Str → Bool
str_leb [] y = true
str_leb (a ∷ x) [] = false
str_leb (a ∷ x) (b ∷ y) = if ltb a b then true else (a == b) && str_leb x y

-- The first occurrence behind a text without one.
pub find-append : (c : ℕ) (x y : Str) → find c x ≡ none → find c (x ++ c ∷ y) ≡ some (length x)
unfolding find
find-append c [] y h = ground arith
find-append c (d ∷ x) y h = ground (arith, find-append c x y)

-- What stands before and behind the byte found.
pub find-eq-some :
    (c : ℕ) (s : Str) {i : ℕ} → find c s ≡ some i → s ≡ take i s ++ c ∷ drop (i + 1) s
unfolding find
find-eq-some c [] e = cc
find-eq-some c (x ∷ s) {i = i} e = elim (Option-cases (find c s)) [
  | inl n ↦ ground arith
  | inr (j, f) ↦ ground (arith, find-eq-some c s f)
]

-- The last occurrence before a text without one.
pub rfind-append : (c : ℕ) (x y : Str) → rfind c y ≡ none → rfind c (x ++ c ∷ y) ≡ some (length x)
unfolding rfind
rfind-append c [] y h = ground arith
rfind-append c (d ∷ x) y h = ground (arith, rfind-append c x y)

-- Texts without the separator are what stands behind its last occurrence.
pub append-cancel_last :
    (c : ℕ) (x y s t : Str) → rfind c s ≡ none → rfind c t ≡ none → x ++ c ∷ s ≡ y ++ c ∷ t → x ≡ y
append-cancel_last c x y s t h k e =
    let at : ◌≡◌ {A = Option ℕ} (some (length x)) (some (length y)) =
      sym (rfind-append c x s h) ∙ ap (rfind c) e ∙ rfind-append c y t k in
    let same : length x ≡ length y = cc in
    sym (take-append x (c ∷ s)) ∙ (λ i. take (same i) (e i)) ∙ take-append y (c ∷ t)
