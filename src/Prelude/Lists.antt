-- ===== src/Prelude/Lists.antt =====
-- Lists measured by native numbers, tests on them, and predicates by recursion.
use Prim.Native.Nat.{ℕ, zero, suc, ◌+◌}
use mathlib.Core.Path.{◌≡◌, refl, ap, subst}
use mathlib.Core.Logic.{◌⊎◌, inl, inr}
use mathlib.Core.Bool.{Bool, true, false, not, ◌||◌}
use mathlib.Core.Option.{Option, none, some}
use mathlib.Core.List.{List, [], ◌∷◌, ◌++◌}
use native.Mathlib.Omega.{arith}
use lectern_server.Prelude.Tests.{if◌then◌else◌, Bool-cases}

module _ {ℓ} {A : Type ℓ} where
  abbrev pub length : List A → ℕ
  length [] = 0
  length (x ∷ xs) = suc (length xs)

  abbrev pub is_empty : List A → Bool
  is_empty [] = true
  is_empty (x ∷ xs) = false

  abbrev pub take : ℕ → List A → List A
  take zero xs = []
  take (suc n) [] = []
  take (suc n) (x ∷ xs) = x ∷ take n xs

  abbrev pub drop : ℕ → List A → List A
  drop zero xs = xs
  drop (suc n) [] = []
  drop (suc n) (x ∷ xs) = drop n xs

  abbrev pub any : (A → Bool) → List A → Bool
  any p [] = false
  any p (x ∷ xs) = p x || any p xs

  -- The entries that pass a Boolean test.
  abbrev pub keep_if : (A → Bool) → List A → List A
  keep_if p [] = []
  keep_if p (x ∷ xs) = if p x then x ∷ keep_if p xs else keep_if p xs

  abbrev pub find_if : (A → Bool) → List A → Option A
  find_if p [] = none
  find_if p (x ∷ xs) = if p x then some x else find_if p xs

  pub length-append : (xs ys : List A) → length (xs ++ ys) ≡ length xs + length ys
  length-append [] ys = omega arith
  length-append (x ∷ xs) ys = omega (arith, length-append xs ys)

module _ {ℓ κ} {A : Type ℓ} (P : A → Type κ) where
  abbrev pub All : List A → Type κ
  All [] = Unit
  All (x ∷ xs) = P x × All xs

  pub All-append : (xs ys : List A) → All xs → All ys → All (xs ++ ys)
  All-append [] ys h k = k
  All-append (x ∷ xs) ys (p, h) k = (p, All-append xs ys h k)

  pub All-keep_if : (p : A → Bool) (xs : List A) → All xs → All (keep_if p xs)
  All-keep_if p [] h = h
  All-keep_if p (x ∷ xs) h = ground (arith, All-keep_if p xs h.1)

pub All-imp {ℓ κ μ} :
    {A : Type ℓ} (P : A → Type κ) (Q : A → Type μ) (xs : List A)
    → ((a : A) → P a → Q a)
    → All P xs
    → All Q xs
All-imp P Q [] f h = tt
All-imp P Q (x ∷ xs) f (p, h) = (f x p, All-imp P Q xs f h)

-- `ORDER BY`, as an insertion sort.
module _ {ℓ} {A : Type ℓ} where
  abbrev pub insert_by : (A → A → Bool) → A → List A → List A
  insert_by before x [] = x ∷ []
  insert_by before x (y ∷ ys) = if before x y then x ∷ y ∷ ys else y ∷ insert_by before x ys

  unfoldable pub order_by : (A → A → Bool) → List A → List A
  order_by before [] = []
  order_by before (x ∷ xs) = insert_by before x (order_by before xs)

-- The images that there are.
abbrev gathered {ℓ} : {B : Type ℓ} → Option B → List B → List B
gathered none ys = ys
gathered (some y) ys = y ∷ ys

unfoldable pub gather {ℓ κ} : {A : Type ℓ} {B : Type κ} → (A → Option B) → List A → List B
gather f [] = []
gather f (x ∷ xs) = gathered (f x) (gather f xs)

module _ {ℓ} {A : Type ℓ} where
  pub take-append : (xs ys : List A) → take (length xs) (xs ++ ys) ≡ xs
  take-append [] ys = refl
  take-append (x ∷ xs) ys = ap (◌∷◌ x) (take-append xs ys)

  pub drop-append : (xs ys : List A) → drop (length xs) (xs ++ ys) ≡ ys
  drop-append [] ys = refl
  drop-append (x ∷ xs) ys = drop-append xs ys

  -- What a look-up finds in a list to which an entry was added, where it found none before.
  pub find_if_added :
      (p : A → Bool) (xs : List A) (y : A)
      → any p xs ≡ false
      → p y ≡ true
      → find_if p (xs ++ y ∷ []) ≡ some y
  find_if_added p [] y h k = rw k refl
  find_if_added p (x ∷ xs) y h k = ground (arith, find_if_added p xs y)

  -- A look-up for what a filter has taken out.
  pub find_if-keep_if :
      (p : A → Bool) (xs : List A) → find_if p (keep_if (λ x. not (p x)) xs) ≡ none
  find_if-keep_if p [] = refl
  find_if-keep_if p (x ∷ xs) = ground (arith, find_if-keep_if p xs)

  -- A look-up that fails has no entry to find.
  pub any-find_if : (p : A → Bool) (xs : List A) → find_if p xs ≡ none → any p xs ≡ false
  any-find_if p [] h = refl
  any-find_if p (x ∷ xs) h = ground (arith, any-find_if p xs)

  -- What holds of every entry holds of one that is found, and of none what is tested false.
  pub found_fails :
      (p q : A → Bool) (xs : List A) (x : A)
      → any q xs ≡ false
      → find_if p xs ≡ some x
      → q x ≡ false
  found_fails p q [] x h e = cc
  found_fails p q (y ∷ xs) x h e = ground (arith, found_fails p q xs x)

  pub any-imp :
      (p q : A → Bool) (xs : List A)
      → ((x : A) → p x ≡ false → q x ≡ false)
      → any p xs ≡ false
      → any q xs ≡ false
  any-imp p q [] f h = refl
  any-imp p q (x ∷ xs) f h = ground (arith, f x, any-imp p q xs f)

pub All-find_if {ℓ κ} :
    {A : Type ℓ} (P : A → Type κ) (p : A → Bool) (xs : List A) {x : A}
    → All P xs
    → find_if p xs ≡ some x
    → P x
All-find_if P p [] h e = cc
All-find_if P p (y ∷ xs) {x = x} (h, k) e = elim (Bool-cases (p y)) [
  | inl hit ↦ let same : y ≡ x = cc in subst P same h
  | inr miss ↦ All-find_if P p xs k (ground arith)
]

-- Membership, by position.
abbrev pub In : {A : Type 0} → A → List A → Type 0
In x [] = ⊥
In x (y ∷ ys) = (y ≡ x) ⊎ In x ys

past : {P Q R R' : Type 0} → (P → R') → (R → R') → P ⊎ (Q ⊎ R) → Q ⊎ R'
past f g (inl p) = inr (f p)
past f g (inr (inl q)) = inl q
past f g (inr (inr r)) = inr (g r)

In-insert_by :
    {A : Type 0} (before : A → A → Bool) (x y : A) (ys : List A)
    → (y ≡ x) ⊎ In x ys
    → In x (insert_by before y ys)
In-insert_by before x y [] h = h
In-insert_by before x y (z ∷ ys) h = elim (Bool-cases (before y z)) [
  | inl first ↦ rw first h
  | inr later ↦
      rw later
        (past (λ e. In-insert_by before x y ys (inl e)) (λ i. In-insert_by before x y ys (inr i)) h)
]

-- Sorting loses nothing.
pub In-order_by :
    {A : Type 0} (before : A → A → Bool) (x : A) (xs : List A) → In x xs → In x (order_by before xs)
unfolding order_by
In-order_by before x [] h = elim h [ ]
In-order_by before x (y ∷ ys) (inl e) = In-insert_by before x y (order_by before ys) (inl e)
In-order_by before x (y ∷ ys) (inr i) =
    In-insert_by before x y (order_by before ys) (inr (In-order_by before x ys i))
