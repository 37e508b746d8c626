-- ===== src/Export/Document.antt =====
-- The document that src/export.cpp renders.
use lectern_server.Prelude.{
  ℕ, zero, suc, ◌+◌, ◌≤◌, ◌≡◌, ◌≢◌, refl, sym, ap, ◌∙◌, ◌⊎◌, true, Bool-cases, inl, inr, Option,
  none, some, Option-cases, [], ◌∷◌, ◌++◌, arith, Str, bytes, str_eq_iff, str_eq_refl, take-append,
  length, length-append, take, drop, and_split,
}
use lectern_server.Util.{starts_with}
use lectern_server.Export.{find_text, head_tag, document_at, document_of}

take-drop : (n : ℕ) (s : Str) → take n s ++ drop n s ≡ s
take-drop zero s = refl
take-drop (suc n) [] = refl
take-drop (suc n) (c ∷ s) = ap (◌∷◌ c) (take-drop n s)

take-nil : (k : ℕ) → take {A = ℕ} k [] ≡ []
take-nil zero = refl
take-nil (suc k) = refl

take-add : (n m : ℕ) (s : Str) → take (n + m) s ≡ take n s ++ take m (drop n s)
take-add zero m s = ap (λ k. take k s) (omega arith)
take-add (suc n) m [] = take-nil (suc n + m) ∙ sym (take-nil m)
take-add (suc n) m (c ∷ s) =
    let next : suc n + m ≡ suc (n + m) = omega arith in
    ap (λ k. take k (c ∷ s)) next ∙ ap (◌∷◌ c) (take-add n m s)

starts_with-take : (s prefix : Str) → starts_with s prefix ≡ true → take (length prefix) s ≡ prefix
unfolding starts_with
starts_with-take s prefix h = (str_eq_iff (take (length prefix) s) prefix).0 (and_split _ _ h).1

-- Where a text is found, it stands.
find_text-take :
    (needle s : Str) {i : ℕ}
    → find_text needle s ≡ some i
    → take (length needle) (drop i s) ≡ needle
unfolding find_text
find_text-take [] [] {i = i} e = refl
find_text-take (d ∷ needle) [] e = cc
find_text-take needle (c ∷ s) {i = i} e = elim (Bool-cases (starts_with (c ∷ s) needle)) [
  | inl here ↦
      let first : ◌≡◌ {A = Option ℕ} (some 0) (some i) = rw here at e in
      let zeroth : 0 ≡ i = cc in rw (← zeroth) (starts_with-take (c ∷ s) needle here)
  | inr later ↦ elim (Option-cases (find_text needle s)) [
    | inl n ↦ absurd (off (rw (later, n) at e))
    | inr (j, f) ↦
        let behind : ◌≡◌ {A = Option ℕ} (some (suc j)) (some i) = rw (later, f) at e in
        let at : suc j ≡ i = cc in rw (← at) (find_text-take needle s f)
  ]
]
  where
    off : ◌≡◌ {A = Option ℕ} none (some i) → ⊥
    off k = cc

starts_with-append : (needle b : Str) → starts_with (needle ++ b) needle ≡ true
unfolding starts_with
starts_with-append needle b =
    ground (arith, take-append needle b, str_eq_refl needle, length-append needle b)

-- A text that stands somewhere is found there or before.
find_text-append :
    (c : ℕ) (s a b : Str)
    → (i : ℕ) × (find_text (c ∷ s) (a ++ ((c ∷ s) ++ b)) ≡ some i) × (i ≤ length a)
unfolding find_text
find_text-append c s [] b = (0, rw (starts_with-append (c ∷ s) b) refl, omega arith)
find_text-append c s (d ∷ a) b =
    elim (Bool-cases (starts_with (d ∷ (a ++ ((c ∷ s) ++ b))) (c ∷ s))) [
      | inl here ↦ (0, rw here refl, omega arith)
      | inr on ↦
          let (i, f, le) = find_text-append c s a b in (suc i, rw (on, f) refl, omega (arith, le))
    ]

length-take-le : (n : ℕ) (s : Str) → length (take n s) ≤ n
length-take-le zero s = omega arith
length-take-le (suc n) [] = omega arith
length-take-le (suc n) (c ∷ s) = omega (arith, length-take-le n s)

-- What stands in front of the style sheet: nothing where the page has no head tag, and otherwise what
-- ends in the first one.
abbrev pub IsBeforeStyle : (html before : Str) → Type 0
IsBeforeStyle html before =
    ((before ≡ []) × ((a b : Str) → html ≢ a ++ (head_tag ++ b)))
    ⊎ ((x : Str) × (before ≡ x ++ head_tag)
        × ((a b : Str) → html ≡ a ++ (head_tag ++ b) → length x ≤ length a))

document_at-IsInserted :
    (html font_style : Str) (found : Option ℕ)
    → find_text head_tag html ≡ found
    → (before : Str) × (rest : Str) × (html ≡ before ++ rest)
      × (document_at html font_style found ≡ before ++ (font_style ++ rest))
      × IsBeforeStyle html before
document_at-IsInserted html font_style none e = ([], html, refl, refl, inl (refl, nowhere))
  where
    nowhere : (a b : Str) → html ≢ a ++ (head_tag ++ b)
    nowhere a b h =
        let (i, f, le) = find_text-append b'<' (bytes "head>") a b in
        let clash : ◌≡◌ {A = Option ℕ} none (some i) = sym e ∙ ap (find_text head_tag) h ∙ f in cc
document_at-IsInserted html font_style (some start) e = (
  take (start + length head_tag) html,
  drop (start + length head_tag) html,
  sym (take-drop (start + length head_tag) html),
  refl,
  inr (
    take start html,
    take-add start (length head_tag) html
        ∙ ap (λ t. take start html ++ t) (find_text-take head_tag html e),
    first,
  ),
)
  where
    first : (a b : Str) → html ≡ a ++ (head_tag ++ b) → length (take start html) ≤ length a
    first a b h =
        let (i, f, le) = find_text-append b'<' (bytes "head>") a b in
        let same : ◌≡◌ {A = Option ℕ} (some start) (some i) =
          sym e ∙ ap (find_text head_tag) h ∙ f in
        let at : start ≡ i = cc in omega (arith, at, le, length-take-le start html)

-- The rendered document is the posted one with the account's style sheet put in at one place: in
-- front where "<head>" stands nowhere in it, and otherwise right behind a "<head>" that no other
-- stands before.
pub document_of-IsInserted :
    (html font_style : Str)
    → (before : Str) × (rest : Str) × (html ≡ before ++ rest)
      × (document_of html font_style ≡ before ++ (font_style ++ rest))
      × IsBeforeStyle html before
unfolding document_of
document_of-IsInserted html font_style =
    document_at-IsInserted html font_style (find_text head_tag html) refl
