-- ===== src/Paths/Spec.antt =====
-- An independent description of `fSafeRelPath` of src/workspace.cpp: cut the whole text at its
-- separators, drop what is empty or ".", and refuse the path if what is left is not acceptable.
use lectern_server.Prelude.{
  ℕ, Bool, true, false, not, ◌||◌, ◌≡◌, refl, inl, inr, List, [], ◌∷◌, ◌++◌, arith, ◌==◌,
  if◌then◌else◌, Bool-cases, Str, bytes, str_eq, is_empty, keep_if, append_assoc, append-nil, any,
  sym, ap, ◌∙◌,
}
use lectern_server.Util.{onto_head}
use lectern_server.Error.{Result, ok, err, ◌>>=◌}
use lectern_server.Paths.{
  invalid_path, has, is_separator, flush, walk, joined, starts_absolute, safe_rel_path,
}

pub cut : Str → List Str
cut [] = [] ∷ []
cut (c ∷ s) = if is_separator c then [] ∷ cut s else onto_head c (cut s)

abbrev pub is_named : Str → Bool
is_named part = not (is_empty part || str_eq part (bytes "."))

abbrev pub is_refused : Str → Bool
is_refused part = str_eq part (bytes "..") || has b':' part

abbrev pub named_parts : Str → List Str
named_parts p = keep_if is_named (cut p)

pub described : Str → Result Str
described p =
    if starts_absolute p || has 0 p || any is_refused (named_parts p)
    then err invalid_path
    else joined (named_parts p)

-- What is still to come when `current` has been read of the first part.
abbrev onto : Str → List Str → List Str
onto current [] = current ∷ []
onto current (part ∷ parts) = (current ++ part) ∷ parts

abbrev verdict : List Str → Bool → List Str → Result (List Str)
verdict segments bad parts =
    if bad || any is_refused parts then err invalid_path else ok (segments ++ parts)

flush_lem :
    (segments : List Str) (current : Str)
    → flush segments current ≡ verdict segments false (keep_if is_named (current ∷ []))
unfolding flush
flush_lem segments [] = rw (append-nil segments)
flush_lem segments (c ∷ s) = ground (arith, append-nil segments)

onto_nil : (s : Str) → onto [] (cut s) ≡ cut s
unfolding cut
onto_nil [] = refl
onto_nil (c ∷ s) = ground (arith, onto_nil s)

onto-onto_head :
    (current : Str) (c : ℕ) (parts : List Str)
    → onto current (onto_head c parts) ≡ onto (current ++ c ∷ []) parts
onto-onto_head current c [] = refl
onto-onto_head current c (part ∷ parts) = rw (append_assoc current (c ∷ []) part)

-- The verdict on a first part and on the parts behind it.
verdict-cons :
    (segments : List Str) (part : Str) (bad : Bool) (parts : List Str)
    → (verdict segments false (keep_if is_named (part ∷ [])) >>= λ done. verdict done bad parts)
      ≡ verdict segments bad (keep_if is_named (part ∷ []) ++ parts)
verdict-cons segments part bad parts =
    ground (arith, append-nil segments, append_assoc segments (part ∷ []) parts)

bind_ext :
    (m : Result (List Str)) (f g : List Str → Result (List Str))
    → ((d : List Str) → f d ≡ g d)
    → (m >>= f) ≡ (m >>= g)
bind_ext (ok d) f g h = h d
bind_ext (err e) f g h = refl

keep_if-cons :
    (part : Str) (parts : List Str)
    → keep_if is_named (part ∷ parts) ≡ keep_if is_named (part ∷ []) ++ keep_if is_named parts
keep_if-cons part parts = ground arith

separator_ne_zero : (c : ℕ) → is_separator c ≡ true → (c == 0) ≡ false
separator_ne_zero c h = ground arith

walk_lem :
    (segments : List Str) (current s : Str)
    → walk segments current s ≡ verdict segments (has 0 s) (keep_if is_named (onto current (cut s)))
unfolding walk cut
walk_lem segments current [] = rw (append-nil current) (flush_lem segments current)
walk_lem segments current (c ∷ s) = elim (Bool-cases (is_separator c)) [
  | inl sep ↦
      rw (sep, separator_ne_zero c sep, append-nil current)
        (bind_ext (flush segments current) _ _
            (λ d. walk_lem d [] s ∙ ap (λ l. verdict d (has 0 s) (keep_if is_named l)) (onto_nil s))
          ∙ ap (λ m. m >>= λ d. verdict d (has 0 s) (named_parts s)) (flush_lem segments current)
          ∙ verdict-cons segments current (has 0 s) (named_parts s)
          ∙ ap (verdict segments (has 0 s)) (sym (keep_if-cons current (cut s))))
  | inr plain ↦
      rw (plain, onto-onto_head current c (cut s))
        (ground (arith, walk_lem segments (current ++ c ∷ []) s))
]

joined-verdict :
    (bad : Bool) (parts : List Str)
    → (verdict [] bad parts >>= joined)
      ≡ (if bad || any is_refused parts then err invalid_path else joined parts)
joined-verdict bad parts = ground arith

-- The loop of `fSafeRelPath` computes what the description says, on every input.
pub safe_rel_path-described : (p : Str) → safe_rel_path p ≡ described p
unfolding safe_rel_path described
safe_rel_path-described p = elim (Bool-cases (starts_absolute p)) [
  | inl bad ↦ rw bad
  | inr good ↦ rw (good, walk_lem [] [] p, onto_nil p) (joined-verdict (has 0 p) (named_parts p))
]
