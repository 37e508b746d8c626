-- ===== src/Hub/Frames.antt =====
-- The frame ids of src/sync_hub.cpp: "s" and `std::to_string` of a counter.
use lectern_server.Prelude.{
  ℕ, zero, suc, ◌+◌, ◌-◌, ◌*◌, ◌/◌, ◌%◌, ◌<◌, ◌≡◌, refl, ap, sym, ◌∙◌, Bool-cases, inl, inr, [],
  ◌∷◌, ◌++◌, arith, ltb, if◌then◌else◌, Str, drop,
}

-- Decimal digits, with fuel for their number.
pub digits : ℕ → ℕ → Str
digits zero n = []
digits (suc fuel) n =
    let rest = digits fuel (n / 10) in
    if ltb n 10 then (48 + n) ∷ [] else rest ++ (48 + n % 10) ∷ []

unfoldable pub to_string : ℕ → Str
unfolding digits
to_string n = digits (suc n) n

unfoldable pub frame_id : ℕ → Str
unfolding to_string
frame_id n = b's' ∷ to_string n

-- The value of a decimal text.
value_from : ℕ → Str → ℕ
value_from acc [] = acc
value_from acc (c ∷ s) = value_from (acc * 10 + (c - 48)) s

value_from-append :
    (acc : ℕ) (s : Str) (c : ℕ) → value_from acc (s ++ c ∷ []) ≡ value_from acc s * 10 + (c - 48)
unfolding value_from
value_from-append acc [] c = refl
value_from-append acc (d ∷ s) c = value_from-append (acc * 10 + (d - 48)) s c

value_from-digits : (fuel n : ℕ) → n < fuel → value_from 0 (digits fuel n) ≡ n
unfolding digits value_from
value_from-digits zero n h = elim h [ ]
value_from-digits (suc fuel) n h = elim (Bool-cases (ltb n 10)) [
  | inl small ↦ rw small (omega arith)
  | inr big ↦
      rw (big, value_from-append 0 (digits fuel (n / 10)) (48 + n % 10))
        (ground (arith, value_from-digits fuel (n / 10)))
]

-- Two counters never give the same frame id.
pub frame_id_injective : (m n : ℕ) → frame_id m ≡ frame_id n → m ≡ n
unfolding frame_id value_from
frame_id_injective m n h =
    sym (value_from-digits (suc m) m (omega arith))
    ∙ ap (λ s. value_from 0 (drop 1 s)) h
    ∙ value_from-digits (suc n) n (omega arith)
