-- ===== src/Fonts/Rows.antt =====
-- The table of the account fonts: what every request of src/fonts.cpp keeps true of it.
use lectern_server.Prelude.{
  ◌+◌, ◌≤◌, ◌<◌, ◌≡◌, refl, Bool, false, some, List, [], ◌∷◌, ◌++◌, arith, Str, str_eq, str_eq_iff,
  length, any, keep_if, All, All-append, All-keep_if, if◌then◌else◌,
}
use lectern_server.Database.{FontRow}
use lectern_server.Database.Fonts.{font_conflict}
use lectern_server.Fonts.{content_type_for, is_bad_family_name}

-- A stored name is one that the upload accepts, and the type one of the four.
abbrev pub IsSoundRow : FontRow → Type 0
IsSoundRow row =
    (is_bad_family_name row.family_name ≡ false)
    × ((ext : Str) × (content_type_for ext ≡ some row.content_type))

-- No two rows share their id, or their owner and family name.
abbrev pub AreDistinct : List FontRow → Type 0
AreDistinct [] = Unit
AreDistinct (row ∷ rows) = (any (font_conflict row) rows ≡ false) × AreDistinct rows

abbrev pub owned : Str → List FontRow → List FontRow
owned owner_id rows = keep_if (λ (f : FontRow). str_eq f.owner_id owner_id) rows

abbrev pub IsSound : List FontRow → Type 0
IsSound rows =
    All IsSoundRow rows × AreDistinct rows × ((owner_id : Str) → length (owned owner_id rows) ≤ 30)

any-keep_if :
    {A : Type 0} (p q : A → Bool) (xs : List A) → any p xs ≡ false → any p (keep_if q xs) ≡ false
any-keep_if p q [] h = refl
any-keep_if p q (x ∷ xs) h = ground (arith, any-keep_if p q xs)

any-added :
    {A : Type 0} (p : A → Bool) (xs : List A) (y : A)
    → any p xs ≡ false
    → p y ≡ false
    → any p (xs ++ y ∷ []) ≡ false
any-added p [] y h k = rw k refl
any-added p (x ∷ xs) y h k = ground (arith, any-added p xs y)

AreDistinct-keep_if :
    (q : FontRow → Bool) (rows : List FontRow) → AreDistinct rows → AreDistinct (keep_if q rows)
AreDistinct-keep_if q [] h = h
AreDistinct-keep_if q (row ∷ rows) (h, k) =
    ground (arith, any-keep_if (font_conflict row) q rows h, AreDistinct-keep_if q rows k)

font_conflict_comm : (a b : FontRow) → font_conflict a b ≡ false → font_conflict b a ≡ false
font_conflict_comm a b h = ground (
  arith,
  str_eq_iff a.id b.id,
  str_eq_iff b.id a.id,
  str_eq_iff a.owner_id b.owner_id,
  str_eq_iff b.owner_id a.owner_id,
  str_eq_iff a.family_name b.family_name,
  str_eq_iff b.family_name a.family_name,
)

AreDistinct-added :
    (rows : List FontRow) (new : FontRow)
    → AreDistinct rows
    → any (font_conflict new) rows ≡ false
    → AreDistinct (rows ++ new ∷ [])
AreDistinct-added [] new h k = (refl, tt)
AreDistinct-added (row ∷ rows) new (h, i) k = (
  any-added (font_conflict row) rows new h (font_conflict_comm new row (ground arith)),
  AreDistinct-added rows new i (ground arith),
)

pub length-keep_if :
    (p q : FontRow → Bool) (rows : List FontRow)
    → length (keep_if p (keep_if q rows)) ≤ length (keep_if p rows)
length-keep_if p q [] = omega arith
length-keep_if p q (row ∷ rows) = ground (arith, length-keep_if p q rows)

owned-added :
    (owner_id : Str) (rows : List FontRow) (new : FontRow)
    → length (owned owner_id (rows ++ new ∷ []))
      ≡ length (owned owner_id rows) + (if str_eq new.owner_id owner_id then 1 else 0)
owned-added owner_id [] new = ground arith
owned-added owner_id (row ∷ rows) new = ground (arith, owned-added owner_id rows new)

pub IsSound-keep_if :
    (q : FontRow → Bool) (rows : List FontRow) → IsSound rows → IsSound (keep_if q rows)
IsSound-keep_if q rows (h, d, k) = (
  All-keep_if IsSoundRow q rows h,
  AreDistinct-keep_if q rows d,
  λ o. omega (arith, length-keep_if (λ (f : FontRow). str_eq f.owner_id o) q rows, k o),
)

pub IsSound-added :
    (rows : List FontRow) (new : FontRow)
    → IsSound rows
    → IsSoundRow new
    → length (owned new.owner_id rows) < 30
    → any (font_conflict new) rows ≡ false
    → IsSound (rows ++ new ∷ [])
IsSound-added rows new (h, d, k) s few c = (
  All-append IsSoundRow rows (new ∷ []) h (s, tt),
  AreDistinct-added rows new d c,
  λ o. ground (arith, owned-added o rows new, k o, str_eq_iff new.owner_id o),
)
