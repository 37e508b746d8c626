-- ===== src/Migrations/Order.antt =====
-- The order in which src/db.cpp takes the migrations.
use lectern_server.Prelude.{
  ◌≡◌, refl, true, false, Bool-cases, inl, inr, List, [], ◌∷◌, arith, Str, str_leb, In, In-order_by,
  order_by, insert_by, keep_if,
}
use lectern_server.Migrations.{MigrationFile, is_migration, name_before, migrations_in}

-- No name stands before a smaller one.
abbrev pub InNameOrder : List MigrationFile → Type 0
InNameOrder [] = Unit
InNameOrder (file ∷ []) = Unit
InNameOrder (file ∷ next ∷ files) = (name_before file next ≡ true) × InNameOrder (next ∷ files)

str_leb_total : (x y : Str) → str_leb x y ≡ false → str_leb y x ≡ true
unfolding str_leb
str_leb_total [] y h = cc
str_leb_total (a ∷ x) [] h = refl
str_leb_total (a ∷ x) (b ∷ y) h = ground (arith, str_leb_total x y)

-- What is put in front of an ordered list, where it may be.
in_front :
    (y x : MigrationFile) (ys : List MigrationFile)
    → name_before y x ≡ true
    → InNameOrder (y ∷ ys)
    → InNameOrder (insert_by name_before x ys)
    → InNameOrder (y ∷ insert_by name_before x ys)
in_front y x [] h k l = (h, tt)
in_front y x (z ∷ zs) h k l = elim (Bool-cases (name_before x z)) [
  | inl first ↦ rw first (h, rw first at l)
  | inr later ↦ rw later (k.0, rw later at l)
]

tail-InNameOrder :
    (y : MigrationFile) (ys : List MigrationFile) → InNameOrder (y ∷ ys) → InNameOrder ys
tail-InNameOrder y [] h = tt
tail-InNameOrder y (z ∷ zs) h = h.1

insert_by-InNameOrder :
    (x : MigrationFile) (ys : List MigrationFile)
    → InNameOrder ys
    → InNameOrder (insert_by name_before x ys)
unfolding str_leb name_before
insert_by-InNameOrder x [] h = tt
insert_by-InNameOrder x (y ∷ ys) h = elim (Bool-cases (name_before x y)) [
  | inl first ↦ rw first (first, h)
  | inr later ↦ rw later (
      in_front y x ys (str_leb_total x.0 y.0 later) h
        (insert_by-InNameOrder x ys (tail-InNameOrder y ys h)))
]

order_by-InNameOrder : (files : List MigrationFile) → InNameOrder (order_by name_before files)
unfolding order_by
order_by-InNameOrder [] = tt
order_by-InNameOrder (x ∷ xs) =
    insert_by-InNameOrder x (order_by name_before xs) (order_by-InNameOrder xs)

In-keep_if :
    (f : MigrationFile) (files : List MigrationFile)
    → is_migration f ≡ true
    → In f files
    → In f (keep_if is_migration files)
In-keep_if f [] h i = elim i [ ]
In-keep_if f (g ∷ files) h (inl e) = rw (e, h) (inl refl)
In-keep_if f (g ∷ files) h (inr i) = elim (Bool-cases (is_migration g)) [
  | inl kept ↦ rw kept (inr (In-keep_if f files h i))
  | inr dropped ↦ rw dropped (In-keep_if f files h i)
]

pub migrations_in-InNameOrder :
    (files : List MigrationFile)
    → InNameOrder (migrations_in files)
      × ((f : MigrationFile) → is_migration f ≡ true → In f files → In f (migrations_in files))
unfolding migrations_in
migrations_in-InNameOrder files = (
  order_by-InNameOrder (keep_if is_migration files),
  λ f h i. In-order_by name_before f (keep_if is_migration files) (In-keep_if f files h i),
)
