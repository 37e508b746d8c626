-- ===== src/Database/Fonts.antt =====
-- The statements that src/fonts.cpp runs on the table of migrations/0006_custom_fonts.sql.
use lectern_server.Prelude.{
  ℕ, Bool, not, ◌&&◌, ◌||◌, Option, none, some, List, [], ◌∷◌, ◌++◌, if◌then◌else◌, Str, str_eq,
  str_leb, length, any, keep_if, find_if, order_by,
}
use lectern_server.Database.{Database, FontRow, is_user}

-- WHERE owner_id = ?
abbrev pub fonts_of : Str → Database → List FontRow
fonts_of owner_id db = keep_if (λ (f : FontRow). str_eq f.owner_id owner_id) db.custom_fonts

-- ... ORDER BY family_name
unfoldable pub fonts_by_family : Str → Database → List FontRow
unfolding order_by str_eq str_leb
fonts_by_family owner_id db =
    order_by (λ (a b : FontRow). str_leb a.family_name b.family_name) (fonts_of owner_id db)

-- SELECT COUNT(*)
abbrev pub count_fonts : Str → Database → ℕ
count_fonts owner_id db = length (fonts_of owner_id db)

abbrev pub font_by_id : Str → Database → Option FontRow
font_by_id id db = find_if (λ (f : FontRow). str_eq f.id id) db.custom_fonts

abbrev pub family_key : Str → Str → FontRow → Bool
family_key owner_id family_name f = str_eq f.owner_id owner_id && str_eq f.family_name family_name

abbrev pub font_by_family : Str → Str → Database → Option FontRow
font_by_family owner_id family_name db = find_if (family_key owner_id family_name) db.custom_fonts

-- The primary key and UNIQUE (owner_id, family_name).
abbrev pub font_conflict : FontRow → FontRow → Bool
font_conflict new f = str_eq f.id new.id || family_key new.owner_id new.family_name f

unfoldable pub insert_font : FontRow → Database → Option Database
unfolding str_eq
insert_font new db =
    if any (font_conflict new) db.custom_fonts || not (is_user db new.owner_id)
    then none
    else some (record db { custom_fonts = db.custom_fonts ++ new ∷ [] })

unfoldable pub delete_font : Str → Database → Database
unfolding str_eq
delete_font id db = record db {
  custom_fonts = keep_if (λ (f : FontRow). not (str_eq f.id id)) db.custom_fonts;
}
