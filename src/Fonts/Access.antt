-- ===== src/Fonts/Access.antt =====
-- Whose font a request to /api/fonts/{id} of src/fonts.cpp can reach.
use lectern_server.Prelude.{◌≡◌, not, List, Str, str_eq, keep_if}
use lectern_server.Database.{Database, FontRow}
use lectern_server.Database.Fonts.{delete_font}
use lectern_server.World.{World, Method, delete}

-- The fonts with another id.
abbrev pub other_fonts : Str → Database → List FontRow
unfolding str_eq
other_fonts font_id db = keep_if (λ (f : FontRow). not (str_eq f.id font_id)) db.custom_fonts

-- What the two methods leave in the table.
Left : Method → Str → Database → Database → Type 0
Left delete font_id db db' = db' ≡ delete_font font_id db
Left other font_id db db' = db' ≡ db
