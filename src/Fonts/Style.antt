-- ===== src/Fonts/Style.antt =====
-- The style sheet of src/fonts.cpp stays inside its element.
use lectern_server.Prelude.{
  ◌≡◌, refl, ◌∙◌, Bool, false, ◌||◌, ◌⊎◌, inl, inr, Option, none, some, List, [], ◌∷◌, ◌++◌, arith,
  Str, bytes, str_eq, any, All, All-keep_if, ◌==◌,
}
use lectern_server.Files.{Files, read_file}
use lectern_server.Database.{FontRow}
use lectern_server.Database.Fonts.{fonts_of}
use lectern_server.World.{Env, World}
use lectern_server.Fonts.{
  content_type_for, css_string_literal_body, is_unsafe_family_char, font_format_for,
  ext_from_content_type, font_face, rule_of, font_rules, file_of, style_of,
  embed_account_fonts_style,
}
use lectern_server.Fonts.Rows.{IsSoundRow, IsSound}

-- Whether a text could open or close an element.
abbrev pub has_angle : Str → Bool
has_angle s = any (λ c. c == b'<') s

has_angle-append : (x y : Str) → has_angle (x ++ y) ≡ (has_angle x || has_angle y)
has_angle-append [] y = refl
has_angle-append (c ∷ x) y = ground (arith, has_angle-append x y)

has_angle-literal : (name : Str) → has_angle (css_string_literal_body name) ≡ false
unfolding css_string_literal_body is_unsafe_family_char
has_angle-literal [] = refl
has_angle-literal (c ∷ name) = ground (arith, has_angle-literal name)

has_angle-type :
    (ext content_type : Str)
    → content_type_for ext ≡ some content_type
    → has_angle content_type ≡ false
unfolding content_type_for
has_angle-type ext content_type e = ground arith

has_angle-format : (ext : Str) → has_angle (font_format_for ext) ≡ false
unfolding font_format_for
has_angle-format ext = ground arith

-- A rule is free of angles where its row's type is one of the four.
has_angle-font_face :
    (base64 : Str → Str) (row : FontRow) (content : Str)
    → has_angle (base64 content) ≡ false
    → has_angle row.content_type ≡ false
    → has_angle (font_face base64 row content) ≡ false
unfolding font_face
has_angle-font_face base64 row content h k =
    rw
      (
        has_angle-append (css_string_literal_body row.family_name) _,
        has_angle-append row.content_type _,
        has_angle-append (base64 content) _,
        has_angle-append (font_format_for (ext_from_content_type row.content_type)) _,
        has_angle-literal row.family_name,
        h,
        k,
        has_angle-format (ext_from_content_type row.content_type),
      )
      refl

has_angle-rule_of :
    (base64 : Str → Str) (row : FontRow) (content : Option Str)
    → ((s : Str) → has_angle (base64 s) ≡ false)
    → has_angle row.content_type ≡ false
    → has_angle (rule_of base64 row content) ≡ false
has_angle-rule_of base64 row none h k = refl
has_angle-rule_of base64 row (some content) h k =
    has_angle-font_face base64 row content (h content) k

has_angle-font_rules :
    (base64 : Str → Str) (owner_id : Str) (files : Files) (rows : List FontRow)
    → ((s : Str) → has_angle (base64 s) ≡ false)
    → All IsSoundRow rows
    → has_angle (font_rules base64 owner_id files rows) ≡ false
unfolding font_rules
has_angle-font_rules base64 owner_id files [] h s = refl
has_angle-font_rules base64 owner_id files (row ∷ rows) h ((name, (ext, known)), s) =
    has_angle-append (rule_of base64 row (read_file (file_of owner_id row) files)) _
    ∙ ground (
      arith,
      has_angle-rule_of base64 row (read_file (file_of owner_id row) files) h
          (has_angle-type ext row.content_type known),
      has_angle-font_rules base64 owner_id files rows h s,
    )

style_of-cases :
    (rules : Str) (rows : List FontRow)
    → has_angle rules ≡ false
    → (style_of rules rows ≡ [])
      ⊎ ((body : Str) × (style_of rules rows
            ≡ (bytes "<style>" ++ 10 ∷ []) ++ (body ++ (bytes "</style>" ++ 10 ∷ [])))
          × (has_angle body ≡ false))
style_of-cases rules [] h = inl refl
style_of-cases rules (row ∷ rows) h = inr (rules, refl, h)

-- With a base64 encoder that writes no `<`, and a sound table of the fonts, the style sheet that the
-- export embeds for an account is empty, or one `<style>` element, a line break behind each of its
-- two tags, whose body holds no `<`: nothing in it can close the element.
pub embed_account_fonts_style-IsClosed :
    (env : Env) (owner_id : Str) (w : World)
    → ((s : Str) → has_angle (env.base64 s) ≡ false)
    → IsSound w.db.custom_fonts
    → (embed_account_fonts_style env owner_id w ≡ [])
      ⊎ ((body : Str) × (embed_account_fonts_style env owner_id w
            ≡ (bytes "<style>" ++ 10 ∷ []) ++ (body ++ (bytes "</style>" ++ 10 ∷ [])))
          × (has_angle body ≡ false))
unfolding embed_account_fonts_style
embed_account_fonts_style-IsClosed env owner_id w h (s, d, k) =
    style_of-cases _ (fonts_of owner_id w.db) (
      has_angle-font_rules env.base64 owner_id w.font_files (fonts_of owner_id w.db) h
        (All-keep_if IsSoundRow (λ (f : FontRow). str_eq f.owner_id owner_id) w.db.custom_fonts s))
