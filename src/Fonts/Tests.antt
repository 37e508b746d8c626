-- ===== src/Fonts/Tests.antt =====
-- Tests of src/fonts.cpp on the sample server.
use lectern_server.Prelude.{
  ◌≡◌, refl, Bool, true, false, ◌⊎◌, some, [], ◌∷◌, ◌++◌, arith, Str, bytes, str_eq, rfind,
}
use lectern_server.Error.{Result, ok}
use lectern_server.Util.{extension_of}
use lectern_server.Files
use lectern_server.World
use lectern_server.World.{Env, World, Method, Request, Response, typed_body, required_query, to_hex}
use lectern_server.Auth
use lectern_server.Auth.{current_user_id_with_headers}
use lectern_server.Fonts
use lectern_server.Fonts.{fonts_handler, font_handler, content_type_for, embed_account_fonts_style}
use lectern_server.Fonts.Rows.{IsSound}
use lectern_server.Fonts.Style.{has_angle, embed_account_fonts_style-IsClosed}
use lectern_server.Fonts.Handlers.{font_routes-IsSound}
use lectern_server.Fonts.Storing.{new_id, fonts_handler-font_handler}
use lectern_server.Sample.{sample_env, sample_world, sample_put}

abbrev upload : Request
upload = record sample_put {
  method = Method.post;
  parameter = λ name. bytes "x.ttf";
  body = bytes "glyph";
}

abbrev download : Request
download = record sample_put { method = Method.get }

sample-IsSound : IsSound sample_world.db.custom_fonts
unfolding Fonts.is_bad_family_name content_type_for str_eq Fonts.is_unsafe_family_char
sample-IsSound = (((refl, (bytes "ttf", refl)), tt), (refl, tt), λ o. ground (arith))

has_angle-to_hex : (s : Str) → has_angle (to_hex s) ≡ false
unfolding to_hex
has_angle-to_hex [] = refl
has_angle-to_hex (c ∷ s) = ground (arith, has_angle-to_hex s)

font_routes-IsSound_example :
    IsSound (fonts_handler sample_env upload sample_world).1.db.custom_fonts
    × IsSound (font_handler sample_env upload (bytes "f") sample_world).1.db.custom_fonts
font_routes-IsSound_example =
    font_routes-IsSound sample_env upload (bytes "f") sample_world sample-IsSound

embed_account_fonts_style-IsClosed_example :
    (embed_account_fonts_style sample_env (bytes "a") sample_world ≡ [])
    ⊎ ((body : Str) × (embed_account_fonts_style sample_env (bytes "a") sample_world
          ≡ (bytes "<style>" ++ 10 ∷ []) ++ (body ++ (bytes "</style>" ++ 10 ∷ [])))
        × (has_angle body ≡ false))
embed_account_fonts_style-IsClosed_example =
    embed_account_fonts_style-IsClosed sample_env (bytes "a") sample_world has_angle-to_hex
      sample-IsSound

-- The sheet of the sample account has its font in it.
style_runs : Bool
style_runs = str_eq (embed_account_fonts_style sample_env (bytes "a") sample_world) (
    (bytes "<style>" ++ 10 ∷ [])
    ++ (bytes
          "@font-face{font-family:'Old';src:url(data:font/ttf;base64,676c79706873) format('truetype');}"
        ++ 10 ∷ (bytes "</style>" ++ 10 ∷ [])))

style_runs_lem : style_runs ≡ true
unfolding style_runs embed_account_fonts_style Fonts.font_rules Fonts.css_string_literal_body
    Fonts.font_format_for Fonts.ext_from_content_type Fonts.is_unsafe_family_char to_hex str_eq
    rfind Files.file_content Files.node_at
style_runs_lem = refl

abbrev uploaded : Result Response × World
uploaded = fonts_handler sample_env upload sample_world

fonts_handler-font_handler_example :
    (filename : Str) × (content_type : Str) × (required_query upload "filename" ≡ ok filename)
    × (content_type_for (extension_of filename) ≡ some content_type)
    × ((answer : Response) × (font_handler sample_env download (new_id sample_env) uploaded.1
          ≡ (ok answer, uploaded.1))
        × (answer.content ≡ typed_body content_type (bytes "glyph")))
unfolding fonts_handler World.after World.found World.require Auth.current_user_id_with_headers
    Fonts.is_valid_font_id Fonts.save_font World.change_fonts Fonts.drop_existing World.execute
fonts_handler-font_handler_example =
    fonts_handler-font_handler sample_env sample_env upload download (bytes "a") sample_world
      uploaded.1 uploaded.1 _ sample-IsSound refl refl refl refl refl refl refl
