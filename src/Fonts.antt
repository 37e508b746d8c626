-- ===== src/Fonts.antt =====
-- src/fonts.cpp: the account fonts, their handlers and the style sheet that the PDF export embeds.
-- A font's file lies below `fonts_dir` in the folder of its owner. The base64 encoder is libsodium's.
pub mod Style
pub mod Rows
pub mod Handlers
pub mod Storing
pub mod Access
mod Tests
use Prim.Native.String
use lectern_server.Prelude.{
  ℕ, suc, ◌+◌, String, Bool, true, false, not, ◌&&◌, ◌||◌, Option, none, some, List, [], ◌∷◌, ◌++◌,
  map, ltb, leb, ◌==◌, if◌then◌else◌, Str, bytes, str_eq, rfind, drop, length, is_empty, any,
  keep_if,
}
use lectern_server.Error.{AppError, Result, ok, err, bad_request, not_found, exception}
use lectern_server.Util.{is_alnum, trim, extension_of}
use lectern_server.Json.{Json, text, number, object, array, field, end, to_items}
use lectern_server.Files.{FilePath, Files, or_same, remove, write_file_atomic, read_file}
use lectern_server.Database.{Database, FontRow}
use lectern_server.Database.Fonts.{
  fonts_of, fonts_by_family, count_fonts, font_by_id, font_by_family, insert_font, delete_font,
}
use lectern_server.Auth.{current_user_id_with_headers}
use lectern_server.World.{
  Env, World, M, Method, pure, after, ◌>>=◌, ◌>>◌, lift, require, found, query, execute,
  execute_total, read_fonts, change_fonts, Request, Response, typed_body, json_response,
  ok_response, required_query, uuid_v4, by_method,
}

abbrev pub max_fonts_per_account : ℕ
max_fonts_per_account = 30

abbrev pub max_font_bytes : ℕ
max_font_bytes = 5242880

unfoldable pub content_type_for : Str → Option Str
unfolding str_eq
content_type_for ext =
    if str_eq ext (bytes "ttf")
    then some (bytes "font/ttf")
    else if str_eq ext (bytes "otf")
    then some (bytes "font/otf")
    else if str_eq ext (bytes "woff")
    then some (bytes "font/woff")
    else if str_eq ext (bytes "woff2")
    then some (bytes "font/woff2")
    else none

abbrev ext_behind : Str → Option ℕ → Str
ext_behind content_type none = bytes "ttf"
ext_behind content_type (some slash) =
    if leb (length content_type) (slash + 1) then bytes "ttf" else drop (slash + 1) content_type

unfoldable pub ext_from_content_type : Str → Str
unfolding rfind
ext_from_content_type content_type = ext_behind content_type (rfind b'/' content_type)

abbrev pub font_file_path : (owner_id font_id ext : Str) → FilePath
font_file_path owner_id font_id ext = owner_id ∷ (font_id ++ b'.' ∷ ext) ∷ []

-- `std::iscntrl`, or one of '  "  <  >  \  {  }  ;  &.
unfoldable pub is_unsafe_family_char : ℕ → Bool
is_unsafe_family_char c =
    ltb c 32
    || (c == 127
        || (c == 39
            || (c == 34
                || (c == 60
                    || (c == 62
                        || (c == 92 || (c == 123 || (c == 125 || (c == 59 || c == 38)))))))))

unfoldable pub css_string_literal_body : Str → Str
unfolding is_unsafe_family_char
css_string_literal_body family_name = keep_if (λ c. not (is_unsafe_family_char c)) family_name

unfoldable pub font_format_for : Str → Str
unfolding str_eq
font_format_for ext =
    if str_eq ext (bytes "woff2")
    then bytes "woff2"
    else if str_eq ext (bytes "woff")
    then bytes "woff"
    else if str_eq ext (bytes "otf")
    then bytes "opentype"
    else bytes "truetype"

unfoldable pub is_valid_font_id : Str → Bool
unfolding is_alnum
is_valid_font_id font_id =
    not (is_empty font_id)
    && (leb (length font_id) 64 && not (any (λ c. not (is_alnum c || c == b'-')) font_id))

-- One rule of the style sheet.
abbrev pub font_face : (base64 : Str → Str) → FontRow → Str → Str
unfolding css_string_literal_body font_format_for ext_from_content_type
font_face base64 row content =
    bytes "@font-face{font-family:'"
    ++ (css_string_literal_body row.family_name
        ++ (bytes "';src:url(data:"
            ++ (row.content_type
                ++ (bytes ";base64,"
                    ++ (base64 content
                        ++ (bytes ") format('"
                            ++ (font_format_for (ext_from_content_type row.content_type)
                                ++ (bytes "');}" ++ 10 ∷ []))))))))

-- A font whose file cannot be read is passed over.
abbrev pub rule_of : (base64 : Str → Str) → FontRow → Option Str → Str
rule_of base64 row none = []
rule_of base64 row (some content) = font_face base64 row content

abbrev pub file_of : Str → FontRow → FilePath
unfolding ext_from_content_type
file_of owner_id row = font_file_path owner_id row.id (ext_from_content_type row.content_type)

unfoldable pub font_rules : (base64 : Str → Str) → Str → Files → List FontRow → Str
unfolding read_file
font_rules base64 owner_id files [] = []
font_rules base64 owner_id files (row ∷ rows) =
    rule_of base64 row (read_file (file_of owner_id row) files)
    ++ font_rules base64 owner_id files rows

abbrev pub style_of : Str → List FontRow → Str
style_of rules [] = []
style_of rules (row ∷ rows) =
    (bytes "<style>" ++ 10 ∷ []) ++ (rules ++ (bytes "</style>" ++ 10 ∷ []))

-- `fEmbedAccountFontsStyle`.
unfoldable pub embed_account_fonts_style : Env → Str → World → Str
unfolding font_rules str_eq
embed_account_fonts_style env owner_id w =
    let rows = fonts_of owner_id w.db in
    style_of (font_rules env.base64 owner_id w.font_files rows) rows

abbrev pub font_json : FontRow → Json
font_json row = object (
    field "id" (text row.id) (
      field "familyName" (text row.family_name) (
        field "contentType" (text row.content_type) (field "byteSize" (number row.byte_size) end))))

abbrev pub list_fonts : Str → M Response
unfolding fonts_by_family
list_fonts user_id = do
  rows ← query (fonts_by_family user_id)
  pure (json_response (array (to_items (map font_json rows))))

unfoldable pub is_bad_family_name : Str → Bool
unfolding is_unsafe_family_char
is_bad_family_name name = is_empty name || (ltb 100 (length name) || any is_unsafe_family_char name)

-- `fs::remove(path, ec)`, whose failure is passed over.
abbrev pub remove_font_file : FilePath → M (Unit {0})
unfolding remove
remove_font_file path w =
    (ok tt, record w { font_files = or_same w.font_files (remove path w.font_files) })

-- The row and the file that an upload under a known family name replaces.
abbrev pub drop_existing : Str → Option FontRow → M (Unit {0})
unfolding delete_font
drop_existing user_id none = pure tt
drop_existing user_id (some row) = do
  remove_font_file (file_of user_id row)
  execute_total (delete_font row.id)

abbrev pub font_row : Env → Request → (user_id id family_name filename content_type : Str) → FontRow
font_row env req user_id id family_name filename content_type = record {
  id = id;
  owner_id = user_id;
  family_name = family_name;
  filename = filename;
  content_type = content_type;
  byte_size = length req.body;
  created_at = env.now_ms;
}

-- From the draw of the id on.
abbrev pub save_font : Env → Request → (user_id ext : Str) → FontRow → M Response
unfolding write_file_atomic insert_font str_eq
save_font env req user_id ext row = do
  change_fonts exception (write_file_atomic (font_file_path user_id row.id ext) req.body env.now_ms)
  existing ← query (font_by_family user_id row.family_name)
  drop_existing user_id existing
  execute (insert_font row)
  pure (json_response (font_json row))

abbrev pub upload_font : Env → Request → Str → M Response
unfolding required_query trim is_bad_family_name extension_of content_type_for uuid_v4 str_eq
upload_font env req user_id = do
  given ← lift (required_query req "familyName")
  let family_name = trim given
  filename ← lift (required_query req "filename")
  require (not (is_bad_family_name family_name)) (bad_request "invalid font family name")
  let ext = extension_of filename
  content_type ←
      found (content_type_for ext) (bad_request "font must be .ttf, .otf, .woff or .woff2")
  require (not (is_empty req.body || ltb max_font_bytes (length req.body)))
      (bad_request "font file too large (5MB max)")
  count ← query (count_fonts user_id)
  require (ltb count max_fonts_per_account)
      (bad_request "font library is full (30 max) — delete one first")
  let id = uuid_v4 (env.random 0 16)
  save_font env req user_id ext (font_row env req user_id id family_name filename content_type)

-- GET and POST /api/fonts.
unfoldable pub fonts_handler : Env → Request → M Response
unfolding list_fonts upload_font
fonts_handler env req = do
  user_id ← current_user_id_with_headers env req
  by_method req.method (list_fonts user_id) (upload_font env req user_id)

abbrev pub delete_font_entry : Str → FontRow → M Response
unfolding delete_font
delete_font_entry user_id row = do
  remove_font_file (file_of user_id row)
  execute_total (delete_font row.id)
  pure ok_response

abbrev pub get_font : Str → FontRow → M Response
unfolding read_file
get_font user_id row = do
  content ← read_fonts (read_file (file_of user_id row))
  bytes_read ← found content not_found
  pure (record {
    code = 200;
    content = typed_body row.content_type bytes_read;
    cookies = [];
    headers = ("Cache-Control", bytes "private, max-age=3600") ∷ [];
  })

-- `if (req->method() == drogon::Delete)`.
abbrev pub by_delete : {A : Type 0} → Method → (on_delete otherwise : A) → A
by_delete Method.delete on_delete otherwise = on_delete
by_delete _ on_delete otherwise = otherwise

-- GET and DELETE /api/fonts/{id}.
unfoldable pub font_handler : Env → Request → (font_id : Str) → M Response
unfolding delete_font_entry get_font is_valid_font_id str_eq
font_handler env req font_id = do
  user_id ← current_user_id_with_headers env req
  require (is_valid_font_id font_id) (bad_request "invalid font id")
  loaded ← query (font_by_id font_id)
  row ← found loaded not_found
  require (str_eq row.owner_id user_id) not_found
  by_delete req.method (delete_font_entry user_id row) (get_font user_id row)
