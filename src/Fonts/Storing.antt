-- ===== src/Fonts/Storing.antt =====
-- A font that was uploaded can be downloaded: src/fonts.cpp.
use lectern_server.Prelude.{
  ◌≡◌, refl, sym, ap, subst, ◌∙◌, true, false, Bool-cases, inl, inr, Option, none, some, [], ◌∷◌,
  ◌++◌, arith, Str, str_eq, str_eq_iff, str_eq_refl, strs_eq, strs_eq_iff, any, any-find_if,
  any-imp, found_fails, find_if, find_if_added, All-find_if, rfind, append-cancel_last,
  if◌then◌else◌, bytes,
}
use lectern_server.Error.{AppError, Result, ok, exception}
use lectern_server.Util.{trim, extension_of}
use lectern_server.Files.{FilePath, Files, file_content, write_file_atomic}
use lectern_server.Files.Reading.{
  read_file-file_content, file_content-write_file_atomic, file_content-remove,
}
use lectern_server.Database.{Database, FontRow, is_user}
use lectern_server.Database.Fonts.{
  count_fonts, font_conflict, insert_font, font_by_id, font_by_family, family_key,
}
use lectern_server.Auth.{current_user_id_with_headers}
use lectern_server.Auth.Frame.{current_user_id_with_headers-OnlySessions}
use lectern_server.World.{
  Env, World, M, Method, get, post, after, ◌>>◌, change_fonts, written_fonts, found, require,
  Request, Response, typed_body, uuid_v4, required_query, by_method,
}
use lectern_server.World.Laws.{
  >>=-eq-ok, require_then, found_then, lift_then, execute_then, query_then,
}
use lectern_server.Fonts.{
  content_type_for, ext_from_content_type, font_file_path, file_of, drop_existing, save_font,
  upload_font, font_row, fonts_handler, font_handler, get_font, is_valid_font_id, remove_font_file,
  by_delete,
}
use lectern_server.Fonts.Rows.{IsSoundRow, IsSound}

written_fonts_then :
    {B : Type 0} {b : B} {w' : World} (e : AppError) (k : M B) (w : World) (o : Option Files)
    → after (written_fonts e w o) (λ u. k) ≡ (ok b, w')
    → (gs : Files) × (o ≡ some gs) × (k (record w { font_files = gs }) ≡ (ok b, w'))
unfolding after
written_fonts_then e k w none h = cc
written_fonts_then e k w (some gs) h = (gs, refl, h)

change_fonts_then :
    {B : Type 0} {b : B} {w' : World} (e : AppError) (f : Files → Option Files) (k : M B)
    (w : World)
    → (change_fonts e f >> k) w ≡ (ok b, w')
    → (gs : Files) × (f w.font_files ≡ some gs) × (k (record w { font_files = gs }) ≡ (ok b, w'))
unfolding change_fonts
change_fonts_then e f k w h = written_fonts_then e k w (f w.font_files) h

-- The stored type gives back the extension, and no extension has a dot.
ext_from_content_type-content_type_for :
    (ext content_type : Str)
    → content_type_for ext ≡ some content_type
    → (ext_from_content_type content_type ≡ ext) × (rfind b'.' ext ≡ none)
unfolding content_type_for ext_from_content_type rfind
ext_from_content_type-content_type_for ext content_type e = ground (
  arith,
  str_eq_iff ext (bytes "ttf"),
  str_eq_iff ext (bytes "otf"),
  str_eq_iff ext (bytes "woff"),
  str_eq_iff ext (bytes "woff2"),
)

second : FilePath → Str
second (a ∷ b ∷ p) = b
second p = []

-- Fonts with different ids have different files.
file_of-apart :
    (user_id : Str) (a b : FontRow)
    → (ext : Str) × (content_type_for ext ≡ some a.content_type)
    → (ext : Str) × (content_type_for ext ≡ some b.content_type)
    → str_eq b.id a.id ≡ false
    → strs_eq (file_of user_id a) (file_of user_id b) ≡ false
unfolding file_of second
file_of-apart user_id a b (ext, e) (fxt, f) other =
    elim (Bool-cases (strs_eq (file_of user_id a) (file_of user_id b))) [
      | inl same ↦
          let (ea, da) = ext_from_content_type-content_type_for ext a.content_type e in
          let (eb, db) = ext_from_content_type-content_type_for fxt b.content_type f in
          let ids : a.id ≡ b.id =
            append-cancel_last b'.' a.id b.id _ _ (ap (rfind b'.') ea ∙ da)
              (ap (rfind b'.') eb ∙ db)
              (ap second ((strs_eq_iff (file_of user_id a) (file_of user_id b)).0 same)) in
          ground (arith, str_eq_iff b.id a.id)
      | inr apart ↦ apart
    ]

-- The file of a font that was just written, after the font that it replaces is gone.
drop_existing-reads :
    (user_id : Str) (old : Option FontRow) (new : FontRow) (w : World)
    → ((row : FontRow)
        → old ≡ some row
        → strs_eq (file_of user_id new) (file_of user_id row) ≡ false)
    → file_content (file_of user_id new) (drop_existing user_id old w).1.font_files
      ≡ file_content (file_of user_id new) w.font_files
unfolding drop_existing remove_font_file after
drop_existing-reads user_id none new w h = refl
drop_existing-reads user_id (some row) new w h =
    file_content-remove (file_of user_id new) (file_of user_id row) w.font_files (h row refl)

drop_existing-ok :
    {B : Type 0} (user_id : Str) (old : Option FontRow) (k : M B) (w : World) {b : B} {w' : World}
    → (drop_existing user_id old >> k) w ≡ (ok b, w')
    → k (drop_existing user_id old w).1 ≡ (ok b, w')
unfolding drop_existing remove_font_file after
drop_existing-ok user_id none k w e = e
drop_existing-ok user_id (some row) k w e = e

insert_font-eq-some :
    (new : FontRow) (db db' : Database)
    → insert_font new db ≡ some db'
    → font_by_id new.id db' ≡ some new
unfolding insert_font
insert_font-eq-some new db db' e = elim (Bool-cases (any (font_conflict new) db.custom_fonts)) [
  | inl clash ↦ absurd (off (rw clash at e))
  | inr free ↦ elim (Bool-cases (is_user db new.owner_id)) [
    | inl known ↦
        let added : ◌≡◌ {A = Option Database}
            (some (record db { custom_fonts = db.custom_fonts ++ new ∷ [] })) (some db') =
          rw (free, known) at e in
        let same : record db { custom_fonts = db.custom_fonts ++ new ∷ [] } ≡ db' = cc in
        ap (font_by_id new.id) (sym same)
        ∙ find_if_added (λ (f : FontRow). str_eq f.id new.id) db.custom_fonts new
            (any-imp (font_conflict new) _ db.custom_fonts (λ f k. ground (arith)) free)
            (str_eq_refl new.id)
    | inr unknown ↦ absurd (off (rw (free, unknown) at e))
  ]
]
  where
    off : ◌≡◌ {A = Option Database} none (some db') → ⊥
    off k = cc

save_font-Stores :
    (env : Env) (req : Request) (user_id ext : Str) (new : FontRow) (w : World) {r : Response}
    {w' : World}
    → content_type_for ext ≡ some new.content_type
    → IsSound w.db.custom_fonts
    → font_by_id new.id w.db ≡ none
    → save_font env req user_id ext new w ≡ (ok r, w')
    → (font_by_id new.id w'.db ≡ some new)
      × (file_content (file_of user_id new) w'.font_files ≡ some req.body)
unfolding save_font after file_of
save_font-Stores env req user_id ext new w {r = r} {w' = w'} known (s, d, k) fresh e =
    let (gs, written, e₁) =
      change_fonts_then exception
        (write_file_atomic (font_file_path user_id new.id ext) req.body env.now_ms) _ w e in
    let w₁ : World = record w { font_files = gs } in
    let old : Option FontRow = font_by_family user_id new.family_name w.db in
    let e₂ = drop_existing-ok user_id old _ w₁ e₁ in
    let w₂ : World = (drop_existing user_id old w₁).1 in
    let (db, inserted, e₃) = execute_then (insert_font new) _ w₂ e₂ in
    let (ext_is, no_dot) = ext_from_content_type-content_type_for ext new.content_type known in
    let path : file_of user_id new ≡ font_file_path user_id new.id ext =
      ap (font_file_path user_id new.id) ext_is in
    let now : file_content (file_of user_id new) gs ≡ some req.body =
      file_content-write_file_atomic (font_file_path user_id new.id ext) req.body env.now_ms
        w.font_files gs refl written (file_of user_id new)
      ∙ ap (λ t. if t then some req.body else file_content (file_of user_id new) w.font_files)
          ((strs_eq_iff (font_file_path user_id new.id ext) (file_of user_id new)).1 (sym path)) in
    (
      ap (λ x. font_by_id new.id x.1.db) (sym e₃) ∙ insert_font-eq-some new w₂.db db inserted,
      ap (λ x. file_content (file_of user_id new) x.1.font_files) (sym e₃)
          ∙ drop_existing-reads user_id old new w₁ (λ row found_it.
            file_of-apart user_id new row (ext, known)
              (All-find_if IsSoundRow (family_key user_id new.family_name) w.db.custom_fonts s
                found_it).1
              (found_fails (family_key user_id new.family_name)
                (λ (f : FontRow). str_eq f.id new.id) w.db.custom_fonts row
                (any-find_if (λ (f : FontRow). str_eq f.id new.id) w.db.custom_fonts fresh)
                found_it))
          ∙ now,
    )

abbrev pub new_id : Env → Str
unfolding uuid_v4
new_id env = uuid_v4 (env.random 0 16)

upload_font-Stores :
    (env : Env) (req : Request) (user_id : Str) (w : World) {r : Response} {w' : World}
    → IsSound w.db.custom_fonts
    → font_by_id (new_id env) w.db ≡ none
    → upload_font env req user_id w ≡ (ok r, w')
    → (filename : Str) × (content_type : Str) × (required_query req "filename" ≡ ok filename)
      × (content_type_for (extension_of filename) ≡ some content_type)
      × ((row : FontRow) × (row.owner_id ≡ user_id)
          × (row.content_type ≡ content_type)
          × (font_by_id (new_id env) w'.db ≡ some row)
          × (file_content (file_of user_id row) w'.font_files ≡ some req.body))
unfolding upload_font new_id
upload_font-Stores env req user_id w s fresh e =
    let (given, e₁, f₁) = lift_then _ _ w e in
    let (filename, named, f₂) = lift_then _ _ w f₁ in
    let (good, f₃) = require_then _ _ _ w f₂ in
    let (content_type, known, f₄) = found_then _ _ _ w f₃ in
    let (small, f₅) = require_then _ _ _ w f₄ in
    let (few, f₆) = require_then _ _ _ w (query_then (count_fonts user_id) _ w f₅) in
    let row : FontRow = font_row env req user_id (new_id env) (trim given) filename content_type in
    let stored = save_font-Stores env req user_id (extension_of filename) row w known s fresh f₆ in
    (filename, content_type, named, known, (row, refl, refl, stored.0, stored.1))

module _ (asked : Request) (font_id user_id : Str) (row : FontRow) (content : Str) where
  -- A download, step by step.
  abbrev font_response : Response
  font_response = record {
    code = 200;
    content = typed_body row.content_type content;
    cookies = [];
    headers = ("Cache-Control", bytes "private, max-age=3600") ∷ [];
  }

  on_get :
      {A : Type 0} (m n : M A) (w : World) → asked.method ≡ get → by_delete asked.method m n w ≡ n w
  on_get m n w is_get = ap (λ k. by_delete k m n w) is_get

  get_font-eq :
      (w : World)
      → file_content (file_of user_id row) w.font_files ≡ some content
      → get_font user_id row w ≡ (ok font_response, w)
  unfolding get_font after found
  get_font-eq w e = rw (read_file-file_content (file_of user_id row) w.font_files e) refl

  font_handler-eq :
      (env : Env) (v w : World)
      → asked.method ≡ get
      → current_user_id_with_headers env asked v ≡ (ok user_id, w)
      → is_valid_font_id font_id ≡ true
      → font_by_id font_id w.db ≡ some row
      → row.owner_id ≡ user_id
      → file_content (file_of user_id row) w.font_files ≡ some content
      → font_handler env asked font_id v ≡ (ok font_response, w)
  unfolding font_handler after found require
  font_handler-eq env v w is_get who valid there own e =
      rw (who, after)
        (rw valid (
          rw there
            (rw ((str_eq_iff row.owner_id user_id).1 own) (on_get _ _ w is_get ∙ get_font-eq w e))))

on_post :
    {A : Type 0} (method : Method) (m n : M A) (w : World) {x : Result A × World}
    → method ≡ post
    → by_method method m n w ≡ x
    → n w ≡ x
on_post method m n w is_post e = sym (ap (λ k. by_method k m n w) is_post) ∙ e

-- A successful upload, drawn an id that no font has and that the routes accept, is followed by
-- downloads of that id: a GET that authenticates as the same account, at any later time before
-- another request, gets the uploaded bytes with the type of the file name's extension.
pub fonts_handler-font_handler :
    (env later : Env) (req asked : Request) (user_id : Str) (w w' w'' : World) (r : Response)
    → IsSound w.db.custom_fonts
    → font_by_id (new_id env) w.db ≡ none
    → is_valid_font_id (new_id env) ≡ true
    → req.method ≡ post
    → (current_user_id_with_headers env req w).0 ≡ ok user_id
    → fonts_handler env req w ≡ (ok r, w')
    → asked.method ≡ get
    → current_user_id_with_headers later asked w' ≡ (ok user_id, w'')
    → (filename : Str) × (content_type : Str) × (required_query req "filename" ≡ ok filename)
      × (content_type_for (extension_of filename) ≡ some content_type)
      × ((answer : Response) × (font_handler later asked (new_id env) w' ≡ (ok answer, w''))
          × (answer.content ≡ typed_body content_type req.body))
unfolding fonts_handler
fonts_handler-font_handler env later req asked user_id w w' w'' r s fresh valid is_post who e is_get
      again =
    let (user, v, known, f) = >>=-eq-ok (current_user_id_with_headers env req) _ w e in
    let same_user : ◌≡◌ {A = Result Str} (ok user) (ok user_id) = sym (ap (λ x. x.0) known) ∙ who in
    let same : user ≡ user_id = cc in
    let rows : v.db.custom_fonts ≡ w.db.custom_fonts =
      sym (ap (λ x. x.1.db.custom_fonts) known)
      ∙ ap (λ (x : World). x.db.custom_fonts)
          (current_user_id_with_headers-OnlySessions env req w) in
    let (filename, content_type, named, type_is, (row, own, kind, there, content)) =
      upload_font-Stores env req user v (subst IsSound (sym rows) s)
        (ap (find_if (λ (f : FontRow). str_eq f.id (new_id env))) rows ∙ fresh)
        (on_post req.method _ _ v is_post f) in
    let kept : w'' ≡ record w' { db = record w'.db { sessions = w''.db.sessions } } =
      sym (ap (λ x. x.1) again)
      ∙ current_user_id_with_headers-OnlySessions later asked w'
      ∙ ap (λ (x : World × World). record w' { db = record w'.db { sessions = x.1.db.sessions } })
          (ap (λ x. (w', x.1)) again) in
    (
      filename,
      content_type,
      named,
      type_is,
      (
        font_response asked (new_id env) user_id row req.body,
        font_handler-eq asked (new_id env) user_id row req.body later w' w'' is_get again valid
            (ap (λ (x : World). font_by_id (new_id env) x.db) kept ∙ there) (own ∙ same)
            (ap (λ (x : World). file_content (file_of user_id row) x.font_files) kept
              ∙ ap (λ u. file_content (file_of u row) w'.font_files) (sym same)
              ∙ content),
        ap (λ t. typed_body t req.body) kind,
      ),
    )
