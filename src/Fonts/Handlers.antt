-- ===== src/Fonts/Handlers.antt =====
-- No request of src/fonts.cpp, whatever it is answered, breaks the table of the fonts.
use lectern_server.Prelude.{
  ◌≡◌, refl, sym, ap, subst, ◌∙◌, Bool, true, false, not, Bool-cases, inl, inr, Option, none, some,
  Option-cases, List, arith, Str, str_eq, any, keep_if, length, ◌<◌, ltb→lt,
}
use lectern_server.Error.{AppError, ok, exception}
use lectern_server.Util.{trim, extension_of}
use lectern_server.Files.{Files, write_file_atomic}
use lectern_server.Database.{Database, FontRow, is_user}
use lectern_server.Database.Fonts.{font_conflict, insert_font, delete_font, count_fonts}
use lectern_server.Auth.{current_user_id_with_headers}
use lectern_server.Auth.Frame.{current_user_id_with_headers-OnlySessions}
use lectern_server.World.{
  Env, World, M, Method, get, put, post, delete, pure, after, ◌>>=◌, ◌>>◌, execute, change_fonts,
  written_fonts, by_method, Request, Response, uuid_v4,
}
use lectern_server.World.Laws.{
  Leaves, Leaves-bind_ok, require_next, found_next, lift_next, query_next,
}
use lectern_server.Fonts.{
  is_bad_family_name, drop_existing, save_font, upload_font, font_row, font_file_path,
  fonts_handler, font_handler, delete_font_entry, get_font, list_fonts, by_delete, remove_font_file,
}
use lectern_server.Fonts.Rows.{
  IsSoundRow, IsSound, IsSound-keep_if, IsSound-added, length-keep_if, owned,
}

abbrev Keeps : World → World → Type 0
Keeps w w' = IsSound w.db.custom_fonts → IsSound w'.db.custom_fonts

Keeps-refl : (w : World) → Keeps w w
Keeps-refl w h = h

Keeps-trans : (u v w : World) → Keeps u v → Keeps v w → Keeps u w
Keeps-trans u v w h k s = k (h s)

Keeps-then :
    {A B : Type 0} (m : M A) (f : A → M B) (w : World)
    → Keeps w (m w).1
    → ((a : A) (v : World) → m w ≡ (ok a, v) → Keeps v (f a v).1)
    → Keeps w ((m >>= f) w).1
Keeps-then m f w h k = Leaves-bind_ok Keeps Keeps-refl Keeps-trans m f w h k

who-Keeps : (env : Env) (req : Request) → Leaves Keeps (current_user_id_with_headers env req)
who-Keeps env req w h =
    subst (λ (v : World). IsSound v.db.custom_fonts)
      (sym (current_user_id_with_headers-OnlySessions env req w)) h

-- A write of a font's file is not about the table.
change_fonts-rows :
    (e : AppError) (f : Files → Option Files) (w : World) → (change_fonts e f w).1.db ≡ w.db
unfolding change_fonts
change_fonts-rows e f w = elim (Option-cases (f w.font_files)) [
  | inl n ↦ rw (n, written_fonts) refl
  | inr (gs, s) ↦ rw (s, written_fonts) refl
]

-- The rows that are left when the font that is replaced is gone.
abbrev rows_without : Option FontRow → List FontRow → List FontRow
unfolding str_eq
rows_without none rows = rows
rows_without (some old) rows = keep_if (λ (f : FontRow). not (str_eq f.id old.id)) rows

drop_existing-rows :
    (user_id : Str) (old : Option FontRow) (w : World)
    → (drop_existing user_id old w).1.db.custom_fonts ≡ rows_without old w.db.custom_fonts
unfolding drop_existing rows_without delete_font remove_font_file after
drop_existing-rows user_id none w = refl
drop_existing-rows user_id (some old) w = refl

rows_without-IsSound :
    (user_id : Str) (old : Option FontRow) (rows : List FontRow)
    → IsSound rows
    → length (owned user_id rows) < 30
    → IsSound (rows_without old rows) × (length (owned user_id (rows_without old rows)) < 30)
unfolding rows_without
rows_without-IsSound user_id none rows h k = (h, k)
rows_without-IsSound user_id (some old) rows h k = (
  IsSound-keep_if _ rows h,
  omega (
    arith,
    length-keep_if (λ (f : FontRow). str_eq f.owner_id user_id)
        (λ (f : FontRow). not (str_eq f.id old.id)) rows,
    k,
  ),
)

insert_font-IsSound :
    (new : FontRow) (w : World)
    → IsSoundRow new
    → IsSound w.db.custom_fonts
    → length (owned new.owner_id w.db.custom_fonts) < 30
    → IsSound (execute (insert_font new) w).1.db.custom_fonts
unfolding execute insert_font
insert_font-IsSound new w s h k = elim (Bool-cases (any (font_conflict new) w.db.custom_fonts)) [
  | inl clash ↦ rw clash h
  | inr free ↦ rw free (elim (Bool-cases (is_user w.db new.owner_id)) [
    | inl known ↦ rw known (IsSound-added w.db.custom_fonts new h s k free)
    | inr unknown ↦ rw unknown h
  ])
]

replace-Keeps :
    (user_id : Str) (old : Option FontRow) (new : FontRow) (r : Response) (w : World)
    → IsSoundRow new
    → length (owned new.owner_id w.db.custom_fonts) < 30
    → Keeps w ((do drop_existing user_id old; execute (insert_font new); pure r) w).1
unfolding drop_existing delete_font remove_font_file after
replace-Keeps user_id none new r w s few h =
    Keeps-then (execute (insert_font new)) (λ u. pure r) w (λ k. insert_font-IsSound new w s h few)
      (λ a v e. Keeps-refl v) h
replace-Keeps user_id (some old) new r w s few h =
    let (sound, few') = rows_without-IsSound new.owner_id (some old) w.db.custom_fonts h few in
    Keeps-then (execute (insert_font new)) (λ u. pure r) w'
      (λ k. insert_font-IsSound new w' s sound few') (λ a v e. Keeps-refl v) sound
  where
    w' : World
    w' = (drop_existing user_id (some old) w).1

save_font-Keeps :
    (env : Env) (req : Request) (user_id ext : Str) (new : FontRow) (w : World)
    → IsSoundRow new
    → length (owned new.owner_id w.db.custom_fonts) < 30
    → Keeps w (save_font env req user_id ext new w).1
unfolding save_font after
save_font-Keeps env req user_id ext new w s few =
    Keeps-then (change_fonts exception f) _ w
      (subst (λ (db : Database). IsSound db.custom_fonts) (sym (change_fonts-rows exception f w)))
      λ a v e.
        let same : v.db ≡ w.db = sym (ap (λ x. x.1.db) e) ∙ change_fonts-rows exception f w in
        replace-Keeps user_id _ new _ v s (
          subst (λ (db : Database). length (owned new.owner_id db.custom_fonts) < 30) (sym same)
            few)
  where
    f : Files → Option Files
    f = write_file_atomic (font_file_path user_id new.id ext) req.body env.now_ms

upload_font-Keeps :
    (env : Env) (req : Request) (user_id : Str) → Leaves Keeps (upload_font env req user_id)
unfolding upload_font
upload_font-Keeps env req user_id w = lift_next Keeps Keeps-refl Keeps-trans _ _ w λ given e₁.
    lift_next Keeps Keeps-refl Keeps-trans _ _ w λ filename e₂.
      require_next Keeps Keeps-refl Keeps-trans _ _ _ w λ good.
        found_next Keeps Keeps-refl Keeps-trans _ _ _ w λ content_type known.
          require_next Keeps Keeps-refl Keeps-trans _ _ _ w λ small.
            query_next Keeps Keeps-refl Keeps-trans (count_fonts user_id) _ w (
              require_next Keeps Keeps-refl Keeps-trans _ _ _ w λ few.
                save_font-Keeps env req user_id (extension_of filename)
                  (font_row env req user_id (uuid_v4 (env.random 0 16)) (trim given) filename
                    content_type)
                  w (refused (is_bad_family_name (trim given)) good, (extension_of filename, known))
                  (ltb→lt _ _ few))
  where
    refused : (b : Bool) → not b ≡ true → b ≡ false
    refused b h = ground arith

-- Deleting a font.
delete_font_entry-Keeps :
    (user_id : Str) (row : FontRow) → Leaves Keeps (delete_font_entry user_id row)
unfolding delete_font_entry remove_font_file delete_font after
delete_font_entry-Keeps user_id row w h = IsSound-keep_if _ w.db.custom_fonts h

get_font-Keeps : (user_id : Str) (row : FontRow) → Leaves Keeps (get_font user_id row)
unfolding get_font after
get_font-Keeps user_id row w =
    found_next Keeps Keeps-refl Keeps-trans _ _ _ w λ content e. Keeps-refl w

by_method-Keeps :
    {A : Type 0} (method : Method) (m n : M A)
    → Leaves Keeps m
    → Leaves Keeps n
    → Leaves Keeps (by_method method m n)
by_method-Keeps get m n h k = h
by_method-Keeps post m n h k = k
by_method-Keeps put m n h k = k
by_method-Keeps delete m n h k = k

by_delete-Keeps :
    {A : Type 0} (method : Method) (m n : M A)
    → Leaves Keeps m
    → Leaves Keeps n
    → Leaves Keeps (by_delete method m n)
by_delete-Keeps delete m n h k = h
by_delete-Keeps post m n h k = k
by_delete-Keeps put m n h k = k
by_delete-Keeps get m n h k = k

-- Whatever a request to the font routes is answered, errors included: where every stored family name
-- is one that the upload accepts, every stored type is one of the four, no two fonts share an id or
-- an owner and a family name, and no account has more than 30 fonts, the same holds afterwards.
pub font_routes-IsSound :
    (env : Env) (req : Request) (font_id : Str) (w : World)
    → IsSound w.db.custom_fonts
    → IsSound (fonts_handler env req w).1.db.custom_fonts
      × IsSound (font_handler env req font_id w).1.db.custom_fonts
unfolding fonts_handler font_handler list_fonts after
font_routes-IsSound env req font_id w h = (
  Keeps-then (current_user_id_with_headers env req) _ w (who-Keeps env req w)
      (λ user_id v e.
        by_method-Keeps req.method (list_fonts user_id) (upload_font env req user_id) Keeps-refl
          (upload_font-Keeps env req user_id) v)
      h,
  Keeps-then (current_user_id_with_headers env req) _ w (who-Keeps env req w)
      (λ user_id v e. require_next Keeps Keeps-refl Keeps-trans _ _ _ v λ valid.
        found_next Keeps Keeps-refl Keeps-trans _ _ _ v λ row there.
          require_next Keeps Keeps-refl Keeps-trans _ _ _ v λ own.
            by_delete-Keeps req.method (delete_font_entry user_id row) (get_font user_id row)
              (delete_font_entry-Keeps user_id row) (get_font-Keeps user_id row) v)
      h,
)
