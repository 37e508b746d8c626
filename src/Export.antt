-- ===== src/Export.antt =====
-- src/export.cpp, `POST /api/export/pdf`: the document with the account's fonts, and
-- the conversation with the browser. The browser's process, its temporary folder and the base64
-- decoder are not modelled: what the browser writes and sends is given to the functions below.
pub mod Cdp
pub mod Requests
pub mod Order
pub mod Document
mod Tests
use lectern_server.Prelude.{
  ℕ, zero, suc, ◌+◌, ◌-◌, ◌*◌, Bool, true, false, not, ◌&&◌, Option, none, some, List, [], ◌∷◌,
  ◌++◌, String, ◌≡◌, ltb, ◌==◌, leb, ◌%◌, if◌then◌else◌, Str, bytes, str_eq, length, is_empty, drop,
  take, find_if, keep_if, any,
}
use lectern_server.Error.{AppError, Result, ok, err, internal}
use lectern_server.Json.{Json, Fields, object, text, boolean, field, end, find_field, text_value}
use lectern_server.Util.{starts_with, split, trim}
use lectern_server.Export.Cdp.{
  Session, C, pure, after, ◌>>=◌, ◌>>◌, lift, call, wait_for_event, Arrival, receive,
}
use lectern_server.Error
use lectern_server.World
use lectern_server.World.{Env, M, Request, Response, typed_body}
use lectern_server.Auth.{current_user_id}
use lectern_server.Settings.{Environment, getenv, ℤ, to_unsigned, stoi}
use lectern_server.Fonts.{embed_account_fonts_style}

-- `html.find("<head>")`.
abbrev pub later_at : Option ℕ → Option ℕ
later_at none = none
later_at (some n) = some (suc n)

unfoldable pub find_text : (needle : Str) → Str → Option ℕ
unfolding starts_with
find_text needle [] = if is_empty needle then some 0 else none
find_text needle (c ∷ s) =
    let rest = find_text needle s in if starts_with (c ∷ s) needle then some 0 else later_at rest

abbrev pub head_tag : Str
head_tag = bytes "<head>"

abbrev pub document_at : (html font_style : Str) → Option ℕ → Str
document_at html font_style none = font_style ++ html
document_at html font_style (some head) =
    let insert_at = head + length head_tag in
    take insert_at html ++ (font_style ++ drop insert_at html)

-- The page that is rendered: the fonts stand right behind the first head tag.
unfoldable pub document_of : (html font_style : Str) → Str
unfolding find_text
document_of html font_style = document_at html font_style (find_text head_tag html)

-- The members of the renderer's answers: `target.value("targetId", "")`.
abbrev pub member : String → Json → Result Str
unfolding find_field
member key (object fields) = text_value (find_field key fields)
member key other = err Error.exception

abbrev required : Str → AppError → C Str
required value e s = (if is_empty value then err e else ok value, s)

abbrev set_session_id : Str → C (Unit {0})
set_session_id id s = (ok tt, record s { page_session_id = id })

abbrev one : String → Json → Json
one key v = object (field key v end)

-- What arrives while each of the calls waits.
pub record Script : Type 0 where
  pub on_target : List Arrival
  pub on_attach : List Arrival
  pub on_scripts : List Arrival
  pub on_fetch : List Arrival
  pub on_page : List Arrival
  pub on_navigate : List Arrival
  pub on_load : List Arrival
  pub on_print : List Arrival

-- `file:///` and the path, whose own slash is dropped.
abbrev without_slash : Str → Str
without_slash [] = []
without_slash (c ∷ path) = if c == b'/' then path else c ∷ path

unfoldable pub file_url : (path : Str) → Str
file_url path = bytes "file:///" ++ without_slash path

abbrev decoded_pdf : Option Str → Result Str
decoded_pdf none = err (internal "the PDF renderer produced nothing")
decoded_pdf (some []) = err (internal "the PDF renderer produced nothing")
decoded_pdf (some (c ∷ pdf)) = ok (c ∷ pdf)

abbrev print_options : Json
print_options = object (
    field "displayHeaderFooter" (boolean false)
      (field "printBackground" (boolean true) (field "preferCSSPageSize" (boolean true) end)))

-- `fRenderPdf` from the connection on.
unfoldable pub render_page :
    (parse_json : Str → Option Json)
    → (base64_decode : Str → Option Str) → (path : Str) → Script
    → C Str
unfolding call wait_for_event file_url member
render_page parse_json base64_decode path script = do
  target ←
      call parse_json script.on_target (bytes "Target.createTarget")
        (one "url" (text (bytes "about:blank"))) []
  given_target ← lift (member "targetId" target)
  target_id ← required given_target (internal "the PDF renderer opened no page")
  attached ←
      call parse_json script.on_attach (bytes "Target.attachToTarget")
        (object (field "targetId" (text target_id) (field "flatten" (boolean true) end))) []
  given_session ← lift (member "sessionId" attached)
  session_id ← required given_session (internal "could not attach to the rendered page")
  set_session_id session_id
  scripts_off ←
      call parse_json script.on_scripts (bytes "Emulation.setScriptExecutionDisabled")
        (one "value" (boolean true)) session_id
  fetch_on ← call parse_json script.on_fetch (bytes "Fetch.enable") (object end) session_id
  page_on ← call parse_json script.on_page (bytes "Page.enable") (object end) session_id
  navigated ←
      call parse_json script.on_navigate (bytes "Page.navigate") (one "url" (text (file_url path)))
        session_id
  wait_for_event parse_json script.on_load (bytes "Page.loadEventFired")
  printed ← call parse_json script.on_print (bytes "Page.printToPDF") print_options session_id
  encoded ← lift (member "data" printed)
  lift (decoded_pdf (base64_decode encoded))

-- POST /api/export/pdf. `render` is `fRenderPdf`, and `has_slot` whether a slot came free in time: the
-- semaphore of the renders is not modelled.
unfoldable pub export_handler :
    Env → Request → (render : Str → Result Str) → (has_slot : Bool) → M Response
unfolding current_user_id embed_account_fonts_style document_of World.require
export_handler env req render has_slot = World.◌>>=◌ (current_user_id env req) λ user_id w.
    World.◌>>=◌ (World.require has_slot (internal "PDF renderer is busy, try again"))
      (λ u.
        World.◌>>=◌
          (World.lift (render (document_of req.body (embed_account_fonts_style env user_id w))))
          λ pdf. World.pure (record {
            code = 200;
            content = typed_body (bytes "application/pdf") pdf;
            cookies = [];
            headers = [];
          }))
      w

-- `fFindBrowser`, on Linux.
abbrev candidates : List Str
candidates =
    bytes "/usr/bin/google-chrome"
    ∷ bytes "/usr/bin/chromium"
    ∷ bytes "/usr/bin/chromium-browser"
    ∷ bytes "/usr/bin/google-chrome-stable"
    ∷ bytes "/snap/bin/chromium"
    ∷ []

abbrev first_candidate : Option Str → Result Str
first_candidate none = err (internal "no Chromium found for PDF export; set CHROME_PATH")
first_candidate (some path) = ok path

abbrev chosen_browser : Option Str → Result Str → Result Str
chosen_browser none found = found
chosen_browser (some []) found = found
chosen_browser (some (c ∷ path)) found = ok (c ∷ path)

unfoldable pub find_browser : Environment → (is_regular_file : Str → Bool) → Result Str
unfolding getenv
find_browser env is_regular_file =
    chosen_browser (getenv (bytes "CHROME_PATH") env)
      (first_candidate (find_if is_regular_file candidates))

-- `fWaitForDevtoolsPort`: what DevToolsActivePort holds, where it can be read, each time it is looked at.
abbrev port_and_path : Option ℤ → Str → Option (ℕ × Str)
port_and_path none path = none
port_and_path (some n) path =
    let port = to_unsigned 65536 n in
    if not (port == 0) && not (is_empty path) then some (port, path) else none

abbrev port_lines : List Str → Option (ℕ × Str)
unfolding stoi trim
port_lines (port ∷ path ∷ rest) = port_and_path (stoi (trim port)) (trim path)
port_lines lines = none

unfoldable pub read_port : Option Str → Option (ℕ × Str)
unfolding port_lines split
read_port none = none
read_port (some contents) = port_lines (split contents 10)

abbrev or_next : Option (ℕ × Str) → Result (ℕ × Str) → Result (ℕ × Str)
or_next none next = next
or_next (some found) next = ok found

unfoldable pub wait_for_devtools_port : List (Option Str) → Result (ℕ × Str)
unfolding read_port
wait_for_devtools_port [] = err (internal "the PDF renderer never became ready")
wait_for_devtools_port (look ∷ looks) = or_next (read_port look) (wait_for_devtools_port looks)
