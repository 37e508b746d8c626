-- ===== src/Export/Tests.antt =====
-- Tests of src/export.cpp with a browser that answers at once.
use lectern_server.Prelude.{
  ℕ, ◌≡◌, refl, true, false, some, Option, List, [], ◌∷◌, ◌++◌, Str, bytes, str_eq, All,
}
use lectern_server.Error.{Result, ok}
use lectern_server.Json
use lectern_server.Json.{Json, Fields, object, text, number, field, end}
use lectern_server.Util
use lectern_server.Export
use lectern_server.Export.{render_page, Script, document_of}
use lectern_server.Export.Cdp
use lectern_server.Export.Cdp.{Session, Command, Arrival, message, closing, receive}
use lectern_server.Export.Requests.{Answers, receive-Answers}
use lectern_server.Export.Order.{is_on, is_bare}
use lectern_server.Export.Order.Rendering.{is_sent, render_page-IsLocked}
use lectern_server.Export.Document.{IsBeforeStyle, document_of-IsInserted}

-- A message is a reply to the id that is its one byte; the byte 0 is the load event, and a longer one
-- a request of the page to the URL behind its first byte.
abbrev reply : ℕ → Json
reply id = object (
    field "id" (number id) (
      field "result"
        (object (
          field "targetId" (text (bytes "T"))
            (field "sessionId" (text (bytes "S")) (field "data" (text (bytes "d")) end))))
        end))

abbrev load_event : Json
load_event = object (field "method" (text (bytes "Page.loadEventFired")) end)

abbrev paused : Str → Json
paused url = object (
    field "method" (text (bytes "Fetch.requestPaused")) (
      field "params"
        (object (
          field "requestId" (text (bytes "r"))
            (field "request" (object (field "url" (text url) end)) end)))
        (field "sessionId" (text (bytes "S")) end)))

abbrev parse : Str → Option Json
parse [] = some load_event
parse (id ∷ []) = some (reply id)
parse (c ∷ d ∷ url) = some (paused (d ∷ url))

abbrev script : Script
script = record {
  on_target = message (1 ∷ []) ∷ [];
  on_attach = message (2 ∷ []) ∷ [];
  on_scripts = message (3 ∷ []) ∷ [];
  on_fetch = message (4 ∷ []) ∷ [];
  on_page = message (5 ∷ []) ∷ [];
  on_navigate = message (bytes "?http://10.0.0.1/") ∷ message (6 ∷ []) ∷ [];
  on_load = message [] ∷ [];
  on_print = message (8 ∷ []) ∷ [];
}

abbrev session : Session
session = record {
  next_id = 1;
  is_closed = false;
  page_session_id = [];
  responses = [];
  seen_events = [];
  is_connected = true;
  sent = [];
}

abbrev decode : Str → Option Str
decode s = some s

abbrev rendered : Result Str × Session
rendered = render_page parse decode (bytes "/tmp/e.html") script session

-- The render gets to its end.
render_page_runs : rendered.0 ≡ ok (bytes "d")
unfolding render_page Cdp.call Cdp.after Cdp.fresh_id Cdp.send Cdp.receive Cdp.on_message
    Cdp.handle_message Cdp.handle_parsed Cdp.handle_fields Cdp.handle_event
    Cdp.handle_paused_request Cdp.paused_of Cdp.url_of Cdp.verdict Cdp.is_allowed Cdp.take_reply
    Cdp.replied Cdp.reply_of Cdp.result_of Cdp.wait_for_event Json.find_field str_eq
    Util.starts_with Export.member
render_page_runs = refl

abbrev command : ℕ → Str → Json → Str → Command
command id method params session_id = record {
  id = id;
  method = method;
  params = params;
  session_id = session_id;
}

abbrev before_load : List Command
before_load =
    command 1 (bytes "Target.createTarget") (object (field "url" (text (bytes "about:blank")) end))
      []
    ∷ command 2 (bytes "Target.attachToTarget")
        (object (field "targetId" (text (bytes "T")) (field "flatten" (Json.boolean true) end))) []
    ∷ command 3 (bytes "Emulation.setScriptExecutionDisabled")
        (object (field "value" (Json.boolean true) end)) (bytes "S")
    ∷ command 4 (bytes "Fetch.enable") (object end) (bytes "S")
    ∷ command 5 (bytes "Page.enable") (object end) (bytes "S")
    ∷ []

abbrev load : Command
load =
    command 6 (bytes "Page.navigate") (object (field "url" (text (bytes "file:///tmp/e.html")) end))
      (bytes "S")

abbrev after_load : List Command
after_load =
    command 7 (bytes "Fetch.failRequest")
      (object (
        field "requestId" (text (bytes "r"))
          (field "errorReason" (text (bytes "BlockedByClient")) end)))
      (bytes "S")
    ∷ command 8 (bytes "Page.printToPDF")
        (object (
          field "displayHeaderFooter" (Json.boolean false) (
            field "printBackground" (Json.boolean true)
              (field "preferCSSPageSize" (Json.boolean true) end))))
        (bytes "S")
    ∷ []

-- What a render sends; the page's request to another host is refused.
render_page_sends : rendered.1.sent ≡ before_load ++ load ∷ after_load
unfolding render_page Cdp.call Cdp.after Cdp.fresh_id Cdp.send Cdp.receive Cdp.on_message
    Cdp.handle_message Cdp.handle_parsed Cdp.handle_fields Cdp.handle_event
    Cdp.handle_paused_request Cdp.paused_of Cdp.url_of Cdp.verdict Cdp.is_allowed Cdp.take_reply
    Cdp.replied Cdp.reply_of Cdp.result_of Cdp.wait_for_event Json.find_field str_eq
    Util.starts_with Export.member Export.file_url
render_page_sends = refl

render_page-IsLocked_example :
    (is_sent (bytes "Emulation.setScriptExecutionDisabled") is_on load.session_id before_load
      ≡ true)
    × (is_sent (bytes "Fetch.enable") is_bare load.session_id before_load ≡ true)
render_page-IsLocked_example =
    render_page-IsLocked parse decode (bytes "/tmp/e.html") script session before_load load
      after_load refl render_page_sends refl

receive-Answers_example :
    (verdicts : List Command) × ((receive parse script.on_navigate session).sent ≡ [] ++ verdicts)
    × All (Answers parse script.on_navigate) verdicts
receive-Answers_example = receive-Answers parse script.on_navigate session

document_of-IsInserted_example :
    (before : Str) × (rest : Str) × (bytes "<head></head>" ≡ before ++ rest)
    × (document_of (bytes "<head></head>") (bytes "S") ≡ before ++ (bytes "S" ++ rest))
    × IsBeforeStyle (bytes "<head></head>") before
document_of-IsInserted_example = document_of-IsInserted (bytes "<head></head>") (bytes "S")
