-- ===== src/Export/Cdp.antt =====
-- `CdpSession` of src/export.cpp: the DevTools client of a render. A session's calls and the messages
-- of the WebSocket's thread take its mutex in turn; what arrives while a call waits is a list of
-- arrivals. JSON is kept as values, and the parser is a parameter.
use lectern_server.Prelude.{
  ℕ, ◌+◌, Bool, true, false, not, ◌||◌, Option, none, some, List, [], ◌∷◌, ◌++◌, ◌==◌,
  if◌then◌else◌, Str, bytes, str_eq, any, keep_if,
}
use lectern_server.Error.{Result, ok, err, ◌>>=◌ as ◌>>=ᵣ◌, internal, exception}
use lectern_server.Json.{Json, Fields, object, text, number, field, end, find_field, text_value}
use lectern_server.Util.{starts_with}

-- `{"id", "method", "params", "sessionId"}`; the last one is left out where it is empty.
pub record Command : Type 0 where
  pub id : ℕ
  pub method : Str
  pub params : Json
  pub session_id : Str

pub record Session : Type 0 where
  pub next_id : ℕ
  pub is_closed : Bool
  pub page_session_id : Str
  pub responses : List (ℕ × Json)
  pub seen_events : List Str
  -- Whether drogon's connection stands, and what was sent on it, oldest first.
  pub is_connected : Bool
  pub sent : List Command

abbrev pub C : Type 0 → Type 0
C A = Session → Result A × Session

abbrev pub pure : {A : Type 0} → A → C A
pure a s = (ok a, s)

unfoldable pub after : {A B : Type 0} → Result A × Session → (A → C B) → Result B × Session
after (ok a, s) f = f a s
after (err e, s) f = (err e, s)

infixl 5 ◌>>=◌ ◌>>◌
abbrev pub ◌>>=◌ : {A B : Type 0} → C A → (A → C B) → C B
◌>>=◌ m f s = after (m s) f

abbrev pub ◌>>◌ : {B : Type 0} → C (Unit {0}) → C B → C B
m >> k = m >>= λ _. k

abbrev pub lift : {A : Type 0} → Result A → C A
lift r s = (r, s)

abbrev pub sending : Command → Session → Session
sending c s = record s { sent = s.sent ++ c ∷ [] }

-- `fSend`.
unfoldable pub send : Command → C (Unit {0})
send c s =
    if s.is_connected
    then (ok tt, sending c s)
    else (err (internal "PDF renderer connection is gone"), s)

unfoldable pub fresh_id : C ℕ
fresh_id s = (ok s.next_id, record s { next_id = s.next_id + 1 })

-- `responses_[id] = ...`, `responses_.find(id)` and `responses_.erase(it)`.
abbrev pub put_response : ℕ → Json → List (ℕ × Json) → List (ℕ × Json)
put_response id v [] = (id, v) ∷ []
put_response id v ((i, u) ∷ rest) =
    if i == id then (id, v) ∷ rest else (i, u) ∷ put_response id v rest

abbrev pub find_response : ℕ → List (ℕ × Json) → Option Json
find_response id [] = none
find_response id ((i, u) ∷ rest) = if i == id then some u else find_response id rest

abbrev pub erase_response : ℕ → List (ℕ × Json) → List (ℕ × Json)
erase_response id rows = keep_if (λ (r : ℕ × Json). not (r.0 == id)) rows

-- What `fHandlePausedRequest` reads of its event. An event without `params` is not modelled apart
-- from one whose `params` is no object.
pub record Paused : Type 0 where
  pub request_id : Str
  pub url : Str
  pub session_id : Str

unfoldable pub url_of : Option Json → Result Str
unfolding find_field
url_of none = ok []
url_of (some (object request)) = text_value (find_field "url" request)
url_of (some other) = err exception

abbrev paused_of_params : Fields → Option Json → Result Paused
unfolding find_field
paused_of_params event (some (object params)) =
    text_value (find_field "requestId" params) >>=ᵣ λ request_id.
    url_of (find_field "request" params) >>=ᵣ λ url.
    text_value (find_field "sessionId" event) >>=ᵣ λ session_id.
    ok (record { request_id = request_id; url = url; session_id = session_id })
paused_of_params event _ = err exception

unfoldable pub paused_of : Fields → Result Paused
unfolding paused_of_params find_field
paused_of event = paused_of_params event (find_field "params" event)

unfoldable pub is_allowed : (url : Str) → Bool
unfolding starts_with
is_allowed url = starts_with url (bytes "file://") || starts_with url (bytes "data:")

unfoldable pub verdict : ℕ → Paused → Command
unfolding is_allowed
verdict id p =
    if is_allowed p.url
    then record {
      id = id;
      method = bytes "Fetch.continueRequest";
      params = object (field "requestId" (text p.request_id) end);
      session_id = p.session_id;
    }
    else record {
      id = id;
      method = bytes "Fetch.failRequest";
      params = object (
          field "requestId" (text p.request_id)
            (field "errorReason" (text (bytes "BlockedByClient")) end));
      session_id = p.session_id;
    }

-- A connection that is gone is passed over.
abbrev pub swallowed : Result (Unit {0}) × Session → Result (Unit {0}) × Session
swallowed (r, s) = (ok tt, s)

-- `fHandlePausedRequest`.
unfoldable pub handle_paused_request : Fields → C (Unit {0})
unfolding paused_of verdict fresh_id send
handle_paused_request event = do
  p ← lift (paused_of event)
  id ← fresh_id
  λ s. swallowed (send (verdict id p) s)

unfoldable pub handle_event : Fields → Result Str → C (Unit {0})
unfolding handle_paused_request str_eq
handle_event fields (err e) s = (err e, s)
handle_event fields (ok method) s =
    if str_eq method (bytes "Fetch.requestPaused")
    then handle_paused_request fields s
    else (ok tt, record s { seen_events = method ∷ s.seen_events })

unfoldable pub handle_fields : Fields → Option Json → C (Unit {0})
unfolding handle_event find_field
handle_fields fields (some (number id)) s =
    (ok tt, record s { responses = put_response id (object fields) s.responses })
handle_fields fields _ s = handle_event fields (text_value (find_field "method" fields)) s

unfoldable pub handle_parsed : Option Json → C (Unit {0})
unfolding handle_fields find_field
handle_parsed (some (object fields)) = handle_fields fields (find_field "id" fields)
handle_parsed _ = pure tt

-- `fHandleMessage` and `fOnMessage`, which drops what it cannot make sense of.
unfoldable pub handle_message : (parse_json : Str → Option Json) → Str → C (Unit {0})
unfolding handle_parsed
handle_message parse_json message = handle_parsed (parse_json message)

unfoldable pub on_message : (parse_json : Str → Option Json) → Str → Session → Session
unfolding handle_message
on_message parse_json message s = (handle_message parse_json message s).1

-- What the WebSocket's thread brings: a text message, or the end of the connection.
pub data Arrival : Type 0 where
  message : Str → Arrival
  closing : Arrival

unfoldable pub receive : (parse_json : Str → Option Json) → List Arrival → Session → Session
unfolding on_message
receive parse_json [] s = s
receive parse_json (message m ∷ rest) s = receive parse_json rest (on_message parse_json m s)
receive parse_json (closing ∷ rest) s =
    receive parse_json rest (record s { is_closed = true; is_connected = false })

-- The end of `fCall`. Of the error's text the parts quoted from the renderer are left out.
unfoldable pub result_of : Fields → Option Json → Result Json
unfolding find_field
result_of fields none = elim (find_field "result" fields) [ none ↦ ok (object end) | some v ↦ ok v ]
result_of fields (some (object e)) =
    text_value (find_field "message" e) >>=ᵣ λ m. err (internal "PDF renderer rejected a command")
result_of fields (some other) = err exception

unfoldable pub reply_of : Json → Result Json
unfolding result_of find_field
reply_of (object fields) = result_of fields (find_field "error" fields)
reply_of other = err exception

unfoldable pub replied : ℕ → Session → Bool → Option Json → Result Json × Session
unfolding reply_of
replied id s true (some response) =
    (reply_of response, record s { responses = erase_response id s.responses })
replied id s arrived found = (err (internal "PDF renderer stopped responding"), s)

abbrev pub is_some : Option Json → Bool
is_some none = false
is_some (some v) = true

unfoldable pub take_reply : ℕ → C Json
unfolding replied
take_reply id s =
    let found = find_response id s.responses in replied id s (s.is_closed || is_some found) found

-- `fCall`: `arrivals` is what is received while it waits.
unfoldable pub call :
    (parse_json : Str → Option Json)
    → List Arrival
    → (method : Str) → Json
    → (session_id : Str) → C Json
unfolding fresh_id send receive take_reply
call parse_json arrivals method params session_id = do
  id ← fresh_id
  send (record { id = id; method = method; params = params; session_id = session_id })
  λ s. (ok tt, receive parse_json arrivals s)
  take_reply id

-- `fWaitForEvent`.
unfoldable pub wait_for_event :
    (parse_json : Str → Option Json) → List Arrival → (method : Str) → C (Unit {0})
unfolding receive str_eq
wait_for_event parse_json arrivals method s =
    let t = receive parse_json arrivals s in
    (
      if any (str_eq method) t.seen_events
          then ok tt
          else err (internal "the page never finished loading"),
      t,
    )
