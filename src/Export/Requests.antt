-- ===== src/Export/Requests.antt =====
-- What the DevTools client of src/export.cpp lets the page do before and while it loads.
use lectern_server.Prelude.{
  ℕ, ◌≡◌, refl, sym, ap, ◌∙◌, Bool, true, false, ◌||◌, Bool-cases, inl, inr, ◌⊎◌, Option, none,
  some, List, [], ◌∷◌, ◌++◌, append_assoc, append-nil, Str, bytes, str_eq, All, All-imp, In,
}
use lectern_server.Error.{Result, ok, err}
use lectern_server.Util.{starts_with}
use lectern_server.Json.{Json, Fields, object, text, number, field, end, find_field, text_value}
use lectern_server.Export.Cdp.{
  Command, Session, after, Arrival, message, closing, Paused, paused_of, is_allowed, verdict, send,
  fresh_id, handle_paused_request, handle_event, handle_fields, handle_parsed, handle_message,
  on_message, receive,
}

-- A file, or data that is in the URL.
abbrev pub IsLocal : Str → Type 0
IsLocal url = (starts_with url (bytes "file://") ≡ true) ⊎ (starts_with url (bytes "data:") ≡ true)

either : (a b : Bool) → (a || b) ≡ true → (a ≡ true) ⊎ (b ≡ true)
either true b h = inl refl
either false b h = inr h

is_allowed-IsLocal : (url : Str) → is_allowed url ≡ true → IsLocal url
unfolding is_allowed
is_allowed-IsLocal url h =
    either (starts_with url (bytes "file://")) (starts_with url (bytes "data:")) h

-- Some message announced the request that the command answers, and its URL is a file or inline data.
abbrev pub WasAllowed : (parse_json : Str → Option Json) → List Arrival → Command → Type 0
WasAllowed parse_json arrivals c =
    (m : Str) × (fields : Fields) × (p : Paused) × In (message m) arrivals
    × (parse_json m ≡ some (object fields))
    × (paused_of fields ≡ ok p)
    × IsLocal p.url
    × (c.params ≡ object (field "requestId" (text p.request_id) end))
    × (c.session_id ≡ p.session_id)

abbrev pub Answers : (parse_json : Str → Option Json) → List Arrival → Command → Type 0
Answers parse_json arrivals c =
    (c.method ≡ bytes "Fetch.failRequest")
    ⊎ ((c.method ≡ bytes "Fetch.continueRequest") × WasAllowed parse_json arrivals c)

Answers-later :
    (parse_json : Str → Option Json) (a : Arrival) (arrivals : List Arrival) (c : Command)
    → Answers parse_json arrivals c
    → Answers parse_json (a ∷ arrivals) c
Answers-later parse_json a arrivals c (inl e) = inl e
Answers-later parse_json a arrivals c (inr (e, (m, fields, p, i, d, f, g, h, k))) =
    inr (e, (m, fields, p, inr i, d, f, g, h, k))

-- What one message adds to what was sent: nothing, or the verdict on its request.
Adds : (parse_json : Str → Option Json) → Str → Session → Session → Type 0
Adds parse_json m s t =
    (t.sent ≡ s.sent)
    ⊎ ((fields : Fields) × (p : Paused) × (id : ℕ) × (parse_json m ≡ some (object fields))
        × (paused_of fields ≡ ok p)
        × (t.sent ≡ s.sent ++ verdict id p ∷ []))

handle_paused_request-Adds :
    (parse_json : Str → Option Json) (m : Str) (fields : Fields) (s : Session)
    → parse_json m ≡ some (object fields)
    → Adds parse_json m s (handle_paused_request fields s).1
unfolding handle_paused_request after fresh_id send Adds
handle_paused_request-Adds parse_json m fields s e = go (paused_of fields) refl
  where
    go :
        (r : Result Paused)
        → paused_of fields ≡ r
        → Adds parse_json m s (handle_paused_request fields s).1
    go (err x) f = rw f (inl refl)
    go (ok p) f = elim (Bool-cases s.is_connected) [
      | inl up ↦ inr (fields, p, s.next_id, e, f, rw (f, up) refl)
      | inr down ↦ inl (rw (f, down) refl)
    ]

handle_event-Adds :
    (parse_json : Str → Option Json) (m : Str) (fields : Fields) (method : Result Str) (s : Session)
    → parse_json m ≡ some (object fields)
    → Adds parse_json m s (handle_event fields method s).1
unfolding handle_event Adds
handle_event-Adds parse_json m fields (err x) s e = inl refl
handle_event-Adds parse_json m fields (ok method) s e =
    elim (Bool-cases (str_eq method (bytes "Fetch.requestPaused"))) [
      | inl paused ↦ rw paused (handle_paused_request-Adds parse_json m fields s e)
      | inr other ↦ rw other (inl refl)
    ]

unnumbered-Adds :
    (parse_json : Str → Option Json) (m : Str) (fields : Fields) (s : Session)
    → parse_json m ≡ some (object fields)
    → Adds parse_json m s (handle_event fields (text_value (find_field "method" fields)) s).1
unnumbered-Adds parse_json m fields s e =
    handle_event-Adds parse_json m fields (text_value (find_field "method" fields)) s e

handle_fields-Adds :
    (parse_json : Str → Option Json) (m : Str) (fields : Fields) (id : Option Json) (s : Session)
    → parse_json m ≡ some (object fields)
    → Adds parse_json m s (handle_fields fields id s).1
unfolding handle_fields Adds
handle_fields-Adds parse_json m fields (some (number id)) s e = inl refl
handle_fields-Adds parse_json m fields none s e = unnumbered-Adds parse_json m fields s e
handle_fields-Adds parse_json m fields (some Json.null) s e =
    unnumbered-Adds parse_json m fields s e
handle_fields-Adds parse_json m fields (some (Json.boolean b)) s e =
    unnumbered-Adds parse_json m fields s e
handle_fields-Adds parse_json m fields (some (text t)) s e = unnumbered-Adds parse_json m fields s e
handle_fields-Adds parse_json m fields (some (Json.array t)) s e =
    unnumbered-Adds parse_json m fields s e
handle_fields-Adds parse_json m fields (some (object t)) s e =
    unnumbered-Adds parse_json m fields s e

handle_parsed-Adds :
    (parse_json : Str → Option Json) (m : Str) (parsed : Option Json) (s : Session)
    → parse_json m ≡ parsed
    → Adds parse_json m s (handle_parsed parsed s).1
unfolding handle_parsed Adds
handle_parsed-Adds parse_json m (some (object fields)) s e =
    handle_fields-Adds parse_json m fields (find_field "id" fields) s e
handle_parsed-Adds parse_json m none s e = inl refl
handle_parsed-Adds parse_json m (some Json.null) s e = inl refl
handle_parsed-Adds parse_json m (some (Json.boolean b)) s e = inl refl
handle_parsed-Adds parse_json m (some (text t)) s e = inl refl
handle_parsed-Adds parse_json m (some (number n)) s e = inl refl
handle_parsed-Adds parse_json m (some (Json.array t)) s e = inl refl

verdict-Answers :
    (parse_json : Str → Option Json) (m : Str) (arrivals : List Arrival) (fields : Fields)
    (p : Paused) (id : ℕ)
    → parse_json m ≡ some (object fields)
    → paused_of fields ≡ ok p
    → Answers parse_json (message m ∷ arrivals) (verdict id p)
unfolding verdict
verdict-Answers parse_json m arrivals fields p id e f = elim (Bool-cases (is_allowed p.url)) [
  | inl good ↦
      rw good
        (inr (refl, (m, fields, p, inl refl, e, f, is_allowed-IsLocal p.url good, refl, refl)))
  | inr bad ↦ rw bad (inl refl)
]

-- Whatever arrives while a call waits, in whatever order, the client sends nothing of its own but
-- verdicts on the requests of the page: it fails them, or it lets one go on that a message of these
-- arrivals announced, with that request's id and session and a URL that starts with "file://" or
-- "data:".
pub receive-Answers :
    (parse_json : Str → Option Json) (arrivals : List Arrival) (s : Session)
    → (verdicts : List Command) × ((receive parse_json arrivals s).sent ≡ s.sent ++ verdicts)
      × All (Answers parse_json arrivals) verdicts
unfolding receive on_message handle_message Adds
receive-Answers parse_json [] s = ([], sym (append-nil s.sent), tt)
receive-Answers parse_json (closing ∷ rest) s =
    let (verdicts, e, h) =
      receive-Answers parse_json rest (record s { is_closed = true; is_connected = false }) in
    (
      verdicts,
      e,
      All-imp (Answers parse_json rest) _ verdicts (Answers-later parse_json closing rest) h,
    )
receive-Answers parse_json (message m ∷ rest) s =
    let t : Session = on_message parse_json m s in
    let (verdicts, e, h) = receive-Answers parse_json rest t in
    let later =
      All-imp (Answers parse_json rest) (Answers parse_json (message m ∷ rest)) verdicts
        (Answers-later parse_json (message m) rest) h in
    joined m rest s t verdicts e later (handle_parsed-Adds parse_json m (parse_json m) s refl)
  where
    joined :
        (m : Str) (rest : List Arrival) (s t : Session) (verdicts : List Command)
        {sent : List Command}
        → sent ≡ t.sent ++ verdicts
        → All (Answers parse_json (message m ∷ rest)) verdicts
        → Adds parse_json m s t
        → (all : List Command) × (sent ≡ s.sent ++ all)
          × All (Answers parse_json (message m ∷ rest)) all
    joined m rest s t verdicts e h (inl same) = (verdicts, e ∙ ap (λ x. x ++ verdicts) same, h)
    joined m rest s t verdicts e h (inr (fields, p, id, d, f, g)) = (
      verdict id p ∷ verdicts,
      e ∙ ap (λ x. x ++ verdicts) g ∙ append_assoc s.sent (verdict id p ∷ []) verdicts,
      (verdict-Answers parse_json m rest fields p id d f, h),
    )
