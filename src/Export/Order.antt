-- ===== src/Export/Order.antt =====
-- In which order a render of src/export.cpp locks the page down and loads it.
pub mod Rendering
use lectern_server.Prelude.{
  ℕ, ◌+◌, ◌≡◌, ◌≢◌, ◌⊎◌, refl, sym, ap, subst, ◌∙◌, Bool, true, false, not, ◌&&◌, ◌||◌, Bool-cases,
  inl, inr, Option, none, some, List, [], ◌∷◌, ◌++◌, arith, Str, String, bytes, str_eq, str_eq_iff,
  All, any, if◌then◌else◌, is_empty, and_split,
}
use lectern_server.Error.{AppError, Result, ok, err}
use package.text.Mathlib.Text.{◌==◌ as key_eq}
use lectern_server.Json.{Json, object, boolean, field, end}
use lectern_server.Export.Cdp.{
  Command, Session, C, pure, after, ◌>>=◌, ◌>>◌, lift, Arrival, send, sending, fresh_id, receive,
  take_reply, replied, call, wait_for_event, find_response, is_some,
}
use lectern_server.Export.Requests.{Answers, receive-Answers}
use lectern_server.Export.{render_page, Script, required, set_session_id, member}

-- What was sent so far to a page's session: whether scripts were switched off and requests intercepted,
-- and whether the page was never told to load before both.
record Lock : Type 0 where
  page : Str
  scripts_off : Bool
  fetch_on : Bool
  is_safe : Bool

navigate : Str
navigate = bytes "Page.navigate"

scripts : Str
scripts = bytes "Emulation.setScriptExecutionDisabled"

fetch : Str
fetch = bytes "Fetch.enable"

-- The parameters `{"value": true}`, and none.
abbrev pub is_on : Json → Bool
is_on (object (field key (boolean b) end)) = key_eq key "value" && b
is_on params = false

abbrev pub is_bare : Json → Bool
is_bare (object end) = true
is_bare params = false

step : Lock → Str → Json → Str → Lock
unfolding navigate scripts fetch str_eq
step l method params session_id =
    if str_eq method navigate
    then record l {
      is_safe = l.is_safe && (not (str_eq session_id l.page) || (l.scripts_off && l.fetch_on));
    }
    else record l {
      scripts_off =
          l.scripts_off || (str_eq method scripts && (is_on params && str_eq session_id l.page));
      fetch_on =
          l.fetch_on || (str_eq method fetch && (is_bare params && str_eq session_id l.page));
    }

lock_after : Lock → List Command → Lock
unfolding step
lock_after l [] = l
lock_after l (c ∷ cs) = lock_after (step l c.method c.params c.session_id) cs

lock_after-append :
    (l : Lock) (xs ys : List Command) → lock_after l (xs ++ ys) ≡ lock_after (lock_after l xs) ys
unfolding lock_after
lock_after-append l [] ys = refl
lock_after-append l (c ∷ xs) ys = lock_after-append (step l c.method c.params c.session_id) xs ys

-- The session stays the one that is watched.
lock_after-page : (l : Lock) (cs : List Command) → (lock_after l cs).page ≡ l.page
unfolding lock_after step
lock_after-page l [] = refl
lock_after-page l (c ∷ cs) =
    lock_after-page (step l c.method c.params c.session_id) cs
    ∙ (elim (Bool-cases (str_eq c.method navigate)) [
      | inl loads ↦ rw loads refl
      | inr other ↦ rw other refl
    ])

start : Str → Lock
start page = record { page = page; scripts_off = false; fetch_on = false; is_safe = true }

-- The lock of a session.
lock : Str → Session → Lock
unfolding lock_after start
lock page s = lock_after (start page) s.sent

module _ (at_page : Str) where
  -- Verdicts leave the lock as it is.
  verdicts_keep :
      (parse_json : Str → Option Json) (arrivals : List Arrival) (l : Lock) (cs : List Command)
      → All (Answers parse_json arrivals) cs
      → lock_after l cs ≡ l
  unfolding lock_after step navigate scripts fetch str_eq
  verdicts_keep parse_json arrivals l [] h = refl
  verdicts_keep parse_json arrivals l (c ∷ cs) (inl e, h) =
      verdicts_keep parse_json arrivals (step l c.method c.params c.session_id) cs h
      ∙ rw e (ground arith)
  verdicts_keep parse_json arrivals l (c ∷ cs) (inr e, h) =
      verdicts_keep parse_json arrivals (step l c.method c.params c.session_id) cs h
      ∙ rw e.0 (ground arith)

  lock-receive :
      (parse_json : Str → Option Json) (arrivals : List Arrival) (s : Session)
      → lock at_page (receive parse_json arrivals s) ≡ lock at_page s
  unfolding lock
  lock-receive parse_json arrivals s =
      let (verdicts, e, h) = receive-Answers parse_json arrivals s in
      ap (lock_after (start at_page)) e
      ∙ lock_after-append (start at_page) s.sent verdicts
      ∙ verdicts_keep parse_json arrivals (lock_after (start at_page) s.sent) verdicts h

  lock-sending :
      (c : Command) (s : Session)
      → lock at_page (sending c s) ≡ step (lock at_page s) c.method c.params c.session_id
  unfolding lock lock_after
  lock-sending c s = lock_after-append (start at_page) s.sent (c ∷ [])

  replied-sent :
      (id : ℕ) (s : Session) (arrived : Bool) (found : Option Json)
      → (replied id s arrived found).1.sent ≡ s.sent
  unfolding replied
  replied-sent id s true (some response) = refl
  replied-sent id s true none = refl
  replied-sent id s false found = refl

  take_reply-lock : (id : ℕ) (s : Session) → lock at_page (take_reply id s).1 ≡ lock at_page s
  unfolding take_reply lock
  take_reply-lock id s = ap (lock_after (start at_page)) (
      replied-sent id s (s.is_closed || is_some (find_response id s.responses))
        (find_response id s.responses))

  abbrev Sent : Type 0
  Sent = Result (Unit {0}) × Session

  send-cases :
      (c : Command) (s : Session)
      → (send c s ≡ (ok tt, sending c s)) ⊎ ((e : AppError) × (send c s ≡ (err e, s)))
  unfolding send
  send-cases c s = on_cases s.is_connected (sending c s) s _
    where
      on_cases :
          (b : Bool) (t u : Session) (e : AppError)
          → ◌≡◌ {A = Sent} (if b then (ok tt, t) else (err e, u)) (ok tt, t)
            ⊎ ((x : AppError) × ◌≡◌ {A = Sent} (if b then (ok tt, t) else (err e, u)) (err x, u))
      on_cases true t u e = inl refl
      on_cases false t u e = inr (e, refl)

  same_sent : (s t : Session) → s.sent ≡ t.sent → lock at_page s ≡ lock at_page t
  unfolding lock
  same_sent s t e = ap (lock_after (start at_page)) e

  -- A call sends its command, or fails before it sends anything.
  call-lock :
      (parse_json : Str → Option Json) (arrivals : List Arrival) (method : Str) (params : Json)
      (session_id : Str) (s : Session)
      → (lock at_page (call parse_json arrivals method params session_id s).1
          ≡ step (lock at_page s) method params session_id)
        ⊎ (((j : Json) (t : Session)
              → call parse_json arrivals method params session_id s ≢ (ok j, t))
            × (lock at_page (call parse_json arrivals method params session_id s).1
                ≡ lock at_page s))
  unfolding call fresh_id after
  call-lock parse_json arrivals method params session_id s = elim (send-cases c t) [
    | inl up ↦ inl (
        rw up (
          take_reply-lock s.next_id (receive parse_json arrivals (sending c t))
          ∙ lock-receive parse_json arrivals (sending c t)
          ∙ lock-sending c t
          ∙ ap (λ l. step l method params session_id) (same_sent t s refl)))
    | inr (e, down) ↦ inr (rw down ((λ j u. cc), same_sent t s refl))
  ]
    where
      t : Session
      t = record s { next_id = s.next_id + 1 }

      c : Command
      c = record { id = s.next_id; method = method; params = params; session_id = session_id }

  -- What was reached so far stays reached.
  abbrev Grows : Lock → Lock → Type 0
  Grows l k =
      (l.scripts_off ≡ true → k.scripts_off ≡ true)
      × (l.fetch_on ≡ true → k.fetch_on ≡ true)
      × (l.is_safe ≡ true → k.is_safe ≡ true)

  Grows-refl : (l : Lock) → Grows l l
  Grows-refl l = (λ h. h, λ h. h, λ h. h)

  Grows-trans : (l k m : Lock) → Grows l k → Grows k m → Grows l m
  Grows-trans l k m (a, b, c) (d, e, f) = (λ h. d (a h), λ h. e (b h), λ h. f (c h))

  -- A command to load the page of the session may be sent.
  abbrev LoadsLocked : Lock → Str → Type 0
  LoadsLocked l session_id =
      (not (str_eq session_id l.page) || (l.scripts_off && l.fetch_on)) ≡ true

  step-Grows :
      (l : Lock) (method : Str) (params : Json) (session_id : Str)
      → (str_eq method navigate ≡ true → LoadsLocked l session_id)
      → Grows l (step l method params session_id)
  unfolding step
  step-Grows l method params session_id h = elim (Bool-cases (str_eq method navigate)) [
    | inl loads ↦ rw loads (λ k. k, λ k. k, λ k. rw (k, h loads) refl)
    | inr other ↦ rw other (λ k. rw k refl, λ k. rw k refl, λ k. k)
  ]

  Moves : {A : Type 0} → C A → Session → Type 0
  Moves m s = Grows (lock at_page s) (lock at_page (m s).1)

  -- A step, and the rest where the step returned.
  and_then :
      {A B : Type 0} (m : C A) (f : A → C B) (s : Session)
      → Moves m s
      → ((a : A) (t : Session) → m s ≡ (ok a, t) → Moves (f a) t)
      → Moves (m >>= f) s
  unfolding Moves after
  and_then m f s h k = go (m s) refl
    where
      go :
          (x : Result _ × Session)
          → m s ≡ x
          → Grows (lock at_page s) (lock at_page (after (m s) f).1)
      go (ok a, t) e = rw e (
          Grows-trans (lock at_page s) (lock at_page t) (lock at_page (f a t).1)
            (subst (λ x. Grows (lock at_page s) (lock at_page x.1)) e h) (k a t e))
      go (err x, t) e = rw e (subst (λ y. Grows (lock at_page s) (lock at_page y.1)) e h)

  call-Moves :
      (parse_json : Str → Option Json) (arrivals : List Arrival) (method : Str) (params : Json)
      (session_id : Str) (s : Session)
      → (str_eq method navigate ≡ true → LoadsLocked (lock at_page s) session_id)
      → Moves (call parse_json arrivals method params session_id) s
  unfolding Moves
  call-Moves parse_json arrivals method params session_id s h =
      elim (call-lock parse_json arrivals method params session_id s) [
        | inl e ↦ rw e (step-Grows (lock at_page s) method params session_id h)
        | inr e ↦ rw e.1 (Grows-refl (lock at_page s))
      ]

  -- After a call that returned, its command was sent.
  call-Steps :
      (parse_json : Str → Option Json) (arrivals : List Arrival) (method : Str) (params : Json)
      (session_id : Str) (s : Session) {j : Json} {t : Session}
      → call parse_json arrivals method params session_id s ≡ (ok j, t)
      → lock at_page t ≡ step (lock at_page s) method params session_id
  call-Steps parse_json arrivals method params session_id s {j = j} {t = t} e =
      elim (call-lock parse_json arrivals method params session_id s) [
        | inl f ↦ sym (ap (λ x. lock at_page x.1) e) ∙ f
        | inr f ↦ absurd (f.0 j t e)
      ]
