-- ===== src/Export/Order/Rendering.antt =====
-- A render of src/export.cpp never loads its page before it is locked down.
use lectern_server.Prelude.{
  ◌≡◌, refl, sym, ap, ◌∙◌, Bool, true, false, ◌&&◌, ◌||◌, Bool-cases, inl, inr, Option, List, [],
  ◌∷◌, ◌++◌, arith, Str, bytes, str_eq, str_eq_refl, any, and_split,
}
use lectern_server.Error.{AppError, Result, ok}
use lectern_server.Json.{Json}
use lectern_server.Export.Cdp.{Command, Session, lift, Arrival, call, wait_for_event}
use lectern_server.Export.{render_page, Script, required, set_session_id}
use lectern_server.Export.Order.{
  is_on, is_bare, LoadsLocked, lock_after-page, Lock, navigate, scripts, fetch, step, lock_after,
  lock_after-append, start, lock, Grows-refl, step-Grows, Moves, and_then, call-Moves, call-Steps,
  lock-receive,
}

module _ (at_page : Str) where
  plain-Moves :
      (parse_json : Str → Option Json) (arrivals : List Arrival) (method : Str) (params : Json)
      (session_id : Str) (s : Session)
      → str_eq method navigate ≡ false
      → Moves at_page (call parse_json arrivals method params session_id) s
  plain-Moves parse_json arrivals method params session_id s h =
      call-Moves at_page parse_json arrivals method params session_id s (λ k. ground arith)

  lift-Moves : {A : Type 0} (r : Result A) (s : Session) → Moves at_page (lift r) s
  unfolding Moves
  lift-Moves r s = Grows-refl at_page (lock at_page s)

  required-Moves : (value : Str) (e : AppError) (s : Session) → Moves at_page (required value e) s
  unfolding Moves
  required-Moves value e s = Grows-refl at_page (lock at_page s)

  set_session_id-Moves : (id : Str) (s : Session) → Moves at_page (set_session_id id) s
  unfolding Moves lock
  set_session_id-Moves id s = Grows-refl at_page (lock at_page s)

  wait_for_event-Moves :
      (parse_json : Str → Option Json) (arrivals : List Arrival) (method : Str) (s : Session)
      → Moves at_page (wait_for_event parse_json arrivals method) s
  unfolding Moves wait_for_event
  wait_for_event-Moves parse_json arrivals method s =
      rw (lock-receive at_page parse_json arrivals s) (Grows-refl at_page (lock at_page s))

  -- From the page's session on.
  abbrev Ready : Session → Type 0
  Ready s = (lock at_page s).scripts_off && (lock at_page s).fetch_on ≡ true

  lock-page : (s : Session) → (lock at_page s).page ≡ at_page
  unfolding lock start
  lock-page s = lock_after-page (start at_page) s.sent

  step-scripts :
      (l : Lock) (params : Json) (session_id : Str)
      → is_on params ≡ true
      → str_eq session_id l.page ≡ true
      → (step l scripts params session_id).scripts_off ≡ true
  unfolding step scripts navigate str_eq
  step-scripts l params session_id h k = rw (h, k) (ground arith)

  step-fetch :
      (l : Lock) (params : Json) (session_id : Str)
      → is_bare params ≡ true
      → str_eq session_id l.page ≡ true
      → (step l fetch params session_id).fetch_on ≡ true
  unfolding step fetch navigate str_eq
  step-fetch l params session_id h k = rw (h, k) (ground arith)

  scripts_then :
      (parse_json : Str → Option Json) (arrivals : List Arrival) (params : Json) (session_id : Str)
      (s : Session) {j : Json} {t : Session}
      → is_on params ≡ true
      → str_eq session_id at_page ≡ true
      → call parse_json arrivals scripts params session_id s ≡ (ok j, t)
      → (lock at_page t).scripts_off ≡ true
  scripts_then parse_json arrivals params session_id s on same e =
      rw (call-Steps at_page parse_json arrivals scripts params session_id s e) (
        step-scripts (lock at_page s) params session_id on
          (ap (str_eq session_id) (lock-page s) ∙ same))

  fetch_then :
      (parse_json : Str → Option Json) (arrivals : List Arrival) (params : Json) (session_id : Str)
      (s : Session) {j : Json} {t : Session}
      → is_bare params ≡ true
      → str_eq session_id at_page ≡ true
      → (lock at_page s).scripts_off ≡ true
      → call parse_json arrivals fetch params session_id s ≡ (ok j, t)
      → Ready t
  unfolding fetch navigate str_eq
  fetch_then parse_json arrivals params session_id s bare same h e =
      rw (call-Steps at_page parse_json arrivals fetch params session_id s e) (
        let kept = (step-Grows at_page (lock at_page s) fetch params session_id (λ k. cc)).0 h in
        let on =
          step-fetch (lock at_page s) params session_id bare
            (ap (str_eq session_id) (lock-page s) ∙ same) in
        ground arith)

  plain_then :
      (parse_json : Str → Option Json) (arrivals : List Arrival) (method : Str) (params : Json)
      (session_id : Str) (s : Session) {j : Json} {t : Session}
      → str_eq method navigate ≡ false
      → Ready s
      → call parse_json arrivals method params session_id s ≡ (ok j, t)
      → Ready t
  plain_then parse_json arrivals method params session_id s p h e =
      rw (call-Steps at_page parse_json arrivals method params session_id s e) (
        let grows =
          step-Grows at_page (lock at_page s) method params session_id (λ k. ground arith) in
        let both = and_split (lock at_page s).scripts_off (lock at_page s).fetch_on h in
        let a = grows.0 both.0 in let b = grows.1 both.1 in ground arith)

  -- The page that is watched is loaded only when it is ready.
  loads_locked :
      (session_id : Str) (s : Session)
      → (str_eq session_id at_page ≡ true → Ready s)
      → LoadsLocked at_page (lock at_page s) session_id
  loads_locked session_id s h = elim (Bool-cases (str_eq session_id at_page)) [
    | inl same ↦ rw (lock-page s, same) (h same)
    | inr other ↦ rw (lock-page s, other) refl
  ]

  render_page-Moves :
      (parse_json : Str → Option Json) (base64_decode : Str → Option Str) (path : Str)
      (script : Script) (s : Session)
      → Moves at_page (render_page parse_json base64_decode path script) s
  unfolding render_page navigate scripts fetch str_eq
  render_page-Moves parse_json base64_decode path script s =
      and_then at_page _ _ s (plain-Moves parse_json script.on_target _ _ _ s refl) λ target s₁ e₁.
        and_then at_page _ _ s₁ (lift-Moves _ s₁) λ given s₂ e₂.
          and_then at_page _ _ s₂ (required-Moves given _ s₂) λ target_id s₃ e₃.
            and_then at_page _ _ s₃ (plain-Moves parse_json script.on_attach _ _ _ s₃ refl)
              λ attached s₄ e₄. and_then at_page _ _ s₄ (lift-Moves _ s₄) λ shown s₅ e₅.
                and_then at_page _ _ s₅ (required-Moves shown _ s₅) λ session_id s₆ e₆.
                  and_then at_page _ _ s₆ (set_session_id-Moves session_id s₆) λ u s₇ e₇.
                    and_then at_page _ _ s₇ (plain-Moves parse_json script.on_scripts _ _ _ s₇ refl)
                      λ off s₈ e₈.
                        and_then at_page _ _ s₈
                          (plain-Moves parse_json script.on_fetch _ _ _ s₈ refl)
                          λ on s₉ e₉.
                            and_then at_page _ _ s₉
                              (plain-Moves parse_json script.on_page _ _ _ s₉ refl)
                              λ page t e.
                                and_then at_page _ _ t
                                  (call-Moves at_page parse_json script.on_navigate _ _ _ t
                                    (λ loads. loads_locked session_id t (λ same.
                                      plain_then parse_json script.on_page (bytes "Page.enable") _
                                        session_id s₉ refl
                                        (fetch_then parse_json script.on_fetch _ session_id s₈ refl
                                          same
                                          (scripts_then parse_json script.on_scripts _ session_id s₇
                                            refl same e₈)
                                          e₉)
                                        e)))
                                  λ gone t₁ f₁.
                                    and_then at_page _ _ t₁
                                      (wait_for_event-Moves parse_json script.on_load
                                        (bytes "Page.loadEventFired") t₁)
                                      λ v t₂ f₂.
                                        and_then at_page _ _ t₂
                                          (plain-Moves parse_json script.on_print _ _ _ t₂ refl)
                                          λ printed t₃ f₃.
                                            and_then at_page _ _ t₃ (lift-Moves _ t₃)
                                              λ encoded t₄ f₄. lift-Moves _ t₄

-- Whether a command of the method was sent to the session, with parameters that pass a test.
abbrev pub is_sent : Str → (Json → Bool) → Str → List Command → Bool
unfolding str_eq
is_sent method is_good session_id cs =
    any
      (λ (c : Command).
        str_eq c.method method && (is_good c.params && str_eq c.session_id session_id))
      cs

safe_from : (l : Lock) (cs : List Command) → (lock_after l cs).is_safe ≡ true → l.is_safe ≡ true
unfolding lock_after step
safe_from l [] h = h
safe_from l (c ∷ cs) h = elim (Bool-cases (str_eq c.method navigate)) [
  | inl loads ↦
      let k = safe_from (step l c.method c.params c.session_id) cs h in
      (and_split l.is_safe _ (rw loads at k)).0
  | inr other ↦ let k = safe_from (step l c.method c.params c.session_id) cs h in rw other at k
]

-- What the lock says of the commands before.
lock_after-sent :
    (l : Lock) (cs : List Command)
    → ((lock_after l cs).scripts_off ≡ true
        → (l.scripts_off || is_sent scripts is_on l.page cs) ≡ true)
      × ((lock_after l cs).fetch_on ≡ true → (l.fetch_on || is_sent fetch is_bare l.page cs) ≡ true)
unfolding lock_after step
lock_after-sent l [] = (λ h. rw h refl, λ h. rw h refl)
lock_after-sent l (c ∷ cs) =
    let rest = lock_after-sent (step l c.method c.params c.session_id) cs in
    elim (Bool-cases (str_eq c.method navigate)) [
      | inl loads ↦ (
        λ h. widen l.scripts_off _ _ (rw loads at (rest.0 h)),
        λ h. widen l.fetch_on _ _ (rw loads at (rest.1 h)),
      )
      | inr other ↦ (
        λ h. regroup l.scripts_off _ _ (rw other at (rest.0 h)),
        λ h. regroup l.fetch_on _ _ (rw other at (rest.1 h)),
      )
    ]
  where
    widen : (a b d : Bool) → (a || d) ≡ true → (a || (b || d)) ≡ true
    widen a b d h = ground arith

    regroup : (a b d : Bool) → ((a || b) || d) ≡ true → (a || (b || d)) ≡ true
    regroup a b d h = ground arith

-- Whatever the browser sends and whenever the connection ends: in a render that starts with nothing
-- sent, each command to load a page comes behind two commands to the same session, one that sets
-- its scripts' being disabled to true and one, without parameters, that intercepts its requests.
pub render_page-IsLocked :
    (parse_json : Str → Option Json) (base64_decode : Str → Option Str) (path : Str)
    (script : Script) (s : Session) (before : List Command) (c : Command) (rest : List Command)
    → s.sent ≡ []
    → (render_page parse_json base64_decode path script s).1.sent ≡ before ++ c ∷ rest
    → c.method ≡ bytes "Page.navigate"
    → (is_sent (bytes "Emulation.setScriptExecutionDisabled") is_on c.session_id before ≡ true)
      × (is_sent (bytes "Fetch.enable") is_bare c.session_id before ≡ true)
unfolding Moves lock lock_after start step scripts fetch
render_page-IsLocked parse_json base64_decode path script s before c rest none_sent sent loads =
    let moves = render_page-Moves c.session_id parse_json base64_decode path script s in
    let safe : (lock c.session_id (render_page parse_json base64_decode path script s).1).is_safe
        ≡ true =
      moves.2 (ap (λ x. (lock_after begin x).is_safe) none_sent) in
    let at_load : (lock_after (step (lock_after begin before) c.method c.params c.session_id)
          rest).is_safe
        ≡ true =
      sym (ap (λ x. x.is_safe) (lock_after-append begin before (c ∷ rest)))
      ∙ ap (λ x. (lock_after begin x).is_safe) (sym sent)
      ∙ safe in
    let then_safe =
      safe_from (step (lock_after begin before) c.method c.params c.session_id) rest at_load in
    let both = and_split _ _ (
      loaded (lock_after begin before) c.method c.params c.session_id loads
        (ap (str_eq c.session_id) (lock_after-page begin before) ∙ str_eq_refl c.session_id)
        then_safe) in
    let told = lock_after-sent begin before in (told.0 both.0, told.1 both.1)
  where
    begin : Lock
    begin = start c.session_id

    loaded :
        (l : Lock) (method : Str) (params : Json) (session_id : Str)
        → method ≡ bytes "Page.navigate"
        → str_eq session_id l.page ≡ true
        → (step l method params session_id).is_safe ≡ true
        → l.scripts_off && l.fetch_on ≡ true
    loaded l method params session_id e same h =
        (and_split l.is_safe (l.scripts_off && l.fetch_on) (rw (e, same) at h)).1
