-- ===== src/Socket/Admission.antt =====
-- Whom src/sync_ws.cpp lets in.
use lectern_server.Prelude.{
  ℕ, ◌≡◌, ◌≢◌, ◌⊎◌, refl, inl, inr, true, false, ◌&&◌, Option, none, some, [], Bool-cases, Str,
  str_eq_iff, is_empty, arith, ap, ◌∙◌,
}
use lectern_server.Error.{Result, ok, err, exception}
use lectern_server.Util.{to_lower}
use lectern_server.Auth.{current_user_id_with_headers, optional_user_id, caught}
use lectern_server.Auth.Frame.{OnlySessions, current_user_id_with_headers-OnlySessions}
use lectern_server.Hub.Table.{Connection, find_connection}
use lectern_server.Hub.Joining.{add-Joined}
use lectern_server.World.{Env, Request, World, after}
use lectern_server.Socket.{
  Greeting, connected, origin_host, is_origin_allowed, is_offered, is_nobody, user_or_nobody, greet,
  greeted, handle_new_connection,
}

-- No origin, or one at the host that the request is sent to.
abbrev pub IsSameOrigin : Request → Type 0
IsSameOrigin req =
    (req.header "origin" ≡ [])
    ⊎ (to_lower (origin_host (req.header "origin")) ≡ to_lower (req.header "host"))

-- The socket's connection is new and has a user whom the request's credentials name, or none where the
-- request offers none; or the hub is left alone.
abbrev pub Admitted : Env → Request → World → Greeting × World → Type 0
Admitted env req w (connected id, v) =
    IsSameOrigin req
    × (id ≡ w.hub.next_connection)
    × (user_id : Str) × (((user_id ≡ []) × (is_offered req ≡ false))
        ⊎ ((u : World) × (current_user_id_with_headers env req w ≡ (ok user_id, u))))
    × ((c : Connection) × (find_connection id v.hub.connections ≡ some c) × (c.user_id ≡ user_id))
    × ((i : ℕ) → id ≢ i → find_connection i v.hub.connections ≡ find_connection i w.hub.connections)
Admitted env req w (_, v) = (v.hub ≡ w.hub) × (v.effects ≡ w.effects)

is_origin_allowed-IsSameOrigin : (req : Request) → is_origin_allowed req ≡ true → IsSameOrigin req
unfolding is_origin_allowed
is_origin_allowed-IsSameOrigin req h = elim (Bool-cases (is_empty (req.header "origin"))) [
  | inl none_sent ↦ inl (ground arith)
  | inr sent ↦ inr ((str_eq_iff _ _).0 (rw sent at h))
]

greet-Admitted :
    (env : Env) (req : Request) (w : World) (user : Option Str) (v : World)
    → OnlySessions w v
    → ((id : Str)
        → user ≡ some id
        → (u : World) × (current_user_id_with_headers env req w ≡ (ok id, u)))
    → Admitted env req w (greeted (greet req user v))
unfolding greet
greet-Admitted env req w user v o vouched = elim (Bool-cases (is_origin_allowed req)) [
  | inr foreign ↦ rw foreign (ap (λ (x : World). x.hub) o, ap (λ (x : World). x.effects) o)
  | inl own ↦ elim (Bool-cases (is_offered req && is_nobody user)) [
    | inl wrong ↦ rw (own, wrong) (ap (λ (x : World). x.hub) o, ap (λ (x : World). x.effects) o)
    | inr right ↦
        let (there, others) = add-Joined v.hub (user_or_nobody user) in
        rw (own, right)
          (
            is_origin_allowed-IsSameOrigin req own,
            ap (λ (x : World). x.hub.next_connection) o,
            user_or_nobody user,
            who user vouched right,
            there,
            λ i n. others i n ∙ ap (λ (x : World). find_connection i x.hub.connections) o,
          )
  ]
]
  where
    who :
        (given : Option Str)
        → ((id : Str)
            → given ≡ some id
            → (u : World) × (current_user_id_with_headers env req w ≡ (ok id, u)))
        → (is_offered req && is_nobody given) ≡ false
        → ((user_or_nobody given ≡ []) × (is_offered req ≡ false))
          ⊎ ((u : World) × (current_user_id_with_headers env req w
                ≡ (ok (user_or_nobody given), u)))
    who none k right = inl (refl, ground arith)
    who (some id) k right = inr (k id refl)

caught-Admitted :
    (env : Env) (req : Request) (w : World) (found : Result Str × World)
    → current_user_id_with_headers env req w ≡ found
    → OnlySessions w found.1
    → Admitted env req w (greeted (after (caught found) (greet req)))
unfolding after
caught-Admitted env req w (ok id, v) e o =
    greet-Admitted env req w (some id) v o
      (λ i k. (v, rw e (ap (λ (x : Option Str). (ok (user_or_nobody x), v)) k)))
caught-Admitted env req w (err exception, v) e o =
    (ap (λ (x : World). x.hub) o, ap (λ (x : World). x.effects) o)
caught-Admitted env req w (err x, v) e o =
    greet-Admitted env req w none v o (λ i k. absurd (off i k))
  where
    off : (i : Str) → ◌≡◌ {A = Option Str} none (some i) → ⊥
    off i k = cc

-- A new socket is let in only with no "Origin" header or one at the request's host. Its connection is
-- then in the hub under the next number, the others as they were, and its user is the one whom the
-- request's token or cookie authenticates, or none if the request offers neither. Otherwise the
-- hub and what it has sent stay as they were.
pub handle_new_connection-Admitted :
    (env : Env) (req : Request) (w : World) → Admitted env req w (handle_new_connection env req w)
unfolding handle_new_connection optional_user_id
handle_new_connection-Admitted env req w =
    caught-Admitted env req w (current_user_id_with_headers env req w) refl
      (current_user_id_with_headers-OnlySessions env req w)
