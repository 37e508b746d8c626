-- ===== src/Socket.antt =====
-- src/sync_ws.cpp: the WebSocket adapter between drogon and the hub. A socket's context is the
-- number of its connection to the hub, `none` where it was not let in.
pub mod Admission
pub mod Watching
mod Tests
use lectern_server.Prelude.{
  ℕ, Bool, true, false, not, ◌&&◌, ◌||◌, Option, none, some, List, [], ◌∷◌, ◌++◌, if◌then◌else◌,
  Str, bytes, str_eq, is_empty, drop,
}
use lectern_server.Error.{Result, ok, err}
use lectern_server.Util.{starts_with, to_lower}
use lectern_server.Auth.{optional_user_id}
use lectern_server.Hub
use lectern_server.Share.{resolve_watch}
use lectern_server.World.{Env, Request, World, M, pure, after, ◌>>=◌}

-- What follows the first "://"; the whole where there is none.
pub without_scheme : Str → Option Str
unfolding starts_with
without_scheme [] = none
without_scheme (c ∷ s) =
    let later = without_scheme s in
    if starts_with (c ∷ s) (bytes "://") then some (drop 3 (c ∷ s)) else later

unfoldable pub origin_host : Str → Str
unfolding without_scheme
origin_host origin = elim (without_scheme origin) [ none ↦ origin | some host ↦ host ]

-- `fOriginAllowed`.
unfoldable pub is_origin_allowed : Request → Bool
unfolding origin_host to_lower str_eq
is_origin_allowed req =
    let origin = req.header "origin" in
    is_empty origin || str_eq (to_lower (origin_host origin)) (to_lower (req.header "host"))

-- Whether the request brings credentials of either kind.
unfoldable pub is_offered : Request → Bool
is_offered req =
    not (is_empty (req.header "authorization")) || not (is_empty (req.cookie "lectern_session"))

-- What becomes of a new socket: its connection's number, or the code it is closed with.
pub data Greeting : Type 0 where
  connected : ℕ → Greeting
  violation unexpected_condition : Greeting

abbrev pub is_nobody : Option Str → Bool
is_nobody none = true
is_nobody (some id) = false

abbrev pub user_or_nobody : Option Str → Str
user_or_nobody none = []
user_or_nobody (some id) = id

abbrev pub join_hub : Str → M Greeting
join_hub user_id w =
    let (hub, effects) = Hub.add w.hub user_id in
    (ok (connected w.hub.next_connection), record w { hub = hub; effects = w.effects ++ effects })

abbrev pub greet : Request → Option Str → M Greeting
unfolding is_offered is_origin_allowed
greet req user =
    if not (is_origin_allowed req) || (is_offered req && is_nobody user)
    then pure violation
    else join_hub (user_or_nobody user)

abbrev pub accept : Env → Request → M Greeting
unfolding optional_user_id after
accept env req = optional_user_id env req >>= greet req

abbrev pub greeted : Result Greeting × World → Greeting × World
greeted (ok greeting, w) = (greeting, w)
greeted (err e, w) = (unexpected_condition, w)

unfoldable pub handle_new_connection : Env → Request → World → Greeting × World
unfolding optional_user_id after
handle_new_connection env req w = greeted (accept env req w)

abbrev pub heard : World → Hub.Outcome → World
heard w (hub, effects) = record w { hub = hub; effects = w.effects ++ effects }

unfoldable pub handle_new_message :
    Env → (context : Option ℕ) → (is_text : Bool) → Str → World → World
handle_new_message env none is_text message w = w
handle_new_message env (some id) is_text message w =
    if is_text
    then heard w (Hub.on_message env.parse_json (some (resolve_watch w.db)) w.hub id message)
    else w

unfoldable pub handle_connection_closed : (context : Option ℕ) → World → World
handle_connection_closed none w = w
handle_connection_closed (some id) w = record w { hub = Hub.remove w.hub id }
