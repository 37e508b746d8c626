-- ===== src/Hub.antt =====
-- src/sync_hub.h and src/sync_hub.cpp: the change-notification hub behind /api/sync/ws.
-- A connection's peer is its id; what a call sends, closes or schedules is its list of effects. A
-- peer's exceptions change no state and are not modelled.
pub mod Table
pub mod Frames
pub mod History
pub mod Delivery
pub mod Prefix
pub mod Routing
pub mod Joining
pub mod Told
pub mod Timeout
mod Tests
use lectern_server.Prelude.{
  ℕ, ◌+◌, ◌%◌, String, Bool, true, false, not, ◌&&◌, ◌||◌, Option, none, some, List, [], ◌∷◌, ◌++◌,
  if◌then◌else◌, leb, ◌==◌, Str, bytes, str_eq, length, is_empty, any, keep_if, take, drop,
}
use lectern_server.Json.{Json, object, Fields, find_field, text_or_empty}
use lectern_server.Hub.Table.{
  Watch, Connection, Connections, find_connection, put_connection, erase_connection,
}
use lectern_server.Hub.Frames.{frame_id}

pub record Hub : Type 0 where
  pub connections : Connections
  pub next_connection : ℕ
  pub next_frame : ℕ

-- The frames that the hub sends, with their "id".
pub data Frame : Type 0 where
  request_changes ack nack : Str → Frame
  changes : Str → List Str → Frame

pub data Effect : Type 0 where
  send : ℕ → Frame → Effect
  close : ℕ → Effect
  schedule : ℕ → Str → Effect

abbrev pub Outcome : Type 0
Outcome = Hub × List Effect

abbrev pub wrap64 : ℕ → ℕ
wrap64 n = n % 18446744073709551616

unfoldable pub empty_hub : Hub
empty_hub = record { connections = []; next_connection = 1; next_frame = 1 }

abbrev pub max_paths_per_frame : ℕ
max_paths_per_frame = 100

-- `std::set<std::string>`.
abbrev pub set_has : Str → List Str → Bool
set_has id = any (λ x. str_eq x id)

abbrev pub set_insert : Str → List Str → List Str
set_insert id ids = if set_has id ids then ids else id ∷ ids

abbrev pub set_erase : Str → List Str → List Str
set_erase id = keep_if (λ x. not (str_eq x id))

abbrev pub string_field : Fields → String → Str
string_field frame key = text_or_empty (find_field key frame)

-- `path == prefix`, or `prefix` and then a "/".
abbrev pub slash_at : Str → Bool
slash_at [] = false
slash_at (c ∷ s) = c == b'/'

pub matches_prefix : Str → Str → Bool
matches_prefix path prefix =
    str_eq path prefix
    || (str_eq (take (length prefix) path) prefix && slash_at (drop (length prefix) path))

pub send_tracked : Hub → ℕ → (Str → Frame) → Outcome
send_tracked h connection frame = elim (find_connection connection h.connections) [
  | none ↦ (h, [])
  | some c ↦
      let id = frame_id h.next_frame in
      (
        record h {
          connections =
              put_connection connection (record c { pending = set_insert id c.pending })
                h.connections;
          next_frame = wrap64 (h.next_frame + 1);
        },
        send connection (frame id) ∷ schedule connection id ∷ [],
      )
]

unfoldable pub add : Hub → Str → Outcome
add h user_id =
    let id = h.next_connection in
    let h' = record h {
      next_connection = wrap64 (h.next_connection + 1);
      connections =
          put_connection id (record { user_id = user_id; device = []; pending = []; watches = [] })
            h.connections;
    } in
    if is_empty user_id then (h', []) else send_tracked h' id request_changes

pub remove : Hub → ℕ → Hub
remove h connection = record h { connections = erase_connection connection h.connections }

abbrev expire_known : Hub → ℕ → Str → Connection → Outcome
expire_known h connection id c =
    if set_has id c.pending then (remove h connection, close connection ∷ []) else (h, [])

pub expire : Hub → ℕ → Str → Outcome
expire h connection id = elim (find_connection connection h.connections) [
  | none ↦ (h, [])
  | some c ↦ expire_known h connection id c
]

-- Maps a `watch` request to the owner and the path that it refers to; `none` for the null function.
abbrev pub WatchResolver : Type 0
WatchResolver = Option (Str → Fields → Option (Str × Str))

abbrev reply : ℕ → Str → (Str → Frame) → List Effect
reply connection id kind = if is_empty id then [] else send connection (kind id) ∷ []

abbrev watches_of : Option (Str × Str) → List Watch
watches_of none = []
watches_of (some (owner, prefix)) = record { owner = owner; prefix = prefix } ∷ []

-- The second critical section of a "watch" or "unwatch" frame.
unfoldable pub follow : Hub → ℕ → Str → Option (Str × Str) → Outcome
follow h connection id target = elim (find_connection connection h.connections) [
  | none ↦ (h, [])
  | some c ↦ (
    record h {
      connections =
          put_connection connection (record c { watches = watches_of target }) h.connections;
    },
    reply connection id ack,
  )
]

unfoldable pub watch_resolved : Hub → ℕ → Str → Option (Str × Str) → Outcome
unfolding follow
watch_resolved h connection id none = (h, reply connection id nack)
watch_resolved h connection id (some target) = follow h connection id (some target)

unfoldable pub watch : WatchResolver → Hub → ℕ → Str → Str → Fields → Outcome
unfolding watch_resolved follow
watch none h connection id user_id frame = follow h connection id none
watch (some resolve) h connection id user_id frame =
    watch_resolved h connection id (resolve user_id frame)

abbrev is_answered : Str → Bool
is_answered type =
    str_eq type (bytes "hello") || str_eq type (bytes "ping") || str_eq type (bytes "changes")

-- `fHandle` behind the look-up of the connection.
unfoldable pub handle_known : WatchResolver → Hub → ℕ → Fields → Connection → Outcome
unfolding watch follow
handle_known resolve h connection frame c =
    let type = string_field frame "type" in
    let id = string_field frame "id" in
    let acked = record c { pending = set_erase id c.pending } in
    let named = record c { device = string_field frame "device" } in
    if str_eq type (bytes "ack")
    then (record h { connections = put_connection connection acked h.connections }, [])
    else if str_eq type (bytes "hello")
    then (
      record h { connections = put_connection connection named h.connections },
      reply connection id ack,
    )
    else if is_answered type
    then (h, reply connection id ack)
    else if str_eq type (bytes "watch")
    then watch resolve h connection id c.user_id frame
    else if str_eq type (bytes "unwatch")
    then follow h connection id none
    else (h, [])

unfoldable pub handle : WatchResolver → Hub → ℕ → Fields → Outcome
handle resolve h connection frame = elim (find_connection connection h.connections) [
  | none ↦ (h, [])
  | some c ↦ handle_known resolve h connection frame c
]

abbrev pub parsed : WatchResolver → Hub → ℕ → Option Json → Outcome
parsed resolve h connection (some (object frame)) = handle resolve h connection frame
parsed resolve h connection value = (h, [])

-- `json::parse` with exceptions off: `none` for a discarded value.
unfoldable pub on_message : (Str → Option Json) → WatchResolver → Hub → ℕ → Str → Outcome
on_message parse resolve h connection message = parsed resolve h connection (parse message)

pub connection_count : Hub → ℕ
connection_count h = length h.connections

-- The inner loop over `paths`, for one watch.
pub add_visible : Str → List Str → List Str → List Str
add_visible prefix visible [] = visible
add_visible prefix visible (path ∷ paths) =
    add_visible prefix
      (if matches_prefix path prefix && not (set_has path visible)
        then visible ++ path ∷ []
        else visible)
      paths

pub watched_paths : Str → List Str → List Str → List Watch → List Str
watched_paths owner_id paths visible [] = visible
watched_paths owner_id paths visible (w ∷ watches) =
    watched_paths owner_id paths
      (if str_eq w.owner owner_id then add_visible w.prefix visible paths else visible) watches

pub is_owners_device : Str → Connection → Bool
is_owners_device owner_id c = not (is_empty c.user_id) && str_eq c.user_id owner_id

pub is_origin : Str → Connection → Bool
is_origin origin_device c = not (is_empty origin_device) && str_eq c.device origin_device

abbrev capped : List Str → List Str
capped visible = if leb (length visible) max_paths_per_frame then visible else []

-- The list that one connection is to be told, if any.
pub target_paths : Str → List Str → Str → Connection → Option (List Str)
target_paths owner_id paths origin_device c =
    let visible = watched_paths owner_id paths [] c.watches in
    if is_origin origin_device c
    then none
    else if is_owners_device owner_id c
    then some (capped paths)
    else if is_empty visible
    then none
    else some (capped visible)

abbrev add_target : ℕ → Option (List Str) → List (ℕ × List Str) → List (ℕ × List Str)
add_target id none rest = rest
add_target id (some list) rest = (id, list) ∷ rest

pub targets : Str → List Str → Str → Connections → List (ℕ × List Str)
targets owner_id paths origin_device [] = []
targets owner_id paths origin_device ((id, c) ∷ rest) =
    add_target id (target_paths owner_id paths origin_device c)
      (targets owner_id paths origin_device rest)

pub announce : Hub → List (ℕ × List Str) → Outcome
announce h [] = (h, [])
announce h ((connection, list) ∷ rest) =
    let (h', now) = send_tracked h connection (λ id. changes id list) in
    let (h'', after) = announce h' rest in (h'', now ++ after)

unfoldable pub notify : Hub → Str → List Str → Str → Outcome
notify h owner_id paths origin_device =
    announce h (targets owner_id paths origin_device h.connections)
