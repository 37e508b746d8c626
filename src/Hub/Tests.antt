-- ===== src/Hub/Tests.antt =====
-- Tests of src/sync_hub.cpp: a device of the owner "a" on connection 1, a visitor who follows the
-- owner's folder "d" on connection 2.
use lectern_server.Prelude.{
  ◌↔◌, true, ◌≡◌, refl, none, [], ◌∷◌, List, Str, bytes, All, arith, str_eq,
}
use lectern_server.Json.{Fields, field, end, text, find_field}
use lectern_server.Hub.Table.{Connection, Connections, find_connection, put_connection}
use lectern_server.Hub.Frames.{frame_id}
use lectern_server.Hub.{
  matches_prefix, Hub, add, handle_known, WatchResolver, send_tracked, notify, expire, handle,
}
use lectern_server.Hub.History.{Op, notifies, adds, step, run, HasFreshIds, step-HasFreshIds}
use lectern_server.Hub.Delivery.{acknowledged_survives}
use lectern_server.Hub.Routing.{OfChanges, IsAllowed, notify-IsAllowed}
use lectern_server.Hub.Prefix.{Matches, matches_prefix_iff}

abbrev device : Connection
device = record { user_id = bytes "a"; device = bytes "m"; pending = []; watches = [] }

abbrev visitor : Connection
visitor = record {
  user_id = [];
  device = [];
  pending = [];
  watches = record { owner = bytes "a"; prefix = bytes "d" } ∷ [];
}

abbrev table : Connections
table = (1, device) ∷ (2, visitor) ∷ []

abbrev hub : Hub
hub = record { connections = table; next_connection = 3; next_frame = 1 }

abbrev no_resolver : WatchResolver
no_resolver = none

abbrev changed : List Str
changed = bytes "d/x" ∷ bytes "e" ∷ []

notify-IsAllowed_example :
    All
      (OfChanges (IsAllowed (bytes "a") changed (bytes "p") table))
      (notify hub (bytes "a") changed (bytes "p")).1
notify-IsAllowed_example = notify-IsAllowed hub (bytes "a") changed (bytes "p")

abbrev meanwhile : List Op
meanwhile = adds (bytes "b") ∷ notifies (bytes "a") changed (bytes "p") ∷ []

-- Connection 1 has been sent the frame "s1".
abbrev waiting : Hub
waiting = record hub {
  connections = (1, record device { pending = bytes "s1" ∷ [] }) ∷ [];
  next_frame = 2;
}

abbrev ack_frame : Fields
ack_frame = field "type" (text (bytes "ack")) (field "id" (text (bytes "s1")) end)

acknowledged_survives_example :
    let g = run no_resolver (handle no_resolver waiting 1 ack_frame).0 meanwhile in
    expire g 1 (frame_id 1) ≡ (g, [])
unfolding find_field handle step notify frame_id find_connection handle_known str_eq put_connection
    add send_tracked
acknowledged_survives_example =
    acknowledged_survives no_resolver 1 1 waiting ack_frame meanwhile (omega arith) refl refl
      ((omega arith, omega arith), ((omega arith, omega arith), tt))

step-HasFreshIds_example : HasFreshIds (step no_resolver hub (adds (bytes "b"))).0
step-HasFreshIds_example =
    step-HasFreshIds no_resolver hub (adds (bytes "b")) (omega arith, omega arith)
      (omega arith, (omega arith, tt))

matches_prefix_iff_example :
    (matches_prefix (bytes "dx") (bytes "d") ≡ true) ↔ Matches (bytes "dx") (bytes "d")
matches_prefix_iff_example = matches_prefix_iff (bytes "dx") (bytes "d")
