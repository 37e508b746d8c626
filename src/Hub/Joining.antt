-- ===== src/Hub/Joining.antt =====
-- What a new connection is to the hub of src/sync_hub.cpp.
use lectern_server.Prelude.{
  ℕ, ◌≡◌, ◌≢◌, refl, inl, inr, some, [], Str, Bool-cases, is_empty, ◌∙◌, arith,
}
use lectern_server.Hub.Table.{
  Connection, find_connection, put_connection, find_connection-put_connection,
}
use lectern_server.Hub.{Hub, Frame, request_changes, send_tracked, add}

-- The hub has a connection of the user under the next number, and the others as they were.
abbrev pub Joined : Hub → Str → Hub → Type 0
Joined h user_id g =
    ((c : Connection) × (find_connection h.next_connection g.connections ≡ some c)
      × (c.user_id ≡ user_id))
    × ((i : ℕ)
        → h.next_connection ≢ i
        → find_connection i g.connections ≡ find_connection i h.connections)

find_put_same :
    (h : Hub) (i : ℕ) (c : Connection)
    → find_connection i (put_connection i c h.connections) ≡ some c
find_put_same h i c = find_connection-put_connection i i c h.connections ∙ ground arith

find_put_other :
    (h : Hub) (k i : ℕ) (c : Connection)
    → k ≢ i
    → find_connection i (put_connection k c h.connections) ≡ find_connection i h.connections
find_put_other h k i c n = find_connection-put_connection i k c h.connections ∙ ground (arith, n)

send_tracked-known :
    (h : Hub) (id : ℕ) (frame : Str → Frame) (c : Connection)
    → find_connection id h.connections ≡ some c
    → ((d : Connection) × (find_connection id (send_tracked h id frame).0.connections ≡ some d)
        × (d.user_id ≡ c.user_id))
      × ((i : ℕ)
          → id ≢ i
          → find_connection i (send_tracked h id frame).0.connections
            ≡ find_connection i h.connections)
unfolding send_tracked
send_tracked-known h id frame c e =
    rw (e, send_tracked) ((_, find_put_same h id _, refl), λ i n. find_put_other h id i _ n)

pub add-Joined : (h : Hub) (user_id : Str) → Joined h user_id (add h user_id).0
unfolding add
add-Joined h user_id = elim (Bool-cases (is_empty user_id)) [
  | inl anonymous ↦ rw anonymous ((new, here, refl), λ i n. find_put_other h _ i new n)
  | inr known ↦
      let (there, others) = send_tracked-known _ h.next_connection request_changes new here in
      rw known (there, λ i n. others i n ∙ find_put_other h h.next_connection i new n)
]
  where
    new : Connection
    new = record { user_id = user_id; device = []; pending = []; watches = [] }

    here :
        find_connection h.next_connection (put_connection h.next_connection new h.connections)
        ≡ some new
    here = find_put_same h h.next_connection new
