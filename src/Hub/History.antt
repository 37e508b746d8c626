-- ===== src/Hub/History.antt =====
-- Sequences of calls of the hub of src/sync_hub.cpp, in the order in which its mutex lets them through,
-- with the invariant that keeps connection ids apart.
use lectern_server.Prelude.{
  ℕ, ◌+◌, ◌<◌, ◌≤◌, ◌≡◌, refl, Option, none, some, List, [], ◌∷◌, ◌||◌, arith, Str, All, length,
  Option-cases, is_empty, Bool-cases, str_eq, bytes, str_eq_iff, ◌⊎◌, inl, inr,
}
use lectern_server.Json.{Json, object, Fields}
use lectern_server.Hub.Table.{
  Connection, Connections, find_connection, put_connection, erase_connection,
}
use lectern_server.Hub.{
  Hub, Frame, changes, follow, watch, watch_resolved, set_erase, string_field, request_changes,
  Outcome, WatchResolver, add, remove, expire, handle, handle_known, notify, send_tracked, announce,
  targets, wrap64, parsed, on_message,
}

pub data Op : Type 0 where
  adds : Str → Op
  removes : ℕ → Op
  messages : ℕ → Fields → Op
  notifies : Str → List Str → Str → Op
  expires : ℕ → Str → Op

unfoldable pub step : WatchResolver → Hub → Op → Outcome
step resolve h (adds user_id) = add h user_id
step resolve h (removes connection) = (remove h connection, [])
step resolve h (messages connection frame) = handle resolve h connection frame
step resolve h (notifies owner_id paths origin) = notify h owner_id paths origin
step resolve h (expires connection id) = expire h connection id

unfoldable pub run : WatchResolver → Hub → List Op → Hub
run resolve h [] = h
run resolve h (op ∷ ops) = run resolve (step resolve h op).0 ops

abbrev pub IsBelow : ℕ → Connections → Type 0
IsBelow n = All (λ e. e.0 < n)

pub put_connection-IsBelow :
    (n id : ℕ) (c : Connection) (cs : Connections)
    → id < n
    → IsBelow n cs
    → IsBelow n (put_connection id c cs)
unfolding put_connection
put_connection-IsBelow n id c [] l h = (l, tt)
put_connection-IsBelow n id c ((k, d) ∷ rest) l h =
    ground (arith, put_connection-IsBelow n id c rest l h.1)

pub erase_connection-IsBelow :
    (n id : ℕ) (cs : Connections) → IsBelow n cs → IsBelow n (erase_connection id cs)
unfolding erase_connection
erase_connection-IsBelow n id [] h = h
erase_connection-IsBelow n id ((k, d) ∷ rest) h =
    ground (arith, erase_connection-IsBelow n id rest h.1)

pub IsBelow-mono : (m n : ℕ) (cs : Connections) → m ≤ n → IsBelow m cs → IsBelow n cs
IsBelow-mono m n [] l h = tt
IsBelow-mono m n ((k, d) ∷ rest) l h = (omega arith, IsBelow-mono m n rest l h.1)

pub find_connection_below :
    (n id : ℕ) {c : Connection} (cs : Connections)
    → find_connection id cs ≡ some c
    → IsBelow n cs
    → id < n
unfolding find_connection
find_connection_below n id [] e h = cc
find_connection_below n id {c} ((k, d) ∷ rest) e h =
    ground (arith, find_connection_below n id {c = c} rest)

-- The connections' ids are below the next one to be given out.
abbrev pub HasFreshIds : Hub → Type 0
HasFreshIds h = IsBelow h.next_connection h.connections

-- Neither counter of the hub wraps in the next call.
abbrev pub HasRoom : Hub → Type 0
HasRoom h =
    (h.next_connection + 1 < 18446744073709551616)
    × (h.next_frame + length h.connections + 1 < 18446744073709551616)

abbrev pub AllHaveRoom : WatchResolver → Hub → List Op → Type 0
AllHaveRoom resolve h [] = Unit
AllHaveRoom resolve h (op ∷ ops) = HasRoom h × AllHaveRoom resolve (step resolve h op).0 ops

pub send_tracked-HasFreshIds :
    (h : Hub) (id : ℕ) (f : Str → Frame) → HasFreshIds h → HasFreshIds (send_tracked h id f).0
unfolding send_tracked
send_tracked-HasFreshIds h id f v = elim (Option-cases (find_connection id h.connections)) [
  | inl e ↦ rw (e, send_tracked) v
  | inr (c, e) ↦
      rw (e, send_tracked)
        (put_connection-IsBelow h.next_connection id _ h.connections
          (find_connection_below h.next_connection id h.connections e v) v)
]

announce-HasFreshIds :
    (h : Hub) (ts : List (ℕ × List Str)) → HasFreshIds h → HasFreshIds (announce h ts).0
unfolding announce
announce-HasFreshIds h [] v = v
announce-HasFreshIds h ((id, list) ∷ ts) v =
    announce-HasFreshIds (send_tracked h id (λ f. changes f list)).0 ts
      (send_tracked-HasFreshIds h id _ v)

-- A write at the id of a connection that is there.
write-HasFreshIds :
    (h : Hub) (id : ℕ) (c d : Connection)
    → find_connection id h.connections ≡ some c
    → HasFreshIds h
    → IsBelow h.next_connection (put_connection id d h.connections)
write-HasFreshIds h id c d e v =
    put_connection-IsBelow h.next_connection id d h.connections
      (find_connection_below h.next_connection id h.connections e v) v

add-HasFreshIds :
    (h : Hub) (user_id : Str)
    → h.next_connection + 1 < 18446744073709551616
    → HasFreshIds h
    → HasFreshIds (add h user_id).0
unfolding add
add-HasFreshIds h user_id room v =
    let e : wrap64 (h.next_connection + 1) ≡ h.next_connection + 1 = omega arith in
    let fresh =
      put_connection-IsBelow (h.next_connection + 1) h.next_connection
        (record { user_id = user_id; device = []; pending = []; watches = [] }) h.connections
        (omega arith)
        (IsBelow-mono h.next_connection (h.next_connection + 1) h.connections (omega arith) v) in
    rw e (elim (Bool-cases (is_empty user_id)) [
      | inl anonymous ↦ rw anonymous fresh
      | inr known ↦ rw known (send_tracked-HasFreshIds _ h.next_connection request_changes fresh)
    ])

remove-HasFreshIds : (h : Hub) (id : ℕ) → HasFreshIds h → HasFreshIds (remove h id)
unfolding remove
remove-HasFreshIds h id v = erase_connection-IsBelow h.next_connection id h.connections v

expire-HasFreshIds : (h : Hub) (id : ℕ) (f : Str) → HasFreshIds h → HasFreshIds (expire h id f).0
unfolding expire
expire-HasFreshIds h id f v = ground (arith, remove-HasFreshIds h id v)

-- What a connection follows after a frame: the same as before, nothing, or what the resolver gives.
abbrev pub WatchWrites : WatchResolver → Fields → Connection → Connection → Type 0
WatchWrites resolver frame c d =
    (d.watches ≡ c.watches)
    ⊎ ((d.watches ≡ [])
        ⊎ ((resolve : Str → Fields → Option (Str × Str)) × (resolver ≡ some resolve)
            × (owner : Str) × (prefix : Str) × (resolve c.user_id frame ≡ some (owner, prefix))
            × (d.watches ≡ record { owner = owner; prefix = prefix } ∷ [])))

-- What one frame may do to the entry of the connection that sent it: the user stays, and only an
-- acknowledgement changes what is pending.
abbrev pub FrameWrites : WatchResolver → Fields → Connection → Connection → Type 0
FrameWrites resolver frame c d =
    (d.user_id ≡ c.user_id)
    × ((d.pending ≡ c.pending)
        ⊎ ((string_field frame "type" ≡ bytes "ack")
            × (d.pending ≡ set_erase (string_field frame "id") c.pending)))
    × WatchWrites resolver frame c d

-- A frame leaves the hub as it was, or writes the entry of the connection that sent it.
module _ {ℓ} (P : Hub → Type ℓ) (resolve : WatchResolver) (h : Hub) (id : ℕ) (frame : Fields) where
  module _ (c : Connection) (e : find_connection id h.connections ≡ some c) (same : P h)
      (wrote : (d : Connection)
        → FrameWrites resolve frame c d
        → P (record h { connections = put_connection id d h.connections })) where
    follow_none : (f : Str) → P (follow h id f none).0
    unfolding follow
    follow_none f = rw (e, follow) (wrote _ (refl, inl refl, inr (inl refl)))

    follow_cases :
        (r : Str → Fields → Option (Str × Str)) (owner prefix f : Str)
        → resolve ≡ some r
        → r c.user_id frame ≡ some (owner, prefix)
        → P (follow h id f (some (owner, prefix))).0
    unfolding follow
    follow_cases r owner prefix f same_resolver given =
        rw (e, follow)
          (wrote _ (refl, inl refl, inr (inr (r, same_resolver, owner, prefix, given, refl))))

    watch_resolved_cases :
        (r : Str → Fields → Option (Str × Str)) (f : Str) (target : Option (Str × Str))
        → resolve ≡ some r
        → r c.user_id frame ≡ target
        → P (watch_resolved h id f target).0
    unfolding watch_resolved
    watch_resolved_cases r f none g given = same
    watch_resolved_cases r f (some (owner, prefix)) g given = follow_cases r owner prefix f g given

    watch_cases : (r : WatchResolver) (f : Str) → resolve ≡ r → P (watch r h id f c.user_id frame).0
    unfolding watch
    watch_cases none f g = follow_none f
    watch_cases (some r) f g = watch_resolved_cases r f (r c.user_id frame) g refl

    handle_known_cases : P (handle_known resolve h id frame c).0
    unfolding handle_known
    handle_known_cases = elim (Bool-cases (str_eq (string_field frame "type") (bytes "ack"))) [
      | inl t ↦ rw t (wrote _ (refl, inr ((str_eq_iff _ _).0 t, refl), inl refl))
      | inr t ↦ rw t (elim (Bool-cases (str_eq (string_field frame "type") (bytes "hello"))) [
        | inl u ↦ rw u (wrote _ (refl, inl refl, inl refl))
        | inr u ↦
            rw u
              (elim (Bool-cases (
                str_eq (string_field frame "type") (bytes "ping")
                || str_eq (string_field frame "type") (bytes "changes"))) [
                  | inl v ↦ rw v same
                  | inr v ↦
                      rw v (elim (Bool-cases (str_eq (string_field frame "type") (bytes "watch"))) [
                        | inl w ↦ rw w (watch_cases resolve _ refl)
                        | inr w ↦
                            rw w
                              (elim (Bool-cases
                                (str_eq (string_field frame "type") (bytes "unwatch"))) [
                                  | inl x ↦ rw x (follow_none _)
                                  | inr x ↦ rw x same
                                ])
                      ])
                ])
      ])
    ]

  pub handle_cases :
      P h
      → ((c d : Connection)
          → find_connection id h.connections ≡ some c
          → FrameWrites resolve frame c d
          → P (record h { connections = put_connection id d h.connections }))
      → P (handle resolve h id frame).0
  unfolding handle
  handle_cases same wrote = elim (Option-cases (find_connection id h.connections)) [
    | inl e ↦ rw (e, handle) same
    | inr (c, e) ↦ rw (e, handle) (handle_known_cases c e same (λ d w. wrote c d e w))
  ]

-- The same of a text that may be no frame.
module _ {ℓ} (P : Hub → Type ℓ) (resolve : WatchResolver) (h : Hub) (id : ℕ) (same : P h)
    (parse : Str → Option Json) (message : Str)
    (wrote : (frame : Fields) (c d : Connection)
      → parse message ≡ some (object frame)
      → find_connection id h.connections ≡ some c
      → FrameWrites resolve frame c d
      → P (record h { connections = put_connection id d h.connections })) where
  parsed_cases : (value : Option Json) → parse message ≡ value → P (parsed resolve h id value).0
  parsed_cases none g = same
  parsed_cases (some (object frame)) g =
      handle_cases P resolve h id frame same (λ c d e w. wrote frame c d g e w)
  parsed_cases (some value) g = same

  pub on_message_cases : P (on_message parse resolve h id message).0
  unfolding on_message
  on_message_cases = parsed_cases (parse message) refl

handle-HasFreshIds :
    (resolve : WatchResolver) (h : Hub) (id : ℕ) (frame : Fields)
    → HasFreshIds h
    → HasFreshIds (handle resolve h id frame).0
handle-HasFreshIds resolve h id frame v =
    handle_cases HasFreshIds resolve h id frame v (λ c d e _. write-HasFreshIds h id c d e v)

-- While neither of the hub's counters is about to wrap, each call keeps the ids of the connections
-- below the next one to be given.
pub step-HasFreshIds :
    (resolve : WatchResolver) (h : Hub) (op : Op)
    → HasRoom h
    → HasFreshIds h
    → HasFreshIds (step resolve h op).0
unfolding step notify
step-HasFreshIds resolve h (adds user_id) room v = add-HasFreshIds h user_id room.0 v
step-HasFreshIds resolve h (removes id) room v = remove-HasFreshIds h id v
step-HasFreshIds resolve h (messages id frame) room v = handle-HasFreshIds resolve h id frame v
step-HasFreshIds resolve h (notifies owner paths origin) room v =
    announce-HasFreshIds h (targets owner paths origin h.connections) v
step-HasFreshIds resolve h (expires id f) room v = expire-HasFreshIds h id f v
