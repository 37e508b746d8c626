-- ===== src/Hub/Delivery.antt =====
-- Acknowledged frames of src/sync_hub.cpp: their timeout is harmless for good, since no later frame
-- takes the same id.
use lectern_server.Prelude.{
  ℕ, ◌+◌, ◌<◌, ◌≤◌, ◌≡◌, ◌∙◌, false, List, [], ◌∷◌, arith, Str, bytes, length, Option-cases,
  Bool-cases, inl, inr, is_empty, str_eq, str_eq_iff, str_eq_refl, is_empty,
}
use lectern_server.Json.{Fields}
use lectern_server.Hub.Table.{
  Connection, Connections, find_connection, put_connection, find_connection-erase_connection,
}
use lectern_server.Hub.Frames.{frame_id, frame_id_injective}
use lectern_server.Hub.History.{
  Op, adds, removes, messages, notifies, expires, step, run, HasRoom, AllHaveRoom, FrameWrites,
  handle_cases,
}
use lectern_server.Hub.Timeout.{
  awaited_in, awaits, find_write, write_adds_none, send_tracked_adds_none, set_has-set_erase,
}
use lectern_server.Hub.{
  Hub, Frame, WatchResolver, add, remove, expire, handle, handle_known, notify, send_tracked,
  announce, targets, set_has, string_field, request_changes, changes,
}

-- The `n`-th frame was sent, and the connection owes no answer to it.
abbrev pub IsSettled : ℕ → ℕ → Hub → Type 0
IsSettled n i h = (n < h.next_frame) × (awaits h i (frame_id n) ≡ false)

frame_id_ne : (m n : ℕ) → m < n → str_eq (frame_id n) (frame_id m) ≡ false
frame_id_ne m n l = elim (Bool-cases (str_eq (frame_id n) (frame_id m))) [
  | inl same ↦ absurd (omega (arith, frame_id_injective n m ((str_eq_iff _ _).0 same)))
  | inr other ↦ other
]

next_frame-send_tracked :
    (h : Hub) (k : ℕ) (f : Str → Frame)
    → h.next_frame + 1 < 18446744073709551616
    → (h.next_frame ≤ (send_tracked h k f).0.next_frame)
      × ((send_tracked h k f).0.next_frame ≤ h.next_frame + 1)
unfolding send_tracked
next_frame-send_tracked h k f room = ground arith

send_tracked-IsSettled :
    (n i : ℕ) (h : Hub) (k : ℕ) (f : Str → Frame)
    → h.next_frame + 1 < 18446744073709551616
    → IsSettled n i h
    → IsSettled n i (send_tracked h k f).0
send_tracked-IsSettled n i h k f room (l, a) = (
  omega (arith, next_frame-send_tracked h k f room),
  send_tracked_adds_none h k i f (frame_id n) (frame_id_ne n h.next_frame l) a,
)

announce-IsSettled :
    (n i : ℕ) (h : Hub) (ts : List (ℕ × List Str))
    → h.next_frame + length ts < 18446744073709551616
    → IsSettled n i h
    → IsSettled n i (announce h ts).0
unfolding announce
announce-IsSettled n i h [] room s = s
announce-IsSettled n i h ((k, list) ∷ ts) room s =
    announce-IsSettled n i (send_tracked h k (λ f. changes f list)).0 ts
      (omega (arith, next_frame-send_tracked h k (λ f. changes f list)))
      (send_tracked-IsSettled n i h k (λ f. changes f list) (omega arith) s)

length-targets-le :
    (owner : Str) (paths : List Str) (origin : Str) (cs : Connections)
    → length (targets owner paths origin cs) ≤ length cs
unfolding targets
length-targets-le owner paths origin [] = omega arith
length-targets-le owner paths origin ((k, c) ∷ cs) =
    ground (arith, length-targets-le owner paths origin cs)

module _ (resolve : WatchResolver) (n i : ℕ) (h : Hub) (s : IsSettled n i h) where
  remove-IsSettled : (k : ℕ) → IsSettled n i (remove h k)
  unfolding remove
  remove-IsSettled k = rw (find_connection-erase_connection i k h.connections) (ground arith)

  expire-IsSettled : (k : ℕ) (f : Str) → IsSettled n i (expire h k f).0
  unfolding expire
  expire-IsSettled k f = ground (arith, remove-IsSettled k)

  add-IsSettled :
      (user_id : Str) → h.next_frame + 1 < 18446744073709551616 → IsSettled n i (add h user_id).0
  unfolding add
  add-IsSettled user_id room = elim (Bool-cases (is_empty user_id)) [
    | inl anonymous ↦ rw anonymous (s.0, blank)
    | inr known ↦
        rw known (send_tracked-IsSettled n i _ h.next_connection request_changes room (s.0, blank))
  ]
    where
      new : Connection
      new = record { user_id = user_id; device = []; pending = []; watches = [] }

      blank :
          awaited_in
            (find_connection i (put_connection h.next_connection new h.connections))
            (frame_id n)
          ≡ false
      blank = find_write h h.next_connection i new (frame_id n) ∙ ground arith

  handle-IsSettled : (k : ℕ) (frame : Fields) → IsSettled n i (handle resolve h k frame).0
  handle-IsSettled k frame = handle_cases (IsSettled n i) resolve h k frame s (λ c d e w. (
    s.0,
    write_adds_none h k i c d (frame_id n) e (frame_adds_none frame c d (frame_id n) w) s.1,
  ))
    where
      frame_adds_none :
          (frame : Fields) (c d : Connection) (id : Str)
          → FrameWrites resolve frame c d
          → set_has id c.pending ≡ false
          → set_has id d.pending ≡ false
      frame_adds_none frame c d id (_, inl same, _) b = rw same b
      frame_adds_none frame c d id (_, inr (t, e), _) b =
          rw e (ground (arith, set_has-set_erase id (string_field frame "id") c.pending))

  step-IsSettled : (op : Op) → HasRoom h → IsSettled n i (step resolve h op).0
  unfolding step notify
  step-IsSettled (adds user_id) r = add-IsSettled user_id (omega arith)
  step-IsSettled (removes k) r = remove-IsSettled k
  step-IsSettled (messages k frame) r = handle-IsSettled k frame
  step-IsSettled (notifies owner paths origin) r =
      announce-IsSettled n i h (targets owner paths origin h.connections)
        (omega (arith, length-targets-le owner paths origin h.connections)) s
  step-IsSettled (expires k f) r = expire-IsSettled k f

run-IsSettled :
    (resolve : WatchResolver) (n i : ℕ) (h : Hub) (ops : List Op)
    → AllHaveRoom resolve h ops
    → IsSettled n i h
    → IsSettled n i (run resolve h ops)
unfolding run
run-IsSettled resolve n i h [] r s = s
run-IsSettled resolve n i h (op ∷ ops) r s =
    run-IsSettled resolve n i (step resolve h op).0 ops r.1 (step-IsSettled resolve n i h s op r.0)

acknowledge :
    (resolve : WatchResolver) (n i : ℕ) (h : Hub) (frame : Fields)
    → n < h.next_frame
    → string_field frame "type" ≡ bytes "ack"
    → string_field frame "id" ≡ frame_id n
    → IsSettled n i (handle resolve h i frame).0
unfolding handle handle_known str_eq
acknowledge resolve n i h frame l t f = elim (Option-cases (find_connection i h.connections)) [
  | inl e ↦ rw (e, handle) (l, ground arith)
  | inr (c, e) ↦
      rw (e, handle)
        (rw t (
          l,
          find_write h i i _ (frame_id n)
              ∙ ground (
                arith,
                set_has-set_erase (frame_id n) (string_field frame "id") c.pending,
                str_eq_refl (frame_id n),
                str_eq_iff (string_field frame "id") (frame_id n),
              ),
        ))
]

expire_settled : (h : Hub) (i : ℕ) (id : Str) → awaits h i id ≡ false → expire h i id ≡ (h, [])
unfolding expire
expire_settled h i id a = ground arith

-- Once a connection has acknowledged a frame that was numbered before, and while no counter wraps
-- in the calls that follow, that frame's timeout closes nothing and changes nothing.
pub acknowledged_survives :
    (resolve : WatchResolver) (n i : ℕ) (h : Hub) (frame : Fields) (ops : List Op)
    → n < h.next_frame
    → string_field frame "type" ≡ bytes "ack"
    → string_field frame "id" ≡ frame_id n
    → AllHaveRoom resolve (handle resolve h i frame).0 ops
    → let g = run resolve (handle resolve h i frame).0 ops in expire g i (frame_id n) ≡ (g, [])
acknowledged_survives resolve n i h frame ops l t f r =
    expire_settled _ i (frame_id n)
      (run-IsSettled resolve n i (handle resolve h i frame).0 ops r
        (acknowledge resolve n i h frame l t f)).1
