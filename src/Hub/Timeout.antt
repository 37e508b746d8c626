-- ===== src/Hub/Timeout.antt =====
-- The acknowledgement timeout of src/sync_hub.cpp: a frame that nobody answers costs the connection,
-- one that was answered never does.
use lectern_server.Prelude.{
  ℕ, ◌≡◌, Bool, true, false, not, ◌&&◌, ◌||◌, Option, none, some, List, [], ◌∷◌, arith, Str, bytes,
  ◌==◌, if◌then◌else◌, Option-cases, inl, inr, str_eq, str_eq_iff,
}
use lectern_server.Hub.Table.{
  Connection, find_connection, put_connection, find_connection-put_connection,
}
use lectern_server.Hub.Frames.{frame_id}
use lectern_server.Hub.History.{Op, adds, removes, messages, notifies, expires}
use lectern_server.Hub.{Hub, Frame, send_tracked, set_has, set_insert, set_erase, string_field}

-- Whether the connection still owes the acknowledgement of the frame.
abbrev pub awaited_in : Option Connection → Str → Bool
awaited_in none id = false
awaited_in (some c) id = set_has id c.pending

abbrev pub awaits : Hub → ℕ → Str → Bool
awaits h connection id = awaited_in (find_connection connection h.connections) id

set_has-set_insert :
    (x id : Str) (ids : List Str) → set_has x (set_insert id ids) ≡ (str_eq id x || set_has x ids)
set_has-set_insert x id [] = ground arith
set_has-set_insert x id (y ∷ ids) =
    ground (arith, str_eq_iff id x, str_eq_iff y x, str_eq_iff y id, set_has-set_insert x id ids)

pub set_has-set_erase :
    (x id : Str) (ids : List Str)
    → set_has x (set_erase id ids) ≡ (not (str_eq id x) && set_has x ids)
set_has-set_erase x id [] = ground arith
set_has-set_erase x id (y ∷ ids) =
    ground (arith, str_eq_iff id x, str_eq_iff y x, str_eq_iff y id, set_has-set_erase x id ids)

pub find_write :
    (h : Hub) (k i : ℕ) (d : Connection) (id : Str)
    → awaited_in (find_connection i (put_connection k d h.connections)) id
      ≡ (if k == i then set_has id d.pending else awaits h i id)
find_write h k i d id = rw (find_connection-put_connection i k d h.connections) (ground arith)

-- A write that keeps what the connection owes.
write_keeps :
    (h : Hub) (k i : ℕ) (c d : Connection) (id : Str)
    → find_connection k h.connections ≡ some c
    → (set_has id c.pending ≡ true → set_has id d.pending ≡ true)
    → awaits h i id ≡ true
    → awaited_in (find_connection i (put_connection k d h.connections)) id ≡ true
write_keeps h k i c d id e keep a = ground (arith, find_write h k i d id)

-- A write that adds nothing to it.
pub write_adds_none :
    (h : Hub) (k i : ℕ) (c d : Connection) (id : Str)
    → find_connection k h.connections ≡ some c
    → (set_has id c.pending ≡ false → set_has id d.pending ≡ false)
    → awaits h i id ≡ false
    → awaited_in (find_connection i (put_connection k d h.connections)) id ≡ false
write_adds_none h k i c d id e keep a = ground (arith, find_write h k i d id)

pub write_keeps_other :
    (h : Hub) (k i : ℕ) (c d : Connection) (id : Str)
    → find_connection k h.connections ≡ some c
    → (k ≡ i → set_has id c.pending ≡ true → set_has id d.pending ≡ true)
    → awaits h i id ≡ true
    → awaited_in (find_connection i (put_connection k d h.connections)) id ≡ true
write_keeps_other h k i c d id e keep a = ground (arith, find_write h k i d id)

module _ (h : Hub) (k i : ℕ) (f : Str → Frame) (id : Str) where
  pub send_tracked_keeps : awaits h i id ≡ true → awaits (send_tracked h k f).0 i id ≡ true
  unfolding send_tracked
  send_tracked_keeps a = elim (Option-cases (find_connection k h.connections)) [
    | inl e ↦ rw (e, send_tracked) a
    | inr (c, e) ↦
        rw (e, send_tracked)
          (write_keeps h k i c _ id e
            (λ b. ground (arith, set_has-set_insert id (frame_id h.next_frame) c.pending)) a)
  ]

  pub send_tracked_adds_none :
      str_eq (frame_id h.next_frame) id ≡ false
      → awaits h i id ≡ false
      → awaits (send_tracked h k f).0 i id ≡ false
  unfolding send_tracked
  send_tracked_adds_none other a = elim (Option-cases (find_connection k h.connections)) [
    | inl e ↦ rw (e, send_tracked) a
    | inr (c, e) ↦
        rw (e, send_tracked)
          (write_adds_none h k i c _ id e
            (λ b. ground (arith, set_has-set_insert id (frame_id h.next_frame) c.pending)) a)
  ]

-- The calls that may end the wait for the frame: its acknowledgement, its timeout (of this frame
-- or another one of the connection), and the connection's end.
abbrev pub Settles : ℕ → Str → Op → Type 0
Settles i id (adds user_id) = ⊥
Settles i id (removes k) = k ≡ i
Settles i id (messages k frame) =
    (k ≡ i) × (string_field frame "type" ≡ bytes "ack") × (string_field frame "id" ≡ id)
Settles i id (notifies owner paths origin) = ⊥
Settles i id (expires k f) = k ≡ i
