-- ===== src/Hub/Table.antt =====
-- `connections_` of src/sync_hub.h: a map in the order of its keys.
use lectern_server.Prelude.{
  ℕ, ◌≡◌, refl, Option, none, some, List, [], ◌∷◌, arith, ltb, ◌==◌, if◌then◌else◌, Str,
}

pub record Watch : Type 0 where
  pub owner : Str
  pub prefix : Str

pub record Connection : Type 0 where
  pub user_id : Str
  pub device : Str
  pub pending : List Str
  pub watches : List Watch

abbrev pub Connections : Type 0
Connections = List (ℕ × Connection)

unfoldable pub find_connection : ℕ → Connections → Option Connection
find_connection id [] = none
find_connection id ((k, c) ∷ rest) = if k == id then some c else find_connection id rest

-- Replaces an entry, or puts a new one in its place.
unfoldable pub put_connection : ℕ → Connection → Connections → Connections
put_connection id c [] = (id, c) ∷ []
put_connection id c ((k, d) ∷ rest) =
    if k == id
    then (id, c) ∷ rest
    else if ltb id k
    then (id, c) ∷ (k, d) ∷ rest
    else (k, d) ∷ put_connection id c rest

unfoldable pub erase_connection : ℕ → Connections → Connections
erase_connection id [] = []
erase_connection id ((k, c) ∷ rest) =
    if k == id then erase_connection id rest else (k, c) ∷ erase_connection id rest

pub find_connection-put_connection :
    (i id : ℕ) (c : Connection) (cs : Connections)
    → find_connection i (put_connection id c cs)
      ≡ (if id == i then some c else find_connection i cs)
unfolding find_connection put_connection
find_connection-put_connection i id c [] = refl
find_connection-put_connection i id c ((k, d) ∷ rest) =
    ground (arith, find_connection-put_connection i id c rest)

pub find_connection-erase_connection :
    (i id : ℕ) (cs : Connections)
    → find_connection i (erase_connection id cs) ≡ (if id == i then none else find_connection i cs)
unfolding find_connection erase_connection
find_connection-erase_connection i id [] = ground arith
find_connection-erase_connection i id ((k, d) ∷ rest) =
    ground (arith, find_connection-erase_connection i id rest)
