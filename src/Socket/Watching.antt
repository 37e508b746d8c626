-- ===== src/Socket/Watching.antt =====
-- What the messages on the sockets of src/sync_ws.cpp let a connection follow.
use lectern_server.Prelude.{ℕ, ◌≡◌, ◌⊎◌, Option, some, [], Str, All}
use lectern_server.Json.{Fields, object}
use lectern_server.Database.{Database}
use lectern_server.Hub.{Hub, WatchResolver, string_field}
use lectern_server.Hub.Table.{Watch, Connection, find_connection}
use lectern_server.Share.{resolve_watch}
use lectern_server.Share.Resolve.{LinkGives, ShareGives}
use lectern_server.World.{Env, World}

-- The frame's link gives it to anyone, or the frame's share gives it to the user.
abbrev pub GivenBy : Database → Fields → Str → Watch → Type 0
GivenBy db frame user_id w =
    LinkGives db (string_field frame "link") w.owner w.prefix
    ⊎ ShareGives db (string_field frame "share") user_id w.owner w.prefix

-- A connection that was there with the same user, and is as it was, or is the one that the message came
-- from and follows what it did, nothing, or what the message's link or share gives.
abbrev pub FollowsGiven : Env → World → Option ℕ → Str → ℕ → Connection → Type 0
FollowsGiven env w context message i c =
    (b : Connection) × (find_connection i w.hub.connections ≡ some b)
    × (c.user_id ≡ b.user_id)
    × ((c ≡ b)
        ⊎ ((context ≡ some i)
            × ((c.watches ≡ b.watches)
                ⊎ ((c.watches ≡ [])
                    ⊎ ((frame : Fields) × (env.parse_json message ≡ some (object frame))
                        × All (GivenBy w.db frame c.user_id) c.watches)))))

module _ (env : Env) (w : World) (id : ℕ) (message : Str) where
  AllFollowGiven : Hub → Type 0
  AllFollowGiven g =
      (i : ℕ) (c : Connection)
      → find_connection i g.connections ≡ some c
      → FollowsGiven env w (some id) message i c

  resolver : WatchResolver
  resolver = some (resolve_watch w.db)
