-- ===== src/Socket/Tests.antt =====
-- Tests of src/sync_ws.cpp on the sample server.
use lectern_server.Prelude.{◌≡◌, refl, some, [], ◌∷◌, Str, bytes, if◌then◌else◌, str_eq}
use package.text.Mathlib.Text.{◌==◌ as key_eq}
use lectern_server.Json.{Fields, object, field, end, text}
use lectern_server.Sample.{sample_env, sample_world}
use lectern_server.Util.{starts_with, to_lower}
use lectern_server.Auth.{current_user_id_with_headers}
use lectern_server.Session
use lectern_server.Hub
use lectern_server.Hub.{Hub}
use lectern_server.Hub.Table.{Connection}
use lectern_server.World
use lectern_server.World.{Env, Request, World, Method}
use lectern_server.Socket.{connected, violation, origin_host, greet, handle_new_connection}
use lectern_server.Socket.Admission.{Admitted, handle_new_connection-Admitted}

abbrev greeting : (token origin : Str) → Request
greeting token origin = record {
  method = Method.get;
  header = λ name.
      if key_eq name "authorization"
      then token
      else if key_eq name "origin"
      then origin
      else bytes "x.org";
  cookie = λ name. [];
  parameter = λ name. [];
  body = [];
  peer = bytes "1";
}

host_of_origin : origin_host (bytes "https://x.org") ≡ bytes "x.org"
unfolding origin_host
host_of_origin = refl

let_in :
    (handle_new_connection sample_env
      (greeting (bytes "Bearer t") (bytes "https://X.org"))
      sample_world).0
    ≡ connected 1
unfolding handle_new_connection current_user_id_with_headers World.found World.after starts_with
    str_eq to_lower origin_host greet Hub.empty_hub
let_in = refl

visitor_let_in : (handle_new_connection sample_env (greeting [] []) sample_world).0 ≡ connected 1
unfolding handle_new_connection current_user_id_with_headers Session.current_user_id World.found
    World.after starts_with str_eq to_lower origin_host greet Hub.empty_hub
visitor_let_in = refl

foreign_page :
    (handle_new_connection sample_env
      (greeting (bytes "Bearer t") (bytes "https://y.org"))
      sample_world).0
    ≡ violation
unfolding handle_new_connection current_user_id_with_headers World.found World.after starts_with
    str_eq to_lower origin_host greet
foreign_page = refl

wrong_token :
    (handle_new_connection sample_env (greeting (bytes "Bearer x") []) sample_world).0 ≡ violation
unfolding handle_new_connection current_user_id_with_headers World.found World.after starts_with
    str_eq to_lower origin_host greet
wrong_token = refl

handle_new_connection-Admitted_example :
    Admitted sample_env (greeting (bytes "Bearer t") (bytes "https://X.org")) sample_world (
      handle_new_connection sample_env
        (greeting (bytes "Bearer t") (bytes "https://X.org"))
        sample_world)
handle_new_connection-Admitted_example =
    handle_new_connection-Admitted sample_env (greeting (bytes "Bearer t") (bytes "https://X.org"))
      sample_world

abbrev watch_frame : Fields
watch_frame = field "type" (text (bytes "watch")) (field "share" (text (bytes "h")) end)

abbrev watching_env : Env
watching_env = record sample_env { parse_json = λ message. some (object watch_frame) }

abbrev bob : Connection
bob = record { user_id = bytes "b"; device = []; pending = []; watches = [] }

abbrev connected_world : World
connected_world = record sample_world {
  hub = record { connections = (1, bob) ∷ []; next_connection = 2; next_frame = 1 };
}

abbrev following_bob : Connection
following_bob = record bob { watches = record { owner = bytes "a"; prefix = bytes "d" } ∷ [] }
