-- ===== src/World.antt =====
-- The process-wide state of src/state.h with the file tree and the hub, the handlers' monad, requests
-- and responses of src/http.h, and what the server takes from outside: its settings, libsodium,
-- nlohmann's parser, the clocks and the random bytes of one request.
pub mod Laws
use Prim.Native.String
use lectern_server.Prelude.{
  ℕ, ◌+◌, ◌*◌, ◌/◌, ◌%◌, String, Bool, true, false, not, ◌||◌, Option, none, some, List, [], ◌∷◌,
  ◌++◌, leb, ◌==◌, if◌then◌else◌, Str, bytes, str_eq, rfind, take, drop, is_empty, any,
}
use lectern_server.Util.{trim}
use lectern_server.Json.{Json, boolean, text, object, Fields, find_field}
use lectern_server.Error
use lectern_server.Error.{AppError, Result, ok, err, bad_request, internal, not_found, exception}
use lectern_server.Limiter.{Buckets, is_limited, record_hit}
use lectern_server.Hub.{Hub, Effect, notify}
use lectern_server.Files.{Files}
use lectern_server.Database.{Database}

-- The settings of `AppState`, and the functions and readings of one request. The wall clock stands
-- still while a request is served.
pub record Env : Type 0 where
  pub session_secret : Str
  pub cookie_secure : Bool
  pub trusted_proxies : List Str
  pub workspace_quota_bytes : ℕ
  pub max_work_file_bytes : ℕ
  pub sha256 : Str → Str
  pub hmac_sha256 : (key message : Str) → Str
  pub hash_password : Str → Option Str
  pub verify_password : (password phc : Str) → Bool
  pub parse_json : Str → Option Json
  -- `dump()`, which throws on a text that is not UTF-8.
  pub dump_json : Json → Option Str
  pub base64 : Str → Str
  pub now_ms : ℕ
  pub clock : ℕ
  -- The `n`-th draw of `count` random bytes.
  pub random : (n count : ℕ) → Str

abbrev pub now_s : Env → ℕ
now_s env = env.now_ms / 1000

pub record World : Type 0 where
  pub db : Database
  pub files : Files
  -- The tree below `fonts_dir`.
  pub font_files : Files
  pub limiter : Buckets
  pub hub : Hub
  -- What the hub has sent, closed and scheduled, oldest first.
  pub effects : List Effect

-- A handler may throw; what it did to the state before stays done.
abbrev pub M : Type 0 → Type 0
M A = World → Result A × World

abbrev pub pure : {A : Type 0} → A → M A
pure a w = (ok a, w)

abbrev pub throw : {A : Type 0} → AppError → M A
throw e w = (err e, w)

unfoldable pub after : {A B : Type 0} → Result A × World → (A → M B) → Result B × World
after (ok a, w) f = f a w
after (err e, w) f = (err e, w)

infixl 5 ◌>>=◌ ◌>>◌
abbrev pub ◌>>=◌ : {A B : Type 0} → M A → (A → M B) → M B
◌>>=◌ m f w = after (m w) f

abbrev pub ◌>>◌ : {B : Type 0} → M (Unit {0}) → M B → M B
m >> k = m >>= λ _. k

abbrev pub lift : {A : Type 0} → Result A → M A
lift r w = (r, w)

unfoldable pub require : Bool → AppError → M (Unit {0})
require b e w = (if b then ok tt else err e, w)

unfoldable pub found : {A : Type 0} → Option A → AppError → M A
found none e w = (err e, w)
found (some a) e w = (ok a, w)

abbrev pub query : {A : Type 0} → (Database → A) → M A
query f w = (ok (f w.db), w)

abbrev pub stored : World → Option Database → Result (Unit {0}) × World
stored w none = (err (internal "sqlite step failed"), w)
stored w (some db) = (ok tt, record w { db = db })

-- `fExecute` of a statement that a constraint may stop.
unfoldable pub execute : (Database → Option Database) → M (Unit {0})
execute f w = stored w (f w.db)

abbrev pub execute_total : (Database → Database) → M (Unit {0})
execute_total f w = (ok tt, record w { db = f w.db })

abbrev pub read_files : {A : Type 0} → (Files → A) → M A
read_files f w = (ok (f w.files), w)

abbrev pub written : AppError → World → Option Files → Result (Unit {0}) × World
written e w none = (err e, w)
written e w (some fs) = (ok tt, record w { files = fs })

abbrev pub written_fonts : AppError → World → Option Files → Result (Unit {0}) × World
written_fonts e w none = (err e, w)
written_fonts e w (some fs) = (ok tt, record w { font_files = fs })

unfoldable pub change_files : AppError → (Files → Option Files) → M (Unit {0})
change_files e f w = written e w (f w.files)

-- The same on the tree of the fonts.
abbrev pub read_fonts : {A : Type 0} → (Files → A) → M A
read_fonts f w = (ok (f w.font_files), w)

unfoldable pub change_fonts : AppError → (Files → Option Files) → M (Unit {0})
change_fonts e f w = written_fonts e w (f w.font_files)

abbrev pub is_limited_now : Env → Str → Str → (max window : ℕ) → M Bool
is_limited_now env ip kind max window w =
    (ok (is_limited w.limiter ip kind max window env.clock), w)

abbrev pub record_now : Env → Str → Str → (window : ℕ) → M (Unit {0})
record_now env ip kind window w =
    (ok tt, record w { limiter = record_hit w.limiter ip kind window env.clock })

-- `sync::fNotifyChanges` of src/sync_ws.cpp.
unfoldable pub notify_changes : Str → List Str → Str → M (Unit {0})
notify_changes owner_id paths origin_device w =
    let (hub, effects) = notify w.hub owner_id paths origin_device in
    (ok tt, record w { hub = hub; effects = w.effects ++ effects })

pub data Method : Type 0 where
  get post put delete : Method

-- `if (req->method() == drogon::Get)`.
abbrev pub by_method : {A : Type 0} → Method → (on_get otherwise : A) → A
by_method get on_get otherwise = on_get
by_method _ on_get otherwise = otherwise

-- A request as drogon presents it: an absent header, cookie or parameter reads as empty.
pub record Request : Type 0 where
  pub method : Method
  pub header : String → Str
  pub cookie : String → Str
  pub parameter : String → Str
  pub body : Str
  pub peer : Str

pub record Cookie : Type 0 where
  pub value : Str
  pub max_age : ℕ
  pub secure : Bool
  pub http_only : Bool
  pub same_site_strict : Bool

pub data Body : Type 0 where
  no_body : Body
  json_body_of : Json → Body
  text_body : Str → Body
  -- With a content type of its own.
  typed_body : (content_type content : Str) → Body
  error_body : String → Body

pub record Response : Type 0 where
  pub code : ℕ
  pub content : Body
  pub cookies : List Cookie
  pub headers : List (String × Str)

-- `fJsonResponse`; what its `dump()` throws is dealt with in `guard`, where every handler's response
-- arrives and nothing is left to do.
abbrev pub json_response : Json → Response
json_response body = record { code = 200; content = json_body_of body; cookies = []; headers = [] }

abbrev pub text_response : Str → Response
text_response body = record { code = 200; content = text_body body; cookies = []; headers = [] }

abbrev pub ok_response : Response
ok_response = record { code = 200; content = no_body; cookies = []; headers = [] }

abbrev pub error_response : AppError → Response
error_response e = record {
  code = Error.status e;
  content = error_body (Error.message e);
  cookies = [];
  headers = [];
}

abbrev pub add_cookie : Response → Cookie → Response
add_cookie r c = record r { cookies = r.cookies ++ c ∷ [] }

abbrev dumped : Response → Option Str → Response
dumped r none = error_response exception
dumped r (some written) = r

abbrev serialised : Env → Response → Body → Response
serialised env r (json_body_of body) = dumped r (env.dump_json body)
serialised env r content = r

abbrev answered : Env → Result Response × World → Response × World
answered env (ok r, w) = (serialised env r r.content, w)
answered env (err e, w) = (error_response e, w)

-- `fGuard`: the handler's own response, or that of what it or the dump of its JSON throws.
unfoldable pub guard : Env → M Response → World → Response × World
guard env m w = answered env (m w)

unfoldable pub required_query : Request → String → Result Str
required_query req name =
    if is_empty (req.parameter name)
    then err (bad_request (String.◌++◌ "missing '" (String.◌++◌ name "' parameter")))
    else ok (req.parameter name)

unfoldable pub query_bool : Request → String → Bool
unfolding str_eq
query_bool req name =
    str_eq (req.parameter name) (bytes "1") || str_eq (req.parameter name) (bytes "true")

abbrev as_object : Option Json → Result Fields
as_object (some (object fields)) = ok fields
as_object _ = err (bad_request "expected a JSON object body")

unfoldable pub json_body : Env → Request → Result Fields
json_body env req = as_object (env.parse_json req.body)

abbrev as_string : String → Option Json → Result Str
as_string key (some (text s)) = ok s
as_string key _ = err (bad_request (String.◌++◌ "missing '" (String.◌++◌ key "' field")))

unfoldable pub json_string : Fields → String → Result Str
unfolding find_field
json_string fields key = as_string key (find_field key fields)

abbrev as_string_or : Str → Option Json → Str
as_string_or fallback (some (text s)) = s
as_string_or fallback _ = fallback

unfoldable pub json_string_or : Fields → String → Str → Str
unfolding find_field
json_string_or fields key fallback = as_string_or fallback (find_field key fields)

abbrev as_bool : Bool → Option Json → Bool
as_bool fallback (some (boolean b)) = b
as_bool fallback _ = fallback

unfoldable pub json_bool : Fields → String → Bool → Bool
unfolding find_field
json_bool fields key fallback = as_bool fallback (find_field key fields)

-- `AppState::fClientIp`.
abbrev last_entry : Str → Option ℕ → Str
last_entry forwarded none = trim forwarded
last_entry forwarded (some pos) = trim (drop (pos + 1) forwarded)

abbrev or_else : Str → Str → Str
or_else value fallback = if is_empty value then fallback else value

unfoldable pub client_ip : Env → Request → Str
unfolding rfind trim str_eq
client_ip env req =
    let forwarded = req.header "x-forwarded-for" in
    if not (any (λ p. str_eq p req.peer) env.trusted_proxies)
    then req.peer
    else if is_empty forwarded
    then req.peer
    else or_else (last_entry forwarded (rfind b',' forwarded)) req.peer

-- `fToHex`, and the ids drawn from random bytes.
abbrev hex_digit : ℕ → ℕ
hex_digit d = if leb 10 d then 87 + d else 48 + d

unfoldable pub to_hex : Str → Str
to_hex [] = []
to_hex (b ∷ data_left) = hex_digit (b / 16) ∷ hex_digit (b % 16) ∷ to_hex data_left

-- Byte 6 gets version 4 and byte 8 variant 1.
abbrev stamped : ℕ → Str → Str
stamped i [] = []
stamped i (b ∷ rest) =
    (if i == 6 then b % 16 + 64 else if i == 8 then b % 64 + 128 else b) ∷ stamped (i + 1) rest

abbrev substr : Str → ℕ → ℕ → Str
substr s pos count = take count (drop pos s)

unfoldable pub uuid_v4 : Str → Str
unfolding to_hex
uuid_v4 random_bytes =
    let hex = to_hex (stamped 0 random_bytes) in
    substr hex 0 8
    ++ (b'-'
        ∷ (substr hex 8 4
            ++ (b'-'
                ∷ (substr hex 12 4 ++ (b'-' ∷ (substr hex 16 4 ++ (b'-' ∷ substr hex 20 12)))))))

unfoldable pub random_hex : Env → (n count : ℕ) → Str
unfolding to_hex
random_hex env n count = to_hex (env.random n count)
