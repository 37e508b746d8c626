-- ===== src/Downloads.antt =====
-- src/downloads.cpp: the cache of the release listing and the two handlers. GitHub, as cpr reaches it,
-- is a parameter: what it answers to a URL with headers. Times are readings of the steady clock.
pub mod Cache
pub mod Assets
mod Tests
use Prim.Native.String
use lectern_server.Prelude.{
  ℕ, zero, ◌+◌, ◌-◌, String, Bool, true, false, not, ◌&&◌, ◌||◌, Option, none, some, List, [], ◌∷◌,
  ◌++◌, ltb, leb, ◌==◌, if◌then◌else◌, Str, bytes, length, is_empty, any, keep_if,
}
use lectern_server.Error.{Result, ok, err, ◌>>=◌, internal, not_found, exception}
use lectern_server.Util.{is_alnum}
use lectern_server.Json.{
  Json, Items, nil, cons, Fields, field, end, text, number, array, object, find_field, text_value,
  number_value, to_items,
}
use lectern_server.Limiter.{seconds}
use lectern_server.World.{Response, typed_body, json_response}

pub record Releases : Type 0 where
  pub repo : Str
  pub token : Option Str
  pub cache : Option Json
  pub cached_at : ℕ

-- `cpr::Response`: a status code of 0 stands for an error of the connection.
pub record Answer : Type 0 where
  pub status_code : ℕ
  pub content : Str

abbrev pub Headers : Type 0
Headers = List (String × Str)

abbrev pub Github : Type 0
Github = (url : Str) → Headers → Answer

abbrev pub cache_ttl : ℕ
cache_ttl = seconds 300

abbrev pub fresh_cache : Option Json → Bool → Option Json
fresh_cache none expired = none
fresh_cache (some view) expired = if expired then none else some view

-- `Releases::fCached` and `Releases::fStore`.
unfoldable pub cached : Releases → (now : ℕ) → Option Json
cached releases now = fresh_cache releases.cache (leb cache_ttl (now - releases.cached_at))

unfoldable pub store : Json → (now : ℕ) → Releases → Releases
store view now releases = record releases { cache = some view; cached_at = now }

abbrev bearer : Option Str → Headers
bearer none = []
bearer (some token) = ("Authorization", bytes "Bearer " ++ token) ∷ []

unfoldable pub github_headers : Releases → (accept : Str) → Headers
github_headers releases accept =
    ("User-Agent", bytes "lectern-server-cpp") ∷ ("Accept", accept) ∷ bearer releases.token

unfoldable pub safe_attachment_name : Str → Str
unfolding is_alnum
safe_attachment_name name =
    keep_if
      (λ c.
        is_alnum c
        || (c == b'.' || (c == b'-' || (c == b'_' || (c == 32 || (c == 40 || c == 41))))))
      name

abbrev asset_json : ℕ → Str → ℕ → Json
asset_json id name size =
    object (field "id" (number id) (field "name" (text name) (field "size" (number size) end)))

-- One asset of the release: `none` for those that are passed over.
abbrev named_asset : Option Json → Option Json → Result ℕ → Result (List Json)
named_asset (some (number id)) (some (text name)) size =
    size >>= λ n. ok (asset_json id name n ∷ [])
named_asset _ _ size = ok []

unfoldable pub asset_view : Json → Result (List Json)
unfolding find_field
asset_view (object fields) =
    named_asset (find_field "id" fields) (find_field "name" fields)
      (number_value (find_field "size" fields))
asset_view _ = ok []

unfoldable pub asset_views : Items → Result (List Json)
unfolding asset_view
asset_views nil = ok []
asset_views (cons asset rest) =
    asset_view asset >>= λ views. asset_views rest >>= λ more. ok (views ++ more)

abbrev assets_of : Option Json → Result (List Json)
unfolding asset_views
assets_of (some (array items)) = asset_views items
assets_of _ = ok []

unfoldable pub release_view : Json → Result Json
unfolding find_field assets_of
release_view (object fields) = assets_of (find_field "assets" fields) >>= λ assets.
    text_value (find_field "tag_name" fields) >>= λ tag_name.
    text_value (find_field "published_at" fields) >>= λ published_at. ok (
      object (
        field "tagName" (text tag_name)
          (field "publishedAt" (text published_at) (field "assets" (array (to_items assets)) end))))
release_view _ = err exception

abbrev pub is_success : ℕ → Bool
is_success code = leb 200 code && ltb code 300

abbrev parsed_view : Option Json → Result Json
unfolding release_view
parsed_view none = err (internal "malformed GitHub response")
parsed_view (some release) = release_view release

-- What GitHub's answer becomes.
unfoldable pub fetched_view : (parse_json : Str → Option Json) → Answer → Result Json
unfolding parsed_view
fetched_view parse_json answer =
    if is_success answer.status_code then parsed_view (parse_json answer.content) else err not_found

unfoldable pub latest_url : Releases → Str
latest_url releases =
    bytes "https://api.github.com/repos/" ++ (releases.repo ++ bytes "/releases/latest")

abbrev pub stored : Releases → ℕ → Result Json → Result Response × Releases
unfolding store
stored releases now (ok view) = (ok (json_response view), store view now releases)
stored releases now (err e) = (err e, releases)

abbrev pub latest :
    (parse_json : Str → Option Json)
    → Github
    → (later : ℕ) → Releases
    → Option Json
    → Result Response × Releases
unfolding fetched_view latest_url github_headers stored
latest parse_json github later releases (some view) = (ok (json_response view), releases)
latest parse_json github later releases none = stored releases later (
    fetched_view parse_json (
      github (latest_url releases) (github_headers releases (bytes "application/vnd.github+json"))))

-- GET /api/downloads/latest, asked at the reading `now` of the clock; GitHub's answer is there at the
-- reading `later`.
unfoldable pub latest_handler :
    (parse_json : Str → Option Json)
    → Github
    → (now later : ℕ) → Releases
    → Result Response × Releases
unfolding cached latest
latest_handler parse_json github now later releases =
    latest parse_json github later releases (cached releases now)

abbrev pub is_digit : ℕ → Bool
is_digit c = leb 48 c && leb c 57

unfoldable pub is_asset_id : Str → Bool
is_asset_id asset_id = not (is_empty asset_id || any (λ c. not (is_digit c)) asset_id)

unfoldable pub asset_url : Releases → (asset_id : Str) → Str
asset_url releases asset_id =
    bytes "https://api.github.com/repos/"
    ++ (releases.repo ++ (bytes "/releases/assets/" ++ asset_id))

abbrev pub attachment : (name content : Str) → Response
unfolding safe_attachment_name
attachment name content = record {
  code = 200;
  content = typed_body (bytes "application/octet-stream") content;
  cookies = [];
  headers =
      (
        "Content-Disposition",
        bytes "attachment; filename=" ++ (34 ∷ (safe_attachment_name name ++ 34 ∷ [])),
      )
      ∷ [];
}

abbrev pub passed_on : (max_asset_bytes : ℕ) → (name : Str) → Answer → Result Response
unfolding attachment
passed_on max_asset_bytes name answer =
    if not (is_success answer.status_code)
    then err not_found
    else if ltb max_asset_bytes (length answer.content)
    then err (internal "release asset is larger than this server will proxy")
    else ok (attachment name answer.content)

-- GET /api/downloads/asset/{id}/{name}; `max_asset_bytes` is DOWNLOAD_MAX_BYTES.
unfoldable pub asset_handler :
    (max_asset_bytes : ℕ) → Github → Releases → (asset_id name : Str) → Result Response
unfolding is_asset_id asset_url github_headers passed_on
asset_handler max_asset_bytes github releases asset_id name =
    if is_asset_id asset_id
    then passed_on max_asset_bytes name (
        github (asset_url releases asset_id)
          (github_headers releases (bytes "application/octet-stream")))
    else err not_found
