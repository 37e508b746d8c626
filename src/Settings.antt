-- ===== src/Settings.antt =====
-- The settings: the .env loader and the environment readers of src/util.cpp, and what src/main.cpp
-- makes of them. The environment is a list of names with their values; names and values hold no byte 0.
pub mod Dotenv
mod Tests
use lectern_server.Prelude.{
  ℕ, zero, suc, ◌+◌, ◌-◌, ◌*◌, ◌%◌, Bool, true, false, not, ◌&&◌, ◌||◌, Option, none, some, List,
  [], ◌∷◌, ◌++◌, map, leb, ltb, ◌==◌, if◌then◌else◌, Str, bytes, str_eq, find, take, drop, length,
  is_empty, any, keep_if,
}
use lectern_server.Downloads.{Releases}
use lectern_server.Util.{is_space, trim, trim_left, to_lower, split, starts_with, ends_with}

abbrev pub Environment : Type 0
Environment = List (Str × Str)

unfoldable pub getenv : Str → Environment → Option Str
unfolding str_eq
getenv name [] = none
getenv name ((n, value) ∷ rest) = if str_eq n name then some value else getenv name rest

-- A text as `c_str()` passes it on: up to its first byte 0.
unfoldable pub c_str : Str → Str
c_str [] = []
c_str (c ∷ s) = let rest = c_str s in if c == 0 then [] else c ∷ rest

-- `fSetEnv`, behind the test of `fLoadDotenv`: a name that is there keeps its value.
abbrev set_missing : Str → Str → Environment → Option Str → Environment
set_missing name value env (some old) = env
set_missing name value env none = env ++ (name, value) ∷ []

-- `setenv` refuses an empty name.
unfoldable pub set_named : Str → Str → Environment → Environment
unfolding getenv
set_named [] value env = env
set_named (c ∷ name) value env = set_missing (c ∷ name) value env (getenv (c ∷ name) env)

unfoldable pub set_env : Str → Str → Environment → Environment
unfolding set_named c_str
set_env name value env = set_named (c_str name) (c_str value) env

abbrev pub last_is : ℕ → Str → Bool
last_is q [] = false
last_is q (c ∷ []) = c == q
last_is q (c ∷ d ∷ s) = last_is q (d ∷ s)

abbrev pub first_is : ℕ → Str → Bool
first_is q [] = false
first_is q (c ∷ s) = c == q

-- One layer of matching quotes: " or '.
unfoldable pub unquoted : Str → Str
unquoted value =
    if leb 2 (length value)
      && ((first_is 34 value && last_is 34 value) || (first_is 39 value && last_is 39 value))
    then take (length value - 2) (drop 1 value)
    else value

abbrev pub load_pair : Str → Environment → Option ℕ → Environment
unfolding trim unquoted set_env
load_pair trimmed env none = env
load_pair trimmed env (some equals) =
    let name = trim (take equals trimmed) in
    let value = trim (drop (equals + 1) trimmed) in
    if is_empty name then env else set_env name (unquoted value) env

unfoldable pub load_line : Str → Environment → Environment
unfolding trim load_pair find
load_line line env =
    let trimmed = trim line in
    if is_empty trimmed || first_is b'#' trimmed
    then env
    else load_pair trimmed env (find b'=' trimmed)

abbrev pub load_lines : List Str → Environment → Environment
unfolding load_line
load_lines [] env = env
load_lines (line ∷ lines) env = load_lines lines (load_line line env)

-- `fLoadDotenv`: the content of the file, where it can be read. Lines end at line breaks.
unfoldable pub load_dotenv : Option Str → Environment → Environment
unfolding load_lines split
load_dotenv none env = env
load_dotenv (some content) env = load_lines (split content 10) env

-- The integers, over the numbers used here.
pub data ℤ : Type 0 where
  pos : ℕ → ℤ
  negsuc : ℕ → ℤ

-- `std::stoll`: spaces, a sign, digits; what follows them is passed over. `none` stands for its two
-- exceptions, no digit and out of range.
abbrev leading_digits : ℕ → Bool → Str → Option ℕ
leading_digits value seen [] = if seen then some value else none
leading_digits value seen (c ∷ s) =
    let more = leading_digits (value * 10 + (c - 48)) true s in
    if leb 48 c && leb c 57 then more else if seen then some value else none

abbrev in_range : Bool → Option ℕ → Option ℤ
in_range negative none = none
in_range false (some n) = if ltb n 9223372036854775808 then some (pos n) else none
in_range true (some zero) = some (pos 0)
in_range true (some (suc n)) = if ltb n 9223372036854775808 then some (negsuc n) else none

abbrev signed : Str → Option ℤ
signed [] = none
signed (c ∷ s) =
    if c == b'-'
    then in_range true (leading_digits 0 false s)
    else if c == b'+'
    then in_range false (leading_digits 0 false s)
    else in_range false (leading_digits 0 false (c ∷ s))

unfoldable pub stoll : Str → Option ℤ
unfolding trim_left is_space
stoll s = signed (trim_left s)

-- `std::stoi`: the same for an `int`.
abbrev narrowed : Option ℤ → Option ℤ
narrowed none = none
narrowed (some (pos n)) = if ltb n 2147483648 then some (pos n) else none
narrowed (some (negsuc n)) = if ltb n 2147483648 then some (negsuc n) else none

unfoldable pub stoi : Str → Option ℤ
unfolding stoll
stoi s = narrowed (stoll s)

abbrev pub env_or : Str → Str → Environment → Str
unfolding getenv
env_or name fallback env = elim (getenv name env) [ none ↦ fallback | some value ↦ value ]

abbrev or_fallback : ℤ → Option ℤ → ℤ
or_fallback fallback none = fallback
or_fallback fallback (some n) = n

unfoldable pub env_i64 : Str → ℤ → Environment → ℤ
unfolding getenv stoll
env_i64 name fallback env = elim (getenv name env) [
  | none ↦ fallback
  | some value ↦ if is_empty value then fallback else or_fallback fallback (stoll value)
]

unfoldable pub env_bool : Str → Bool → Environment → Bool
unfolding getenv to_lower str_eq
env_bool name fallback env = elim (getenv name env) [
  | none ↦ fallback
  | some value ↦ str_eq (to_lower value) (bytes "1") || str_eq (to_lower value) (bytes "true")
]

-- `static_cast` to an unsigned type of modulus `m`.
abbrev pub to_unsigned : (m : ℕ) → ℤ → ℕ
to_unsigned m (pos n) = n % m
to_unsigned m (negsuc n) = m - 1 - n % m

abbrev pub word : ℕ
word = 18446744073709551616

-- `path / name` for a relative name, as a text.
abbrev pub joined : Str → Str → Str
joined path name = if is_empty path || last_is b'/' path then path ++ name else path ++ b'/' ∷ name

-- What `main` reads before it starts to listen. `trusted_proxies` is a set in the source.
pub record Settings : Type 0 where
  pub database_url : Str
  pub workspaces_dir : Str
  pub fonts_dir : Str
  pub port : ℕ
  pub web_root : Str
  pub migrations_dir : Str
  pub cookie_secure : Bool
  pub session_secret : Str
  pub trusted_proxies : List Str
  pub workspace_quota_bytes : ℕ
  pub thread_num : ℕ
  pub client_max_body_size : ℕ

unfoldable pub proxies : Str → List Str
unfolding trim split
proxies entries = keep_if (λ (p : Str). not (is_empty p)) (map trim (split entries b','))

-- `std::max<int64_t>(50 MB, n + 1 MB)`; the sum does not overflow below the largest number.
abbrev pub body_limit : ℤ → ℕ
body_limit (pos n) = if ltb 52428800 (n + 1048576) then n + 1048576 else 52428800
body_limit (negsuc n) = 52428800

-- `static_cast<size_t>(...)` of MAX_WORK_FILE_BYTES, in src/workspace.cpp.
abbrev pub work_file_limit : Environment → ℕ
unfolding env_i64
work_file_limit env = to_unsigned word (env_i64 (bytes "MAX_WORK_FILE_BYTES") (pos 33554432) env)

abbrev pub session_secret_of : Environment → Str
unfolding env_or
session_secret_of env = env_or (bytes "SESSION_SECRET") [] env

abbrev pub settings_of : Environment → Settings
unfolding env_or env_i64 env_bool proxies session_secret_of
settings_of env =
    let data_dir = env_or (bytes "DATA_DIR") (bytes "data") env in
    record {
      database_url =
          env_or (bytes "DATABASE_URL")
            (bytes "sqlite://" ++ joined data_dir (bytes "officesuite.db")) env;
      workspaces_dir = env_or (bytes "WORKSPACES_DIR") (joined data_dir (bytes "workspaces")) env;
      fonts_dir = env_or (bytes "FONTS_DIR") (joined data_dir (bytes "fonts")) env;
      port = to_unsigned 65536 (env_i64 (bytes "PORT") (pos 8080) env);
      web_root = env_or (bytes "WEB_DIR") (bytes "web") env;
      migrations_dir = env_or (bytes "MIGRATIONS_DIR") (bytes "migrations") env;
      cookie_secure = env_bool (bytes "COOKIE_SECURE") false env;
      session_secret = session_secret_of env;
      trusted_proxies = proxies (env_or (bytes "TRUSTED_PROXIES") [] env);
      workspace_quota_bytes =
          to_unsigned word (env_i64 (bytes "WORKSPACE_QUOTA_BYTES") (pos 268435456) env);
      thread_num = to_unsigned word (env_i64 (bytes "THREADS") (pos 8) env);
      client_max_body_size = body_limit (env_i64 (bytes "MAX_WORK_FILE_BYTES") (pos 33554432) env);
    }

-- The settings of `main`; `none` where it ends at once.
unfoldable pub read_settings : Environment → Option Settings
unfolding settings_of session_secret_of
read_settings env =
    let secret = session_secret_of env in
    if not (is_empty secret) && ltb (length secret) 64 then none else some (settings_of env)

-- `fInstallStaticCachePolicy`: the header of a response outside /api; `none` leaves it as it is.
unfoldable pub cache_control : (path : Str) → Option Str
unfolding starts_with ends_with str_eq find
cache_control path =
    if starts_with path (bytes "/api")
    then none
    else if str_eq path (bytes "/")
        || (ends_with path (bytes ".html") || not (any (λ c. c == b'.') path))
    then some (bytes "no-cache")
    else some (bytes "public, max-age=3600, must-revalidate")

abbrev token_of : Option Str → Option Str
token_of none = none
token_of (some []) = none
token_of (some (c ∷ token)) = some (c ∷ token)

-- `Releases::fFromEnv` and `fMaxAssetBytes` of src/downloads.cpp.
unfoldable pub releases_from_env : Environment → Releases
unfolding env_or getenv
releases_from_env env = record {
  repo = env_or (bytes "DESKTOP_RELEASES_REPO") (bytes "Decumano/OfficeSuite") env;
  token = token_of (getenv (bytes "GITHUB_RELEASES_TOKEN") env);
  cache = none;
  cached_at = 0;
}

unfoldable pub max_asset_bytes : Environment → ℕ
unfolding env_i64
max_asset_bytes env = to_unsigned word (env_i64 (bytes "DOWNLOAD_MAX_BYTES") (pos 268435456) env)
