-- ===== src/Settings/Tests.antt =====
-- Tests of the settings.
use lectern_server.Prelude.{◌≡◌, refl, some, [], ◌∷◌, ◌++◌, bytes, str_eq}
use lectern_server.Util
use lectern_server.Settings
use lectern_server.Settings.{
  Environment, getenv, load_dotenv, read_settings, env_i64, pos, negsuc, ℤ,
}
use lectern_server.Settings.Dotenv.{is_name, line_of, load_dotenv-reads}

abbrev environment : Environment
environment = (bytes "PORT", bytes " -12x") ∷ []

env_i64_runs : env_i64 (bytes "PORT") (pos 8080) environment ≡ negsuc 11
unfolding env_i64 getenv Settings.stoll str_eq Util.trim_left Util.is_space
env_i64_runs = refl

load_dotenv-reads_example :
    getenv (bytes "DATA_DIR") (
      load_dotenv
        (some (line_of (bytes "DATA_DIR") (bytes "# a=b ") ++ 10 ∷ bytes "PORT=1"))
        environment)
    ≡ some (bytes "# a=b ")
unfolding getenv str_eq is_name Util.is_space Settings.c_str
load_dotenv-reads_example =
    load_dotenv-reads (bytes "DATA_DIR") (bytes "# a=b ") (bytes "PORT=1") environment refl refl
