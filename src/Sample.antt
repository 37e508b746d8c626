-- ===== src/Sample.antt =====
-- A small server for the tests: two users, a session, a share and a link.
use lectern_server.Prelude.{String, true, none, some, [], ◌∷◌, Str, bytes, str_eq}
use lectern_server.Hub.{empty_hub}
use lectern_server.Files.{Files, file, dir}
use lectern_server.Database.{Database}
use lectern_server.World.{Env, World, Method, Request, to_hex}

abbrev pub sample_env : Env
sample_env = record {
  session_secret = bytes "k";
  cookie_secure = true;
  trusted_proxies = [];
  workspace_quota_bytes = 100;
  max_work_file_bytes = 50;
  sha256 = λ s. s;
  hmac_sha256 = λ k m. m;
  hash_password = λ p. some p;
  verify_password = λ p phc. str_eq p phc;
  parse_json = λ s. none;
  dump_json = λ j. some [];
  base64 = to_hex;
  now_ms = 5000;
  clock = 7;
  random = λ n count. 171 ∷ n ∷ [];
}

abbrev pub sample_db : Database
sample_db = record {
  users =
      record {
        id = bytes "a";
        email = bytes "a@x.y";
        password_hash = bytes "p";
        created_at = 1;
        api_token = bytes "t";
      }
      ∷ record {
        id = bytes "b";
        email = bytes "b@x.y";
        password_hash = bytes "q";
        created_at = 1;
        api_token = bytes "r";
      }
      ∷ [];
  sessions = record { id = bytes "0"; user_id = bytes "a"; expires_at = 9 } ∷ [];
  shares =
      record {
        id = bytes "h";
        owner_id = bytes "a";
        grantee_id = bytes "b";
        rel_path = bytes "d";
        is_dir = true;
        permission = bytes "edit";
        created_at = 1;
      }
      ∷ [];
  share_links =
      record {
        id = bytes "l";
        owner_id = bytes "a";
        rel_path = bytes "d";
        is_dir = true;
        permission = bytes "comment";
        created_at = 1;
      }
      ∷ [];
  comments = [];
  custom_fonts =
      record {
        id = bytes "f";
        owner_id = bytes "a";
        family_name = bytes "Old";
        filename = bytes "o.ttf";
        content_type = bytes "font/ttf";
        byte_size = 6;
        created_at = 1;
      }
      ∷ [];
  deleted_files = record { user_id = bytes "a"; rel_path = bytes "d/x.mdp"; deleted_at = 1 } ∷ [];
}

abbrev pub sample_files : Files
sample_files =
    (bytes "a" ∷ [], dir)
    ∷ (bytes "a" ∷ bytes "d" ∷ [], dir)
    ∷ (bytes "a" ∷ bytes "d" ∷ bytes "x.mdp" ∷ [], file (bytes "hi") 0)
    ∷ (bytes "b" ∷ [], dir)
    ∷ []

abbrev sample_fonts : Files
sample_fonts =
    (bytes "a" ∷ [], dir) ∷ (bytes "a" ∷ bytes "f.ttf" ∷ [], file (bytes "glyphs") 0) ∷ []

abbrev pub sample_world : World
sample_world = record {
  db = sample_db;
  files = sample_files;
  font_files = sample_fonts;
  limiter = [];
  hub = empty_hub;
  effects = [];
}

-- A PUT of user "a", by token.
abbrev sample_header : String → Str
sample_header name = bytes "Bearer t"

abbrev pub sample_put : Request
sample_put = record {
  method = Method.put;
  header = sample_header;
  cookie = λ name. [];
  parameter = λ name. bytes "d/x.mdp";
  body = bytes "new";
  peer = bytes "1";
}

-- A request with the cookie of the session "0" and its signature.
abbrev pub sample_visit : Request
sample_visit = record {
  method = Method.get;
  header = λ name. [];
  cookie = λ name. bytes "0.30";
  parameter = λ name. [];
  body = [];
  peer = bytes "1";
}
