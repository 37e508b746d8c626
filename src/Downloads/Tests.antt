-- ===== src/Downloads/Tests.antt =====
-- Tests of src/downloads.cpp with a GitHub that answers everything with the same release.
use lectern_server.Prelude.{
  ℕ, ◌≡◌, ◌≤◌, ◌+◌, refl, arith, false, true, not, none, some, Option, List, [], ◌∷◌, ◌++◌, map,
  Str, bytes, length, is_empty, any,
}
use lectern_server.Error.{Result}
use lectern_server.Json
use lectern_server.Json.{Json, object, end}
use lectern_server.World.{Response, typed_body}
use lectern_server.Downloads
use lectern_server.Downloads.{
  Releases, Github, Answer, cache_ttl, cached, latest_handler, asset_handler, is_digit,
  github_headers, is_success,
}
use lectern_server.Downloads.Cache.{Ask, ask_all, latest_handler-IsServed}
use lectern_server.Downloads.Assets.{breaks_header, asset_handler-IsContained}

abbrev github : Github
github url headers = record { status_code = 200; content = url }

abbrev broken : Github
broken url headers = record { status_code = 0; content = [] }

abbrev parse : Str → Option Json
parse s = some (object end)

abbrev releases : Releases
releases = record { repo = bytes "o/r"; token = none; cache = none; cached_at = 0 }

abbrev fetched : Result Response × Releases
fetched = latest_handler parse github 5 7 releases

abbrev asks : List Ask
asks = record { parse_json = parse; github = broken; now = 100; later = 101 } ∷ []

latest_handler-IsServed_example :
    (ask_all asks fetched.1 ≡ (map (λ (a : Ask). fetched.0) asks, fetched.1))
    × ((late : ℕ) → 7 + cache_ttl ≤ late → cached fetched.1 late ≡ none)
unfolding latest_handler Downloads.fetched_view Downloads.release_view Json.find_field
latest_handler-IsServed_example =
    latest_handler-IsServed parse github 5 7 releases refl refl asks (omega arith, tt)

asset_handler-IsContained_example :
    (is_empty (bytes "42") ≡ false)
    × (any (λ c. not (is_digit c)) (bytes "42") ≡ false)
    × ((answer : Answer) × (answer
          ≡ github
              (bytes "https://api.github.com/repos/"
                ++ (bytes "o/r" ++ (bytes "/releases/assets/" ++ bytes "42")))
              (github_headers releases (bytes "application/octet-stream")))
        × (is_success answer.status_code ≡ true)
        × (length answer.content ≤ 100)
        × (typed_body
              (bytes "application/octet-stream")
              (bytes "https://api.github.com/repos/o/r/releases/assets/42")
            ≡ typed_body (bytes "application/octet-stream") answer.content))
    × ((shown : Str) × (◌≡◌ {A = Downloads.Headers}
          ((
            "Content-Disposition",
            bytes "attachment; filename=" ++ (34 ∷ (bytes "setup.exe" ++ 34 ∷ [])),
          )
            ∷ [])
          (("Content-Disposition", bytes "attachment; filename=" ++ (34 ∷ (shown ++ 34 ∷ [])))
            ∷ []))
        × (any breaks_header shown ≡ false))
unfolding asset_handler Downloads.safe_attachment_name
asset_handler-IsContained_example =
    asset_handler-IsContained 100 github releases (bytes "42") (bytes "se\"tup.exe") refl
