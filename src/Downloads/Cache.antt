-- ===== src/Downloads/Cache.antt =====
-- How long the listing of src/downloads.cpp is served from memory.
use lectern_server.Prelude.{
  ℕ, ◌+◌, ◌-◌, ◌≤◌, ◌<◌, ◌≡◌, refl, sym, ap, ◌∙◌, Bool-cases, inl, inr, Option, none, some, List,
  [], ◌∷◌, map, arith, leb, Str, All,
}
use lectern_server.Error.{Result, ok, err}
use lectern_server.Json.{Json}
use lectern_server.World.{Response, json_response}
use lectern_server.Downloads.{
  Releases, Github, cache_ttl, fresh_cache, cached, store, stored, latest, latest_handler,
}

-- One request for the listing, with what GitHub would answer it.
pub record Ask : Type 0 where
  pub parse_json : Str → Option Json
  pub github : Github
  pub now : ℕ
  pub later : ℕ

unfoldable pub ask_all : List Ask → Releases → List (Result Response) × Releases
unfolding latest_handler
ask_all [] releases = ([], releases)
ask_all (a ∷ asks) releases =
    let (answer, after) = latest_handler a.parse_json a.github a.now a.later releases in
    let (answers, last) = ask_all asks after in (answer ∷ answers, last)

cached-fresh :
    (releases : Releases) (view : Json) (now : ℕ)
    → releases.cache ≡ some view
    → now < releases.cached_at + cache_ttl
    → cached releases now ≡ some view
unfolding cached
cached-fresh releases view now e h = elim (Bool-cases (leb cache_ttl (now - releases.cached_at))) [
  | inl old ↦ absurd (ground arith)
  | inr new ↦
      ap (λ o. fresh_cache o (leb cache_ttl (now - releases.cached_at))) e
      ∙ ap (fresh_cache (some view)) new
]

ask_all-fresh :
    (asks : List Ask) (releases : Releases) (view : Json)
    → releases.cache ≡ some view
    → All (λ (a : Ask). a.now < releases.cached_at + cache_ttl) asks
    → ask_all asks releases ≡ (map (λ (a : Ask). ok (json_response view)) asks, releases)
unfolding ask_all latest_handler
ask_all-fresh [] releases view e h = refl
ask_all-fresh (a ∷ asks) releases view e (h, k) =
    rw (cached-fresh releases view a.now e h)
      (ap (λ x. (ok (json_response view) ∷ x.0, x.1)) (ask_all-fresh asks releases view e k))

stored-ok :
    (releases : Releases) (later : ℕ) (fetched : Result Json) {r : Response} {releases' : Releases}
    → stored releases later fetched ≡ (ok r, releases')
    → (view : Json) × (fetched ≡ ok view)
      × (r ≡ json_response view)
      × (releases' ≡ store view later releases)
unfolding stored
stored-ok releases later (ok view) {r = r} e =
    let same : ◌≡◌ {A = Result Response} (ok (json_response view)) (ok r) = ap (λ x. x.0) e in
    (view, refl, (let s : json_response view ≡ r = cc in sym s), sym (ap (λ x. x.1) e))
stored-ok releases later (err x) e = cc

-- A listing that was just fetched from GitHub answers every request of the next 300 seconds, however
-- many come and whatever GitHub would say to them, and the state stays as it is; 300 seconds after
-- it was stored it is no longer served from memory.
pub latest_handler-IsServed :
    (parse_json : Str → Option Json) (github : Github) (now later : ℕ) (releases : Releases)
    {r : Response} {releases' : Releases}
    → cached releases now ≡ none
    → latest_handler parse_json github now later releases ≡ (ok r, releases')
    → (asks : List Ask) → All (λ (a : Ask). a.now < later + cache_ttl) asks
    → (ask_all asks releases' ≡ (map (λ (a : Ask). ok r) asks, releases'))
      × ((late : ℕ) → later + cache_ttl ≤ late → cached releases' late ≡ none)
unfolding latest_handler
latest_handler-IsServed parse_json github now later releases {r = r} {releases' = releases'} miss e
      asks soon =
    let (view, fetched, answer, left) =
      stored-ok releases later _ (ap (latest parse_json github later releases) (sym miss) ∙ e) in
    (
      rw (left, answer) (ask_all-fresh asks (store view later releases) view refl soon),
      λ late old. rw left (gone view late old),
    )
  where
    gone :
        (view : Json) (late : ℕ)
        → later + cache_ttl ≤ late
        → cached (store view later releases) late ≡ none
    gone view late old = ground arith
