-- ===== src/Downloads/Assets.antt =====
-- What a visitor of /api/downloads/asset/{id}/{name} of src/downloads.cpp can make the server ask for
-- and answer.
use lectern_server.Prelude.{
  ℕ, ◌≤◌, ◌≡◌, refl, sym, ap, Bool, true, false, not, ◌||◌, Bool-cases, inl, inr, [], ◌∷◌, ◌++◌,
  arith, ltb, leb, ◌==◌, Str, bytes, length, is_empty, any,
}
use lectern_server.Error.{AppError, Result, ok, err}
use lectern_server.World.{Response, typed_body}
use lectern_server.Util.{is_alnum}
use lectern_server.Downloads.{
  Releases, Github, Answer, asset_handler, is_asset_id, is_digit, asset_url, github_headers,
  passed_on, attachment, safe_attachment_name, is_success,
}

-- A quote, a backslash or a control character, which could end a quoted header value or its line.
abbrev pub breaks_header : ℕ → Bool
breaks_header c = c == 34 || (c == 92 || (leb c 31 || c == 127))

safe_attachment_name-breaks : (name : Str) → any breaks_header (safe_attachment_name name) ≡ false
unfolding safe_attachment_name is_alnum
safe_attachment_name-breaks [] = refl
safe_attachment_name-breaks (c ∷ name) = ground (arith, safe_attachment_name-breaks name)

passed_on-ok :
    (max_asset_bytes : ℕ) (name : Str) (answer : Answer) {r : Response}
    → passed_on max_asset_bytes name answer ≡ ok r
    → (is_success answer.status_code ≡ true)
      × (length answer.content ≤ max_asset_bytes)
      × (r ≡ attachment name answer.content)
unfolding passed_on
passed_on-ok max_asset_bytes name answer {r = r} e =
    elim (Bool-cases (is_success answer.status_code)) [
      | inl good ↦ elim (Bool-cases (ltb max_asset_bytes (length answer.content))) [
        | inl large ↦ absurd (off (rw (good, large) at e))
        | inr small ↦
            let same : ◌≡◌ {A = Result Response} (ok (attachment name answer.content)) (ok r) =
              rw (good, small) at e in
            (
              good,
              omega (arith, over small),
              (let s : attachment name answer.content ≡ r = cc in sym s),
            )
      ]
      | inr bad ↦ absurd (off (rw bad at e))
    ]
  where
    off : {x : AppError} → ◌≡◌ {A = Result Response} (err x) (ok r) → ⊥
    off k = cc

    over :
        ltb max_asset_bytes (length answer.content) ≡ false
        → length answer.content ≤ max_asset_bytes
    over h = ground arith

-- A download that succeeds names its asset by at least one digit and digits only. The answer is the
-- body of what GitHub answered, with success, to the asset's URL, and is no longer than the limit.
-- Its one header gives the file name in quotes, and between them stands nothing that ends the
-- quotes or the header's line.
pub asset_handler-IsContained :
    (max_asset_bytes : ℕ) (github : Github) (releases : Releases) (asset_id name : Str)
    {r : Response}
    → asset_handler max_asset_bytes github releases asset_id name ≡ ok r
    → (is_empty asset_id ≡ false)
      × (any (λ c. not (is_digit c)) asset_id ≡ false)
      × ((answer : Answer) × (answer
            ≡ github
                (bytes "https://api.github.com/repos/"
                  ++ (releases.repo ++ (bytes "/releases/assets/" ++ asset_id)))
                (github_headers releases (bytes "application/octet-stream")))
          × (is_success answer.status_code ≡ true)
          × (length answer.content ≤ max_asset_bytes)
          × (r.content ≡ typed_body (bytes "application/octet-stream") answer.content))
      × ((shown : Str) × (r.headers
            ≡ ("Content-Disposition", bytes "attachment; filename=" ++ (34 ∷ (shown ++ 34 ∷ [])))
              ∷ [])
          × (any breaks_header shown ≡ false))
unfolding asset_handler asset_url is_asset_id
asset_handler-IsContained max_asset_bytes github releases asset_id name {r = r} e =
    elim (Bool-cases (is_asset_id asset_id)) [
      | inl good ↦
          let (ok_status, small, is) = passed_on-ok max_asset_bytes name answer (rw good at e) in
          (
            ground arith,
            ground arith,
            (answer, refl, ok_status, small, ap (λ (x : Response). x.content) is),
            (
              safe_attachment_name name,
              ap (λ (x : Response). x.headers) is,
              safe_attachment_name-breaks name,
            ),
          )
      | inr bad ↦ absurd (off (rw bad at e))
    ]
  where
    answer : Answer
    answer =
        github (asset_url releases asset_id)
          (github_headers releases (bytes "application/octet-stream"))

    off : {x : AppError} → ◌≡◌ {A = Result Response} (err x) (ok r) → ⊥
    off k = cc
