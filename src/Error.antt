-- ===== src/Error.antt =====
-- src/error.h: the errors that a handler throws, and what the client sees of them.
use lectern_server.Prelude.{ℕ, String, ◌≡◌, refl}

-- One constructor for each factory of `AppError`.
pub data AppError : Type 0 where
  bad_request conflict internal : String → AppError
  unauthorized forbidden not_found too_many_requests : AppError
  -- Any other `std::exception`; `fGuard` of src/http.h answers it as an internal error.
  exception : AppError

unfoldable pub status : AppError → ℕ
status (bad_request m) = 400
status unauthorized = 401
status forbidden = 403
status not_found = 404
status (conflict m) = 409
status too_many_requests = 429
status (internal m) = 500
status exception = 500

unfoldable pub message : AppError → String
message (bad_request m) = m
message unauthorized = "unauthorized"
message forbidden = "you don't have permission to do that"
message not_found = "not found"
message (conflict m) = m
message too_many_requests = "too many attempts, try again later"
message (internal m) = m
message exception = "internal server error"

-- What a function that may throw returns.
pub data Result (A : Type 0) : Type 0 where
  ok : A → Result A
  err : AppError → Result A

infixl 5 ◌>>=◌
abbrev pub ◌>>=◌ : {A B : Type 0} → Result A → (A → Result B) → Result B
err thrown >>= next = err thrown
ok value >>= next = next value

-- The value that a chain without a throw passed on.
pub >>=-eq-ok :
    {A B : Type 0} (r : Result A) (next : A → Result B) {last : B}
    → (r >>= next) ≡ ok last
    → (value : A) × (r ≡ ok value) × (next value ≡ ok last)
>>=-eq-ok (err thrown) next e = cc
>>=-eq-ok (ok value) next e = (value, refl, e)
