-- ===== src/Api/Respond.antt =====
-- server/api/respond.go: a response is a status with a body, or a status with an error code.
use moebius.Prelude.{ℕ, String, eqb, if◌then◌else◌}

pub data Response (A : Type 0) : Type 0 where
  reply : ℕ → A → Response A
  error : ℕ → String → Response A

unfoldable pub http_code_to_error_code : ℕ → String
http_code_to_error_code status =
    if eqb status 400
    then "bad_request"
    else if eqb status 401
    then "unauthorized"
    else if eqb status 403
    then "forbidden"
    else if eqb status 404
    then "not_found"
    else if eqb status 405
    then "method_not_allowed"
    else if eqb status 409
    then "conflict"
    else if eqb status 429
    then "rate_limited"
    else "internal_error"

-- Error(w, status, …), whose code follows from the status.
unfoldable pub error_status : {A : Type 0} → ℕ → Response A
unfolding http_code_to_error_code
error_status status = error status (http_code_to_error_code status)
