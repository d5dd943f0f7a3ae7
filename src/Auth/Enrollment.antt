-- ===== src/Auth/Enrollment.antt =====
-- server/auth/enrollment.go, and the reaper of tokens of server/scheduler/scheduler.go. The hash is
-- crypto/sha256's and the token is drawn by crypto/rand: both are arguments. A scope is kept
-- decoded.
pub mod Single
use moebius.Prelude.{
  ℕ, ◌+◌, ◌*◌, String, Bool, true, false, not, ◌&&◌, ◌||◌, ◌==◌, eqb, is_none, ltb, Option, none,
  some, List, [], ◌∷◌, ◌++◌, find, update, delete, contains, map, if◌then◌else◌,
}
use moebius.Models.Job.{second}
use moebius.Models.Access.{ApiScope}

pub record EnrollmentToken : Type 0 where
  pub id : String
  pub tenant_id : String
  pub token_hash : String
  pub created_by : String
  pub scope : Option ApiScope
  pub used_at : Option ℕ
  pub expires_at : ℕ
  pub created_at : ℕ

abbrev default_token_expiry : ℕ
default_token_expiry = 24 * (3600 * second)

-- CreateToken, once a token is drawn: the token and the table, or the error of the insert, which
-- the unique hash may cause.
unfoldable pub create_token :
    (fault : Bool) (now : ℕ) (hash id tenant created_by : String)
    → Option ApiScope
    → ℕ
    → List EnrollmentToken
    → Option EnrollmentToken × List EnrollmentToken
create_token fault now hash id tenant created_by scope expiry tokens =
    let token : EnrollmentToken = record {
      id = id;
      tenant_id = tenant;
      token_hash = hash;
      created_by = created_by;
      scope = scope;
      used_at = none;
      expires_at = now + (if eqb expiry 0 then default_token_expiry else expiry);
      created_at = now;
    } in
    if fault || contains hash (map (λ (t : EnrollmentToken). t.token_hash) tokens)
    then (none, tokens)
    else (some token, tokens ++ token ∷ [])

-- WHERE token_hash AND used_at IS NULL AND expires_at > now
abbrev pub is_valid : ℕ → String → EnrollmentToken → Bool
is_valid now hash t = t.token_hash == hash && is_none t.used_at && ltb now t.expires_at

-- Peek; `none` is the error.
unfoldable pub peek :
    (fault : Bool) (now : ℕ) (hash : String) → List EnrollmentToken → Option EnrollmentToken
unfolding find
peek fault now hash tokens = if fault then none else find (is_valid now hash) tokens

abbrev pub use_token : ℕ → EnrollmentToken → EnrollmentToken
use_token now t = record t { used_at = some now }

abbrev returned : ℕ → Option EnrollmentToken → Option EnrollmentToken
returned now none = none
returned now (some t) = some (use_token now t)

-- ValidateAndConsume: UPDATE … RETURNING, the first row that is updated.
unfoldable pub validate_and_consume :
    (fault : Bool) (now : ℕ) (hash : String)
    → List EnrollmentToken
    → Option EnrollmentToken × List EnrollmentToken
unfolding find update
validate_and_consume fault now hash tokens = if fault then (none, tokens) else (
  returned now (find (is_valid now hash) tokens),
  update (is_valid now hash) (use_token now) tokens,
)

-- reapExpiredEnrollmentTokens
unfoldable pub reap_expired_enrollment_tokens :
    (fault : Bool) (now : ℕ) → List EnrollmentToken → List EnrollmentToken
unfolding delete
reap_expired_enrollment_tokens fault now tokens =
    if fault
    then tokens
    else delete (λ (t : EnrollmentToken). is_none t.used_at && ltb t.expires_at now) tokens
