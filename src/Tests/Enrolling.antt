-- ===== src/Tests/Enrolling.antt =====
-- The theorem about enrollment, on an agent that joins a group.
use moebius.Prelude.{◌≡◌, refl, false, none, some, [], ◌∷◌, find, update, contains}
use moebius.Quota.{check_devices}
use moebius.Auth.Enrollment.{EnrollmentToken, is_valid, use_token, validate_and_consume}
use moebius.Auth.Identity.{Certificate, admitted, authenticate_agent}
use moebius.Api.Respond.{reply}
use moebius.Api.Enroll.{
  EnrollRequest, EnrollResponse, Signed, Authority, Enrolling, enroll, enroll_with, create_device,
  device_accepted, apply_scope, insert_memberships, insert_membership,
}
use moebius.Api.Enroll.Certified.{enroll-authenticate_agent}
use moebius.Tests.{env_at, db_a, group_scope}

abbrev token_a : EnrollmentToken
token_a = record {
  id = "tok_a";
  tenant_id = "ten_a";
  token_hash = "secret";
  created_by = "usr_a";
  scope = some (record group_scope { device_ids = [] });
  used_at = none;
  expires_at = 100;
  created_at = 1;
}

abbrev signed : Signed
signed = record { certificate = "pem"; serial = "2a" }

abbrev authority : Authority
authority = record { hash_token = λ t. t; sign_csr = λ csr id. some signed }

abbrev request : EnrollRequest
request = record {
  enrollment_token = "secret";
  csr = "csr";
  hostname = "beta";
  agent_version = "1.0";
}

abbrev before : Enrolling
before = record { db = db_a; tokens = token_a ∷ [] }

abbrev response : EnrollResponse
response = record { agent_id = "id_new"; certificate = "pem"; poll_interval_seconds = 30 }

abbrev issued : Certificate
issued = record { common_name = "id_new"; not_before = 10; not_after = 1000; serial = "2a" }

enrolls : (enroll none authority false (env_at 20) (some request) before).0 ≡ reply 200 response
unfolding enroll validate_and_consume find update enroll_with check_devices create_device
    device_accepted contains apply_scope insert_memberships insert_membership
enrolls = refl

enroll-authenticate_agent_example :
    (token : EnrollmentToken) × (find (is_valid 20 "secret") before.tokens ≡ some token)
    × ((enroll none authority false (env_at 20) (some request) before).1.tokens
        ≡ update (is_valid 20 "secret") (use_token 20) before.tokens)
    × (authenticate_agent
          (env_at 30)
          (some issued)
          (enroll none authority false (env_at 20) (some request) before).1.db
        ≡ admitted (record { agent_id = "id_new"; tenant_id = token.tenant_id }))
enroll-authenticate_agent_example =
    enroll-authenticate_agent none authority false (env_at 20) (env_at 30) request signed before
      response issued tt enrolls refl refl refl refl refl refl
