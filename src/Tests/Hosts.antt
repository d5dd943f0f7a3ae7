-- ===== src/Tests/Hosts.antt =====
-- The theorems about enrollment and the agent, on concrete tokens, managers and sessions.
use moebius.Prelude.{
  All, leb, ℕ, ◌+◌, ◌≤◌, ◌≡◌, refl, ◌↔◌, ◌⊎◌, true, false, none, some, [], ◌∷◌, find, delete,
  select, contains, leb,
}
use moebius.Auth.Enrollment.{EnrollmentToken, validate_and_consume, peek}
use moebius.Auth.Enrollment.Single.{reaping, run-consumed, Distinct as EnrollmentDistinct}
use moebius.Auth.Enrollment.Single as Single
use moebius.Agent.Cdm.{State, Manager, Host, persist, write_audit, grant_session, can_execute_job}
use moebius.Agent.Cdm.Expiry.{
  Operation, enabling, granting, asking, is_consistent, run-consistent, can_execute_job-exact,
  grant_session-window, disable-allows, revoke_session-stops,
}
use moebius.Agent.Cdm.Expiry as Expiry
use moebius.Agent.Sessions.{session_cli, session_web, Session, has_token, create, validate, cleanup}
use moebius.Agent.Sessions.Lifetime.{
  Distinct, is_live, creating, validate-lifetime, validate-cleanup, validate-create,
  validate-revoke,
}
use moebius.Agent.Sessions.Lifetime as Lifetime

abbrev host_at : ℕ → Host
host_at now = record { now = now; persist_fails = false; audit_fails = false }

abbrev enabled_state : State
enabled_state = record {
  enabled = true;
  session_active = false;
  session_expires_at = none;
  session_granted_by = "";
  session_granted_at = none;
}

abbrev manager : Manager
manager = record { state = enabled_state; saved = some enabled_state; audit_log = some [] }

run-consistent_example :
    is_consistent
      (Expiry.run ((host_at 5, granting "op" 10) ∷ (host_at 30, asking) ∷ []) manager).state
    ≡ true
run-consistent_example =
    run-consistent ((host_at 5, granting "op" 10) ∷ (host_at 30, asking) ∷ []) manager refl

can_execute_job-exact_example :
    ((can_execute_job (host_at 5) manager).0 ≡ true)
    ↔ ((true ≡ false) ⊎ ((false ≡ true) × ((t : ℕ) × (none ≡ some t) × (5 ≤ t))))
can_execute_job-exact_example = can_execute_job-exact (host_at 5) manager refl

granted : (grant_session (host_at 5) "op" 10 manager).0 ≡ true
unfolding grant_session persist write_audit
granted = refl

grant_session-window_example :
    (can_execute_job (host_at 16) (grant_session (host_at 5) "op" 10 manager).1).0 ≡ leb 16 15
grant_session-window_example = grant_session-window (host_at 5) (host_at 16) "op" 10 manager granted

abbrev web_session : Session
web_session = record {
  token = "tok";
  username = "root";
  kind = session_web;
  created_at = 5;
  last_used = 5;
  expires_at = 28800000000005;
}

web_validates :
    (validate 7 "tok" (Lifetime.run ((5, creating (some "tok") "root" session_web) ∷ []) [])).0
    ≡ some (record web_session { last_used = 7 })
unfolding Lifetime.run Lifetime.operate create validate find delete select
web_validates = refl

validate-lifetime_example :
    (old : Session) × (find
        (has_token "tok")
        (Lifetime.run ((5, creating (some "tok") "root" session_web) ∷ []) [])
      ≡ some old)
    × (((old.kind ≡ session_web)
          × (7 ≤ old.created_at + 28800000000000)
          × (7 ≤ old.last_used + 1800000000000))
        ⊎ ((old.kind ≡ session_cli) × (7 ≤ old.last_used + 900000000000)))
validate-lifetime_example =
    validate-lifetime ((5, creating (some "tok") "root" session_web) ∷ []) 7 "tok"
      (record web_session { last_used = 7 }) web_validates

one_session : Distinct (web_session ∷ [])
unfolding contains
one_session = (refl, tt)

validate-cleanup_example :
    ((validate 7 "tok" (cleanup 7 (web_session ∷ []))).0 ≡ (validate 7 "tok" (web_session ∷ [])).0)
    × All (λ s. is_live 7 s ≡ true) (cleanup 7 (web_session ∷ []))
validate-cleanup_example = validate-cleanup 7 "tok" (web_session ∷ []) one_session

abbrev invitation : EnrollmentToken
invitation = record {
  id = "etk_a";
  tenant_id = "ten_a";
  token_hash = "hash_a";
  created_by = "usr_a";
  scope = none;
  used_at = none;
  expires_at = 100;
  created_at = 5;
}

one_invitation : EnrollmentDistinct (invitation ∷ [])
unfolding contains
one_invitation = (refl, tt)

invitation_consumed :
    (validate_and_consume false 7 "hash_a" (invitation ∷ [])).0
    ≡ some (record invitation { used_at = some 7 })
unfolding validate_and_consume find
invitation_consumed = refl

run-consumed_example :
    ((validate_and_consume false 9 "hash_a" (
        Single.run
          ((false, 200, reaping) ∷ [])
          (validate_and_consume false 7 "hash_a" (invitation ∷ [])).1)).0
      ≡ none)
    × (peek false 9 "hash_a" (
          Single.run
            ((false, 200, reaping) ∷ [])
            (validate_and_consume false 7 "hash_a" (invitation ∷ [])).1)
        ≡ none)
run-consumed_example =
    run-consumed 7 9 "hash_a" false ((false, 200, reaping) ∷ []) (invitation ∷ [])
      (record invitation { used_at = some 7 }) one_invitation invitation_consumed
