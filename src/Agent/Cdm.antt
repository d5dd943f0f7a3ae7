-- ===== src/Agent/Cdm.antt =====
-- agent/cdm/cdm.go: the state of Customer Device Mode on an agent. Each operation is one critical
-- section of the manager's lock; the clock and the failures of the disk are arguments.
pub mod Expiry
use moebius.Prelude.{
  ℕ, ◌+◌, String, Bool, true, false, not, ◌&&◌, ◌||◌, Option, none, some, List, [], ◌∷◌, ◌++◌, ltb,
  if◌then◌else◌,
}

pub record State : Type 0 where
  pub enabled : Bool
  pub session_active : Bool
  pub session_expires_at : Option ℕ
  pub session_granted_by : String
  pub session_granted_at : Option ℕ

-- cdm.AuditEntry of agent/cdm/audit.go.
pub record AuditEntry : Type 0 where
  pub timestamp : ℕ
  pub action : String
  pub actor : String
  pub old_state : String
  pub new_state : String
  pub duration : Option ℕ
  pub expires_at : Option ℕ
  pub job_id : String
  pub job_type : String

-- `saved` is what the last successful write left in the state file; `audit_log` is none for a nil
-- log.
pub record Manager : Type 0 where
  pub state : State
  pub saved : Option State
  pub audit_log : Option (List AuditEntry)

-- What an operation finds: the clock, whether writing the state file fails, and whether appending
-- to the audit log does.
pub record Host : Type 0 where
  pub now : ℕ
  pub persist_fails : Bool
  pub audit_fails : Bool

-- persistLocked: whether it succeeds, and the manager.
unfoldable pub persist : Host → Manager → Bool × Manager
persist host m =
    if host.persist_fails then (false, m) else (true, record m { saved = some m.state })

abbrev append_entry : Option (List AuditEntry) → AuditEntry → Option (List AuditEntry)
append_entry none e = none
append_entry (some es) e = some (es ++ e ∷ [])

-- AuditLog.Write
unfoldable pub write_audit : Host → AuditEntry → Manager → Manager
write_audit host e m =
    if host.audit_fails
    then m
    else record m { audit_log = append_entry m.audit_log (record e { timestamp = host.now }) }

abbrev entry : (action actor : String) → AuditEntry
entry action actor = record {
  timestamp = 0;
  action = action;
  actor = actor;
  old_state = "";
  new_state = "";
  duration = none;
  expires_at = none;
  job_id = "";
  job_type = "";
}

-- AuditLog.LogJobExecution
unfoldable pub log_job_execution : Host → (job_id job_type actor : String) → Manager → Manager
unfolding write_audit
log_job_execution host job_id job_type actor m =
    write_audit host
      (record (entry "cdm.job.executed" actor) { job_id = job_id; job_type = job_type }) m

abbrev pub end_session : State → State
end_session s = record s {
  session_active = false;
  session_expires_at = none;
  session_granted_by = "";
  session_granted_at = none;
}

abbrev is_past : ℕ → Option ℕ → Bool
is_past now none = false
is_past now (some t) = ltb t now

-- checkExpiryLocked
unfoldable pub check_expiry : Host → Manager → Manager
unfolding persist write_audit
check_expiry host m =
    if m.state.session_active && is_past host.now m.state.session_expires_at
    then write_audit host (entry "cdm.session.expired" m.state.session_granted_by)
        (persist host (record m { state = end_session m.state })).1
    else m

abbrev disabled : State
disabled = record {
  enabled = false;
  session_active = false;
  session_expires_at = none;
  session_granted_by = "";
  session_granted_at = none;
}

abbrev or_disabled : Option State → State
or_disabled none = disabled
or_disabled (some s) = s

-- New on a state file that is absent or decodes; another file is an error.
unfoldable pub new : Host → Option State → Option (List AuditEntry) → Manager
unfolding check_expiry
new host file audit_log =
    check_expiry host (record { state = or_disabled file; saved = file; audit_log = audit_log })

abbrev state_label : Bool → Bool → String
state_label false session_active = "disabled"
state_label true true = "enabled+session"
state_label true false = "enabled"

-- Enable: whether it returns no error, and the manager; a failed write is taken back.
unfoldable pub enable : Host → String → Manager → Bool × Manager
unfolding persist write_audit
enable host actor m =
    let (ok, m') = persist host (record m { state = record m.state { enabled = true } }) in
    if not ok
    then (false, m)
    else if not m.state.enabled
    then (
      true,
      write_audit host
          (record (entry "cdm.enable" actor) { old_state = "disabled"; new_state = "enabled" }) m',
    )
    else (true, m')

-- Disable: a failed write is not taken back.
unfoldable pub disable : Host → String → Manager → Bool × Manager
unfolding persist write_audit
disable host actor m =
    let (ok, m') =
      persist host (record m { state = record (end_session m.state) { enabled = false } }) in
    if not ok
    then (false, m')
    else if m.state.enabled
    then (
      true,
      write_audit host
          (record (entry "cdm.disable" actor) {
            old_state = state_label m.state.enabled m.state.session_active;
            new_state = "disabled";
          })
          m',
    )
    else (true, m')

-- GrantSession, for a duration that is not negative: a failed write is not taken back.
unfoldable pub grant_session : Host → String → ℕ → Manager → Bool × Manager
unfolding persist write_audit
grant_session host actor duration m =
    if not m.state.enabled
    then (false, m)
    else let expires = host.now + duration in
      let (ok, m') = persist host (record m {
        state = record m.state {
          session_active = true;
          session_expires_at = some expires;
          session_granted_by = actor;
          session_granted_at = some host.now;
        };
      }) in
      if not ok then (false, m') else (
        true,
        write_audit host
            (record (entry "cdm.session.grant" actor) {
              duration = some duration;
              expires_at = some expires;
            })
            m',
      )

-- RevokeSession
unfoldable pub revoke_session : Host → String → Manager → Bool × Manager
unfolding persist write_audit
revoke_session host actor m =
    if not m.state.session_active
    then (false, m)
    else let (ok, m') = persist host (record m { state = end_session m.state }) in
      if not ok then (false, m') else (true, write_audit host (entry "cdm.session.revoke" actor) m')

-- SessionActive
unfoldable pub session_active : Host → Manager → Bool × Manager
unfolding check_expiry
session_active host m = let m' = check_expiry host m in (m'.state.session_active, m')

-- Snapshot
unfoldable pub snapshot : Host → Manager → State × Manager
unfolding check_expiry
snapshot host m = let m' = check_expiry host m in (m'.state, m')

-- CanExecuteJob
unfoldable pub can_execute_job : Host → Manager → Bool × Manager
unfolding check_expiry
can_execute_job host m =
    let m' = check_expiry host m in
    if not m'.state.enabled then (true, m') else (m'.state.session_active, m')
