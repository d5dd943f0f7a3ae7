-- ===== src/Store/Devices.antt =====
-- RevokeDevice of server/store/devices.go, and the rollback endpoint of
-- server/api/device_rollback.go.
pub mod Effects
pub mod Revoked
use moebius.Prelude.{
  ℕ, String, Bool, true, false, not, ◌&&◌, ◌||◌, ◌==◌, is_none, Option, none, some, List, [], ◌∷◌,
  find, is_some, update, if◌then◌else◌,
}
use moebius.Models.Job.{Job, agent_rollback, pending, queued, dispatched, cancelled, eq_status}
use moebius.Models.Device.{Device, AgentCertificate, revoked, text}
use moebius.Database.{
  Db, Env, begin_tx, commit_tx, revoke_device, update_certificates, cancel_jobs, select_device,
  insert_job, insert_job_row, log_action,
}
use moebius.Api.Respond.{Response, reply, error_status}
use moebius.Api.Jobs.{Caller, Body, retried, new_job}

-- status IN ('pending','queued','dispatched')
abbrev pub is_withdrawn : String → String → Job → Bool
is_withdrawn tenant device j =
    j.device_id == device
    && j.tenant_id == tenant
    && (eq_status j.status pending || eq_status j.status queued || eq_status j.status dispatched)

abbrev pub withdraw_row : Job → Job
withdraw_row j = record j { status = cancelled }

abbrev pub is_device : String → String → Device → Bool
is_device tenant device d = d.id == device && d.tenant_id == tenant

-- The transaction's statements, once the device is known to be there.
unfoldable pub revoked_db : Env → (tenant device reason : String) → Db → Db
unfolding update
revoked_db env tenant device reason db = record db {
  devices =
      update (is_device tenant device) (λ (d : Device). record d { status = revoked }) db.devices;
  certificates =
      update (λ (c : AgentCertificate). c.device_id == device && is_none c.revoked_at)
        (λ (c : AgentCertificate). record c {
          revoked_at = some env.now;
          revocation_reason = some reason;
        })
        db.certificates;
  jobs = update (is_withdrawn tenant device) withdraw_row db.jobs;
}

-- Whether it succeeds, and the database; a transaction that fails is rolled back.
unfoldable pub store_revoke_device : Env → (tenant device reason : String) → Db → Bool × Db
unfolding find
store_revoke_device env tenant device reason db =
    if env.fault begin_tx || env.fault revoke_device
    then (false, db)
    else if not (is_some (find (is_device tenant device) db.devices))
    then (false, db)
    else if env.fault update_certificates || env.fault cancel_jobs || env.fault commit_tx
    then (false, db)
    else (true, revoked_db env tenant device reason db)

-- The row of an agent_rollback job; encoding the reason is encoding/json's, a parameter.
unfoldable pub rollback_row : (String → String) → Caller → Env → String → String → Job
unfolding new_job
rollback_row encode caller env device reason =
    new_job env (insert_job 0) caller.tenant_id device agent_rollback (encode reason) none
      (some caller.user_id)

-- The rollback endpoint from the insert on.
unfoldable pub insert_rollback :
    (String → String) → Caller → Env → String → String → Db → Response Body × Db
unfolding error_status
insert_rollback encode caller env device reason db =
    elim (insert_job_row env (insert_job 0) (rollback_row encode caller env device reason) db) [
      | none ↦ (error_status 500, db)
      | some db' ↦ (
        reply 201 (retried (env.fresh (insert_job 0))),
        log_action env caller.tenant_id caller.user_id "user" "device.rollback" "device" device
            (text "job_id" (env.fresh (insert_job 0)) ∷ text "reason" reason ∷ []) db',
      )
    ]

-- POST /v1/devices/{device_id}/rollback; `none` is a body that does not decode.
unfoldable pub rollback :
    (String → String) → Caller → Env → String → Option String → Db → Response Body × Db
unfolding error_status find
rollback encode caller env device none db = (error_status 400, db)
rollback encode caller env device (some reason) db =
    if env.fault (select_device device)
    then (error_status 500, db)
    else if not (is_some (find (is_device caller.tenant_id device) db.devices))
    then (error_status 404, db)
    else insert_rollback encode caller env device reason db
