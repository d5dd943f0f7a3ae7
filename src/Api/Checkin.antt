-- ===== src/Api/Checkin.antt =====
-- server/api/checkin.go: POST /v1/agents/checkin.
pub mod Effects
pub mod Marking
pub mod Dispatch
pub mod Answer
pub mod Gate
use moebius.Prelude.{
  ℕ, suc, ◌+◌, ◌*◌, String, Bool, true, false, not, ◌&&◌, ◌||◌, ◌==◌, Option, none, some, List, [],
  ◌∷◌, ◌++◌, select, update, order_by, take, ltb, leb, if◌then◌else◌,
}
use moebius.Models.Job.{Job, JobType, queued, cdm_hold, dispatched, failed, eq_status, second}
use moebius.Models.Device.{Device, online, text}
use moebius.Models.Inventory.{PackageDelta}
use moebius.Database.{
  Db, Env, update_device, mark_failed, requeue, hold, release, fetch, dispatch_job, log_action,
}
use moebius.Api.Respond.{Response, reply, error_status}
use moebius.Api.Inventory.{process_package_delta}
use moebius.Api.AgentJobs.{Agent}

-- protocol.AgentStatus, less the uptime.
pub record AgentStatus : Type 0 where
  pub cdm_enabled : Bool
  pub cdm_session_active : Bool
  pub cdm_session_expires_at : Option ℕ
  pub agent_version : String
  pub last_update_failed : Bool
  pub last_update_job_id : String
  pub last_update_error : String

-- protocol.CheckinRequest: `packages` is InventoryDelta.Packages where both pointers are set.
pub record CheckinRequest : Type 0 where
  pub sequence : ℕ
  pub status : AgentStatus
  pub packages : Option PackageDelta

-- protocol.JobDispatch
pub record JobDispatch : Type 0 where
  pub job_id : String
  pub kind : JobType
  pub payload : String
  pub created_at : ℕ

pub record CheckinResponse : Type 0 where
  pub timestamp : ℕ
  pub jobs : List JobDispatch

abbrev seen_row : ℕ → CheckinRequest → Device → Device
seen_row now req d = record d {
  last_seen_at = some now;
  status = online;
  agent_version = req.status.agent_version;
  cdm_enabled = req.status.cdm_enabled;
  cdm_session_active = req.status.cdm_session_active;
  cdm_session_expires_at = req.status.cdm_session_expires_at;
  sequence_last = req.sequence;
}

unfoldable pub touch_device : Env → Agent → CheckinRequest → Db → Db
unfolding update
touch_device env agent req db = record db {
  devices =
      update (λ (d : Device). d.id == agent.agent_id && d.tenant_id == agent.tenant_id)
        (seen_row env.now req) db.devices;
}

-- WHERE id AND tenant_id AND status != 'failed': the device is not asked for.
abbrev pub is_reported : Agent → String → Job → Bool
is_reported agent id j =
    j.id == id && j.tenant_id == agent.tenant_id && not (eq_status j.status failed)

abbrev pub fail_row : ℕ → String → Job → Job
fail_row now err j = record j { status = failed; last_error = some err; completed_at = some now }

unfoldable pub report_failed_update : Env → Agent → AgentStatus → Db → Db
unfolding update
report_failed_update env agent st db =
    if st.last_update_failed && not (st.last_update_job_id == "")
    then if env.fault mark_failed
      then db
      else log_action env agent.tenant_id agent.agent_id "agent" "agent_update.rollback" "job"
          st.last_update_job_id (text "error" st.last_update_error ∷ [])
          (record db {
            jobs =
                update (is_reported agent st.last_update_job_id)
                  (fail_row env.now st.last_update_error) db.jobs;
          })
    else db

unfoldable pub apply_delta : Env → Agent → Option PackageDelta → Db → Db
apply_delta env agent none db = db
apply_delta env agent (some delta) db = record db {
  packages = process_package_delta env agent.agent_id delta db.packages;
}

-- WHERE device_id AND tenant_id AND status
abbrev pub is_device_job : Agent → Job → Bool
is_device_job agent j = j.device_id == agent.agent_id && j.tenant_id == agent.tenant_id

-- dispatched_at < now - 60 s; a null is not selected.
abbrev pub sent_before : Option ℕ → ℕ → ℕ → Bool
sent_before none age now = false
sent_before (some t) age now = ltb (t + age) now

abbrev pub requeue_row : Job → Job
requeue_row j = record j { status = queued; dispatched_at = none }

unfoldable pub requeue_stale : Env → Agent → Db → Db
unfolding update
requeue_stale env agent db = if env.fault requeue then db else record db {
  jobs =
      update
        (λ (j : Job).
          is_device_job agent j
          && eq_status j.status dispatched
          && sent_before j.dispatched_at (60 * second) env.now)
        requeue_row db.jobs;
}

abbrev pub hold_row : Job → Job
hold_row j = record j { status = cdm_hold }

abbrev pub release_row : Job → Job
release_row j = record j { status = queued }

-- UPDATE … SET status WHERE the job is the agent's and has the other status
unfoldable pub hold_all : Agent → Db → Db
unfolding update
hold_all agent db = record db {
  jobs = update (λ (j : Job). is_device_job agent j && eq_status j.status queued) hold_row db.jobs;
}

unfoldable pub release_all : Env → Agent → Db → Db
unfolding update
release_all env agent db = if env.fault release then db else record db {
  jobs =
      update (λ (j : Job). is_device_job agent j && eq_status j.status cdm_hold) release_row
        db.jobs;
}

abbrev pub older : Job → Job → Bool
older i j = leb i.created_at j.created_at

abbrev pub is_ready : Agent → Job → Bool
is_ready agent j = is_device_job agent j && eq_status j.status queued

-- ORDER BY created_at ASC LIMIT 10; `none` is the error.
unfoldable pub fetch_queued : Env → Agent → Db → Option (List Job)
unfolding select order_by
fetch_queued env agent db =
    if env.fault fetch
    then none
    else some (take 10 (order_by older (select (is_ready agent) db.jobs)))

-- fetchDispatchableJobs
unfoldable pub fetch_dispatchable_jobs :
    Env → Agent → (cdm_enabled cdm_session_active : Bool) → Db → Option (List Job) × Db
fetch_dispatchable_jobs env agent cdm_enabled cdm_session_active db =
    if cdm_enabled && not cdm_session_active
    then (if env.fault hold then (none, db) else (some [], hold_all agent db))
    else let db' = if cdm_enabled && cdm_session_active then release_all env agent db else db in
      (fetch_queued env agent db', db')

abbrev pub dispatch_row : ℕ → Job → Job
dispatch_row now j = record j { status = dispatched; dispatched_at = some now }

abbrev pub dispatch_of : Job → JobDispatch
dispatch_of j = record {
  job_id = j.id;
  kind = j.kind;
  payload = j.payload;
  created_at = j.created_at;
}

-- The loop that marks the fetched jobs; one that cannot be marked is skipped.
unfoldable pub mark_dispatched :
    Env → List Job → List JobDispatch → List Job → List JobDispatch × List Job
unfolding update
mark_dispatched env [] sent table = (sent, table)
mark_dispatched env (j ∷ js) sent table =
    if env.fault (dispatch_job j.id)
    then mark_dispatched env js sent table
    else mark_dispatched env js (sent ++ dispatch_of j ∷ [])
        (update (λ r. r.id == j.id) (dispatch_row env.now) table)

-- The check-in from the update of the device on.
unfoldable pub checkin_touched : Env → Agent → CheckinRequest → Db → Db
unfolding touch_device report_failed_update apply_delta requeue_stale
checkin_touched env agent req db = requeue_stale env agent (
    apply_delta env agent req.packages
      (report_failed_update env agent req.status (touch_device env agent req db)))

unfoldable pub send_jobs : Env → Agent → AgentStatus → Db → Response CheckinResponse × Db
unfolding error_status
send_jobs env agent st db =
    let (found, db') = fetch_dispatchable_jobs env agent st.cdm_enabled st.cdm_session_active db in
    elim found [
      | none ↦ (error_status 500, db')
      | some js ↦
          let (sent, table) = mark_dispatched env js [] db'.jobs in
          (reply 200 (record { timestamp = env.now; jobs = sent }), record db' { jobs = table })
    ]

-- `none` is a body that does not decode.
unfoldable pub checkin : Env → Agent → Option CheckinRequest → Db → Response CheckinResponse × Db
unfolding error_status
checkin env agent none db =
    if agent.agent_id == "" || agent.tenant_id == ""
    then (error_status 401, db)
    else (error_status 400, db)
checkin env agent (some req) db =
    if agent.agent_id == "" || agent.tenant_id == ""
    then (error_status 401, db)
    else if env.fault update_device
    then (error_status 500, db)
    else send_jobs env agent req.status (checkin_touched env agent req db)
