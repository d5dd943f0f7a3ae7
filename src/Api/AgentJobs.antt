-- ===== src/Api/AgentJobs.antt =====
-- server/api/agent_jobs.go: the endpoints that an agent calls for its jobs. Decoding an
-- inventory is encoding/json's, a parameter.
pub mod Effects
pub mod Acceptance
use moebius.Prelude.{
  ℕ, suc, ◌+◌, String, Bool, true, false, not, ◌&&◌, ◌||◌, ◌==◌, Option, none, some, List, [], ◌∷◌,
  ◌++◌, find, update, if◌then◌else◌,
}
use moebius.Prelude.Int.{ℤ}
use moebius.Models.Job.{
  Job, JobResult, JobStatus, JobType, inventory_full, acknowledged, running, completed, failed,
  timed_out, eq_status,
}
use moebius.Models.Device.{text}
use moebius.Models.Inventory.{FullInventory}
use moebius.Jobs.State.{TransitionError, validate_transition}
use moebius.Jobs.Kinds.{should_retry}
use moebius.Database.{
  Db, Env, select_job, update_job, insert_result, parent_job, insert_job, insert_job_row,
  log_action,
}
use moebius.Api.Respond.{Response, reply, error, error_status}
use moebius.Api.JobControl.{retry_job}
use moebius.Api.Inventory.{process_full_inventory}

-- The identity that the mTLS middleware attaches to a request.
pub record Agent : Type 0 where
  pub agent_id : String
  pub tenant_id : String

-- The body of POST …/result.
pub record JobResultSubmission : Type 0 where
  pub status : String
  pub exit_code : Option ℤ
  pub stdout : String
  pub stderr : String
  pub message : String
  pub started_at : Option ℕ
  pub completed_at : Option ℕ

-- WHERE id = $1 AND device_id = $2 AND tenant_id = $3
abbrev pub is_agents_job : String → Agent → Job → Bool
is_agents_job id agent j =
    j.id == id && j.device_id == agent.agent_id && j.tenant_id == agent.tenant_id

abbrev pub acknowledge_row : ℕ → Job → Job
acknowledge_row now j = record j { status = acknowledged; acknowledged_at = some now }

-- POST /v1/agents/jobs/{job_id}/acknowledge
unfoldable pub acknowledge : Agent → Env → String → Db → Response (Unit {0}) × Db
unfolding error_status find update
acknowledge agent env id db =
    if env.fault select_job
    then (error_status 500, db)
    else elim (find (is_agents_job id agent) db.jobs) [
      | none ↦ (error_status 404, db)
      | some j ↦ elim (validate_transition j.status acknowledged) [
        | some e ↦ (error 409 "invalid_transition", db)
        | none ↦ if env.fault update_job then (error_status 500, db) else (
          reply 204 tt,
          log_action env agent.tenant_id agent.agent_id "agent" "job.acknowledge" "job" id []
              (record db { jobs = update (λ r. r.id == id) (acknowledge_row env.now) db.jobs }),
        )
      ]
    ]

-- The switch on the submitted status; `none` is its default.
unfoldable pub target_status : String → Option JobStatus
target_status s =
    if s == "completed"
    then some completed
    else if s == "failed"
    then some failed
    else if s == "timed_out"
    then some timed_out
    else none

abbrev pub coalesce : Option ℕ → Option ℕ → Option ℕ
coalesce none b = b
coalesce (some a) b = some a

abbrev pub finish_row : ℕ → JobStatus → JobResultSubmission → Job → Job
finish_row now target req j = record j {
  status = target;
  completed_at = some now;
  last_error = some req.message;
  started_at = coalesce j.started_at req.started_at;
}

-- The insert of createRetryJob; an error is only logged.
unfoldable pub insert_child : Env → Job → Db → Db
insert_child env row db = elim (insert_job_row env (insert_job 0) row db) [
  | none ↦ db
  | some db' ↦ db'
]

-- createRetryJob: payload, policy and creator are read from the parent.
unfoldable pub create_retry_job : Agent → Env → String → JobType → ℕ → ℤ → Db → Db
create_retry_job agent env parent kind retry_count max_retries db =
    if env.fault parent_job then db else elim (find (λ (r : Job). r.id == parent) db.jobs) [
      | none ↦ db
      | some p ↦
          insert_child env
            (retry_job env (insert_job 0) agent.tenant_id parent retry_count
              (record p { device_id = agent.agent_id; kind = kind; max_retries = max_retries }))
            db
    ]

-- A job that is acknowledged counts as running, in memory only.
unfoldable pub effective_status : JobStatus → JobStatus
effective_status acknowledged = running
effective_status s = s

abbrev is_inventory_full : JobType → Bool
is_inventory_full inventory_full = true
is_inventory_full _ = false

unfoldable pub result_row : Env → String → JobResultSubmission → JobResult
result_row env id req = record {
  id = env.fresh insert_result;
  job_id = id;
  exit_code = req.exit_code;
  stdout = req.stdout;
  stderr = req.stderr;
  started_at = req.started_at;
  completed_at = req.completed_at;
}

abbrev process_parsed : Env → String → Option FullInventory → Db → Db
process_parsed env device none db = db
process_parsed env device (some inv) db = process_full_inventory env device inv db

module _ (parse_inventory : String → Option FullInventory) where
  -- SubmitResult after the job's row is updated: inventory, audit, retry.
  unfoldable pub settle : Agent → Env → String → Job → JobStatus → JobResultSubmission → Db → Db
  settle agent env id j target req db =
      let stocked =
        if is_inventory_full j.kind && eq_status target completed
        then process_parsed env agent.agent_id (parse_inventory req.stdout) db
        else db in
      let logged =
        log_action env agent.tenant_id agent.agent_id "agent" "job.result" "job" id
          (text "status" req.status ∷ []) stocked in
      if should_retry target j.retry_count j.max_retries
      then create_retry_job agent env id j.kind (j.retry_count + 1) j.max_retries logged
      else logged

  -- SubmitResult from the storing of the result on.
  unfoldable pub store_result :
      Agent → Env → String → Job → JobStatus → JobResultSubmission → Db → Response (Unit {0}) × Db
  unfolding error_status
  store_result agent env id j target req db =
      if env.fault insert_result
      then (error_status 500, db)
      else let stored = record db { job_results = db.job_results ++ result_row env id req ∷ [] } in
        if env.fault update_job then (error_status 500, stored) else (
          reply 204 tt,
          settle agent env id j target req (record stored {
            jobs = update (λ r. r.id == id) (finish_row env.now target req) db.jobs;
          }),
        )

  -- POST /v1/agents/jobs/{job_id}/result; `none` is a body that does not decode.
  unfoldable pub submit_result :
      Agent → Env → String → Option JobResultSubmission → Db → Response (Unit {0}) × Db
  unfolding error_status find
  submit_result agent env id none db = (error_status 400, db)
  submit_result agent env id (some req) db = elim (target_status req.status) [
    | none ↦ (error_status 400, db)
    | some target ↦
        if env.fault select_job
        then (error_status 500, db)
        else elim (find (is_agents_job id agent) db.jobs) [
          | none ↦ (error_status 404, db)
          | some j ↦ elim (validate_transition (effective_status j.status) target) [
            | some e ↦ (error 409 "invalid_transition", db)
            | none ↦ store_result agent env id j target req db
          ]
        ]
  ]
