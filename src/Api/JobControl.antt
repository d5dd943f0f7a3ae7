-- ===== src/Api/JobControl.antt =====
-- server/api/jobs.go: reading, cancelling and retrying one job.
use moebius.Prelude.{
  ℕ, ◌+◌, String, Bool, true, not, ◌&&◌, ◌==◌, Option, none, some, [], ◌∷◌, find, update, is_none,
  ◌||◌, if◌then◌else◌,
}
use moebius.Models.Job.{Job, JobResult, queued, cancelled, is_terminal_status}
use moebius.Models.Device.{text}
use moebius.Jobs.State.{is_cancellable, is_retryable}
use moebius.Database.{
  Db, Env, Call, select_job, update_job, insert_job, select_result, insert_job_row, log_action,
}
use moebius.Auth.Scope.{resolve_scope, device_in_scope}
use moebius.Quota.{Defaults, allowed, exceeded, failure, check_queued_jobs}
use moebius.Api.Respond.{Response, reply, error, error_status}
use moebius.Api.Jobs.{Caller, Body, job, no_content, retried}

-- WHERE id = $1 AND tenant_id = $2
abbrev pub is_job : String → String → Job → Bool
is_job job_id tenant j = j.id == job_id && j.tenant_id == tenant

-- The scope check of Get, Cancel and Retry lets the request pass: the caller is an admin, or the
-- device is in the scope, or ResolveScope reports an error, on which the handlers go on.
unfoldable pub passes_scope : Caller → Env → Db → String → Bool
unfolding device_in_scope
passes_scope caller env db device =
    if caller.is_admin then true else elim (resolve_scope env db caller.tenant_id caller.scope) [
      | none ↦ true
      | some allowed_set ↦ device_in_scope allowed_set device
    ]

-- GET /v1/jobs/{job_id}; a NULL does not scan into the Go strings of LastError and CreatedBy.
unfoldable pub get : Caller → Env → String → Db → Response Body
unfolding error_status find
get caller env id db =
    if env.fault select_job
    then error_status 500
    else elim (find (is_job id caller.tenant_id) db.jobs) [
      | none ↦ error_status 404
      | some j ↦
          if is_none j.last_error || is_none j.created_by
          then error_status 500
          else if not (passes_scope caller env db j.device_id)
          then error_status 404
          else if is_terminal_status j.status && not (env.fault select_result)
          then reply 200 (job j (find (λ (r : JobResult). r.job_id == j.id) db.job_results))
          else reply 200 (job j none)
    ]

-- UPDATE jobs SET status = 'cancelled', completed_at = now
abbrev pub cancel_row : ℕ → Job → Job
cancel_row now j = record j { status = cancelled; completed_at = some now }

-- POST /v1/jobs/{job_id}/cancel
unfoldable pub cancel : Caller → Env → String → Db → Response Body × Db
unfolding error_status find update
cancel caller env id db =
    if env.fault select_job
    then (error_status 500, db)
    else elim (find (is_job id caller.tenant_id) db.jobs) [
      | none ↦ (error_status 404, db)
      | some j ↦
          if not (passes_scope caller env db j.device_id)
          then (error 403 "scope_violation", db)
          else if not (is_cancellable j.status)
          then (error 409 "not_cancellable", db)
          else if env.fault update_job
          then (error_status 500, db)
          else (
            reply 204 no_content,
            log_action env caller.tenant_id caller.user_id "user" "job.cancel" "job" id []
                (record db { jobs = update (λ r. r.id == id) (cancel_row env.now) db.jobs }),
          )
    ]

-- The row that a retry inserts for the job it repeats.
unfoldable pub retry_job : Env → Call → (tenant parent : String) → ℕ → Job → Job
retry_job env call tenant parent retry_count j = record {
  id = env.fresh call;
  tenant_id = tenant;
  device_id = j.device_id;
  parent_job_id = some parent;
  kind = j.kind;
  status = queued;
  payload = j.payload;
  retry_policy = j.retry_policy;
  retry_count = retry_count;
  max_retries = j.max_retries;
  last_error = none;
  created_by = j.created_by;
  created_at = env.now;
  dispatched_at = none;
  acknowledged_at = none;
  started_at = none;
  completed_at = none;
}

-- Retry from the insert on.
unfoldable pub insert_retry : Caller → Env → String → Job → Db → Response Body × Db
unfolding error_status
insert_retry caller env id j db =
    let row = retry_job env (insert_job 0) caller.tenant_id id (j.retry_count + 1) j in
    elim (insert_job_row env (insert_job 0) row db) [
      | none ↦ (error_status 500, db)
      | some db' ↦ (
        reply 201 (retried row.id),
        log_action env caller.tenant_id caller.user_id "user" "job.retry" "job" row.id
            (text "parent_job_id" id ∷ []) db',
      )
    ]

-- POST /v1/jobs/{job_id}/retry
unfoldable pub retry : Option Defaults → Caller → Env → String → Db → Response Body × Db
unfolding error_status find
retry quota caller env id db =
    if env.fault select_job
    then (error_status 500, db)
    else elim (find (is_job id caller.tenant_id) db.jobs) [
      | none ↦ (error_status 404, db)
      | some j ↦
          if not (passes_scope caller env db j.device_id)
          then (error 403 "scope_violation", db)
          else if not (is_retryable j.status)
          then (error 409 "not_retryable", db)
          else elim (check_queued_jobs quota env db caller.tenant_id 1) [
            | allowed ↦ insert_retry caller env id j db
            | exceeded kind limit current attempted ↦ (error 409 "quota_exceeded", db)
            | failure ↦ (error_status 500, db)
          ]
    ]
