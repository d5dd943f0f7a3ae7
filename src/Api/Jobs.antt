-- ===== src/Api/Jobs.antt =====
-- server/api/jobs.go: creating jobs. Messages of errors are left out, codes are kept. The
-- handlers are built with an audit logger, so `h.audit != nil` holds.
pub mod Effects
pub mod Guards
pub mod Limits
use moebius.Prelude.{
  ℕ, suc, ◌+◌, String, Bool, true, false, not, ◌&&◌, ◌||◌, ◌==◌, Option, none, some, List, [], ◌∷◌,
  ◌++◌, contains, select, find, update, order_by, take, leb, length, if◌then◌else◌,
}
use moebius.Prelude.Int.{ℤ, pos}
use moebius.Models.Job.{
  Job, JobResult, JobStatus, JobType, JobTarget, RetryPolicy, queued, cancelled, eq_status,
  is_terminal_status, type_text,
}
use moebius.Models.Access.{ApiScope}
use moebius.Models.Device.{text, number}
use moebius.Jobs.State.{is_cancellable, is_retryable}
use moebius.Jobs.Kinds.{validate_type, default_retry_policy}
use moebius.Database.{
  Db, Env, Call, select_job, update_job, insert_job, select_result, insert_job_row, log_action,
}
use moebius.Auth.Scope.{resolve_scope, device_in_scope, filter_device_ids, non_empty}
use moebius.Quota.{Defaults, Verdict, allowed, exceeded, failure, check_queued_jobs}
use moebius.Api.Respond.{Response, reply, error, error_status}
use moebius.Api.Targets.{resolve_targets}

-- The identity that the authentication middleware attaches to a request.
pub record Caller : Type 0 where
  pub tenant_id : String
  pub user_id : String
  pub is_admin : Bool
  pub scope : Option ApiScope

pub record CreateRequest : Type 0 where
  pub kind : JobType
  pub target : JobTarget
  pub payload : String
  pub retry_policy : Option RetryPolicy

pub data Body : Type 0 where
  created : (job_ids : List String) (target_device_count : ℕ) → Body
  job : Job → Option JobResult → Body
  retried : String → Body
  no_content : Body

-- The devices that are left after scope enforcement, or the response that refuses the request.
pub data Scoped : Type 0 where
  within : List String → Scoped
  refused : Response Body → Scoped

refuse_empty : List String → Scoped
refuse_empty [] = refused (error 403 "scope_violation")
refuse_empty (d ∷ ds) = within (d ∷ ds)

unfoldable pub enforce_scope : Caller → Env → Db → List String → Scoped
unfolding refuse_empty error_status
enforce_scope caller env db devices =
    if caller.is_admin then within devices else elim caller.scope [
      | none ↦ within devices
      | some scope ↦ elim (resolve_scope env db caller.tenant_id (some scope)) [
        | none ↦ refused (error_status 500)
        | some allowed_set ↦ refuse_empty (filter_device_ids allowed_set devices)
      ]
    ]

abbrev policy_retries : Option RetryPolicy → ℤ
policy_retries none = pos 0
policy_retries (some p) = p.max_retries

-- The row that Create inserts for one device; the columns it does not name are null or 0.
unfoldable pub new_job :
    Env
    → Call
    → (tenant device : String) → JobType
    → String
    → Option RetryPolicy
    → Option String
    → Job
new_job env call tenant device kind payload policy created_by = record {
  id = env.fresh call;
  tenant_id = tenant;
  device_id = device;
  parent_job_id = none;
  kind = kind;
  status = queued;
  payload = payload;
  retry_policy = policy;
  retry_count = 0;
  max_retries = policy_retries policy;
  last_error = none;
  created_by = created_by;
  created_at = env.now;
  dispatched_at = none;
  acknowledged_at = none;
  started_at = none;
  completed_at = none;
}

-- The loop of inserts: the new ids if every insert succeeds, and the database in any case.
unfoldable pub insert_jobs :
    Env
    → (ℕ → Call)
    → (ℕ → String → Job)
    → ℕ
    → List String
    → List String
    → Db
    → Option (List String) × Db
insert_jobs env call row k [] job_ids db = (some job_ids, db)
insert_jobs env call row k (device ∷ devices) job_ids db =
    elim (insert_job_row env (call k) (row k device) db) [
      | none ↦ (none, db)
      | some db' ↦ insert_jobs env call row (suc k) devices (job_ids ++ (row k device).id ∷ []) db'
    ]

abbrev first_id : List String → String
first_id [] = ""
first_id (id ∷ ids) = id

abbrev or_default : Option RetryPolicy → JobType → Option RetryPolicy
or_default none kind = default_retry_policy kind
or_default (some p) kind = some p

-- The row of the k-th device, with the default retry policy where the request has none.
unfoldable pub create_row : Caller → Env → CreateRequest → ℕ → String → Job
unfolding new_job default_retry_policy
create_row caller env req k device =
    new_job env (insert_job k) caller.tenant_id device req.kind req.payload
      (or_default req.retry_policy req.kind) (some caller.user_id)

-- Create from the retry policy on: the inserts, the audit entry and the response.
unfoldable pub create_batch : Caller → Env → CreateRequest → List String → Db → Response Body × Db
unfolding error_status
create_batch caller env req devices db =
    let (inserted, db') = insert_jobs env insert_job (create_row caller env req) 0 devices [] db in
    elim inserted [
      | none ↦ (error_status 500, db')
      | some job_ids ↦ (
        reply 201 (created job_ids (length devices)),
        log_action env caller.tenant_id caller.user_id "user" "job.create" "job" (first_id job_ids)
            (text "type" (type_text req.kind) ∷ number "device_count" (length devices) ∷ []) db',
      )
    ]

-- Create, once the targets are resolved and in scope.
unfoldable pub create_within :
    Option Defaults → Caller → Env → CreateRequest → List String → Db → Response Body × Db
unfolding error_status
create_within quota caller env req devices db =
    elim (check_queued_jobs quota env db caller.tenant_id (length devices)) [
      | allowed ↦ create_batch caller env req devices db
      | exceeded kind limit current attempted ↦ (error 409 "quota_exceeded", db)
      | failure ↦ (error_status 500, db)
    ]

-- Create on a decoded body.
unfoldable pub create_decoded :
    Option Defaults → Caller → Env → CreateRequest → Db → Response Body × Db
unfolding error_status
create_decoded quota caller env req db =
    if not (validate_type req.kind)
    then (error 400 "invalid_job_type", db)
    else if req.payload == ""
    then (error_status 400, db)
    else elim (resolve_targets env db caller.tenant_id req.target) [
      | none ↦ (error_status 500, db)
      | some devices ↦
          if not (non_empty devices)
          then (error 400 "no_targets", db)
          else elim (enforce_scope caller env db devices) [
            | refused response ↦ (response, db)
            | within scoped ↦ create_within quota caller env req scoped db
          ]
    ]

-- POST /v1/jobs; `none` is a body that does not decode.
unfoldable pub create :
    Option Defaults → Caller → Env → Option CreateRequest → Db → Response Body × Db
unfolding error_status
create quota caller env none db = (error_status 400, db)
create quota caller env (some req) db = create_decoded quota caller env req db
