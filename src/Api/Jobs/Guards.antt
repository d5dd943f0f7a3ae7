-- ===== src/Api/Jobs/Guards.antt =====
-- When the /v1/jobs endpoints of server/api/jobs.go act, and what a refusal leaves.
use moebius.Prelude.{
  ℕ, String, ◌≡◌, ◌↔◌, ◌⊎◌, refl, Bool, true, false, ◌&&◌, ◌==◌, Option, none, some, List, arith,
  find, update, ltb, leb, contains,
}
use moebius.Models.Job.{Job}
use moebius.Jobs.State.{is_cancellable}
use moebius.Database.{Db, Env, select_job, update_job, jobs-log_action}
use moebius.Auth.Scope.{resolve_scope, device_in_scope}
use moebius.Quota.{Defaults}
use moebius.Api.Respond.{Response, reply, error, error_status}
use moebius.Api.Jobs.{
  Caller, CreateRequest, no_content, create_batch, create_within, create_decoded, create,
}
use moebius.Api.JobControl.{is_job, passes_scope, cancel_row, cancel}

-- The status of a response.
abbrev pub status_of : {A : Type 0} → Response A → ℕ
status_of (reply status body) = status
status_of (error status code) = status

abbrev pub is_error : {A : Type 0} → Response A → Bool
is_error (reply status body) = false
is_error (error status code) = true

-- A request is refused if its status is a client error.
abbrev pub is_refused : {A : Type 0} → Response A → Bool
is_refused r = leb 400 (status_of r) && ltb (status_of r) 500

create_batch-refused :
    (caller : Caller) (env : Env) (req : CreateRequest) (devices : List String) (db : Db)
    → is_refused (create_batch caller env req devices db).0 ≡ false
unfolding create_batch error_status
create_batch-refused caller env req devices db = ground arith

create_within-refused :
    (quota : Option Defaults) (caller : Caller) (env : Env) (req : CreateRequest)
    (devices : List String) (db : Db)
    → is_refused (create_within quota caller env req devices db).0 ≡ true
    → (create_within quota caller env req devices db).1 ≡ db
unfolding create_within error_status
create_within-refused quota caller env req devices db h =
    ground (arith, create_batch-refused caller env req devices db)

create_decoded-refused :
    (quota : Option Defaults) (caller : Caller) (env : Env) (req : CreateRequest) (db : Db)
    → is_refused (create_decoded quota caller env req db).0 ≡ true
    → (create_decoded quota caller env req db).1 ≡ db
unfolding create_decoded error_status
create_decoded-refused quota caller env req db h = grind (arith, create_within-refused)

-- If POST /v1/jobs answers with a client error, it leaves the database as it was.
pub create-refused :
    (quota : Option Defaults) (caller : Caller) (env : Env) (req : Option CreateRequest) (db : Db)
    → is_refused (create quota caller env req db).0 ≡ true
    → (create quota caller env req db).1 ≡ db
unfolding create
create-refused quota caller env none db h = refl
create-refused quota caller env (some req) db h = create_decoded-refused quota caller env req db h

-- The caller is an admin, or the caller's scope resolves and either sets no bounds or lists the
-- device, or a lookup of the scope fails.
abbrev pub Admits : Caller → Env → Db → String → Type 0
Admits caller env db device =
    (caller.is_admin ≡ true)
    ⊎ (resolve_scope env db caller.tenant_id caller.scope ≡ some none)
    ⊎ ((devices : List String) × (resolve_scope env db caller.tenant_id caller.scope
          ≡ some (some devices))
        × (contains device devices ≡ true))
    ⊎ (resolve_scope env db caller.tenant_id caller.scope ≡ none)

passes_scope-Admits :
    (caller : Caller) (env : Env) (db : Db) (device : String)
    → (passes_scope caller env db device ≡ true) ↔ Admits caller env db device
unfolding passes_scope device_in_scope
passes_scope-Admits caller env db device = ground arith

-- What POST /v1/jobs/{job_id}/cancel asks of a job before it cancels it.
abbrev pub Cancels : Caller → Env → String → Db → Job → Type 0
Cancels caller env id db j =
    (find (is_job id caller.tenant_id) db.jobs ≡ some j)
    × Admits caller env db j.device_id
    × (is_cancellable j.status ≡ true)

-- POST /v1/jobs/{job_id}/cancel answers 204 exactly if neither of its statements fails and the caller's tenant has
-- a job of that id in a status that is cancellable, and the caller is an admin, or has a scope that
-- resolves to no bounds or to devices with the job's among them, or a lookup of the scope fails.
pub cancel-exact :
    (caller : Caller) (env : Env) (id : String) (db : Db)
    → ((cancel caller env id db).0 ≡ reply 204 no_content) ↔ (
        (env.fault select_job ≡ false)
        × (env.fault update_job ≡ false)
        × ((j : Job) × Cancels caller env id db j))
unfolding cancel error_status
cancel-exact caller env id db = grind (arith, passes_scope-Admits)

-- POST /v1/jobs/{job_id}/cancel answers 204 and cancels, at the current time, the rows of the id and no other, or
-- it answers otherwise and leaves the database as it was.
pub cancel-jobs :
    (caller : Caller) (env : Env) (id : String) (db : Db)
    → (((cancel caller env id db).0 ≡ reply 204 no_content)
        × ((cancel caller env id db).1.jobs
            ≡ update (λ r. r.id == id) (cancel_row env.now) db.jobs))
      ⊎ ((is_error (cancel caller env id db).0 ≡ true) × ((cancel caller env id db).1 ≡ db))
unfolding cancel error_status
cancel-jobs caller env id db = grind (arith, jobs-log_action)
