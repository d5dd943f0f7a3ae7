-- ===== src/Api/Jobs/Effects.antt =====
-- What the /v1/jobs endpoints of server/api/jobs.go do to the table of jobs, on every branch.
use moebius.Prelude.{
  ℕ, suc, ◌+◌, String, ◌≡◌, refl, inl, inr, ◌==◌, Option, none, some, Option-cases, List, [], ◌∷◌,
  ◌++◌, arith, update,
}
use moebius.Models.Job.{Job}
use moebius.Database.{Db, Env, Call, insert_job, insert_job_row, jobs-log_action}
use moebius.Database.Evolves.{Moves, phase-le, IsInserted}
use moebius.Database.WellFormed.{WellFormed}
use moebius.Database.Keeps.{Keeps, Keeps-refl, Keeps-trans, Keeps-update, Keeps-insert}
use moebius.Quota.{Defaults}
use moebius.Api.Jobs.{
  Caller, CreateRequest, create_row, insert_jobs, create_batch, create_within, create_decoded,
  create,
}
use moebius.Api.JobControl.{retry_job, cancel_row, cancel, insert_retry, retry}

-- The loop of inserts keeps the table, also where an insert fails half way.
pub insert_jobs-Keeps :
    (env : Env) (call : ℕ → Call) (row : ℕ → String → Job) (k : ℕ) (devices job_ids : List String)
    (db : Db)
    → ((i : ℕ) (device : String) → IsInserted (row i device))
    → ((i : ℕ) (device : String) → WellFormed (row i device))
    → Keeps db.jobs (insert_jobs env call row k devices job_ids db).1.jobs
unfolding insert_jobs
insert_jobs-Keeps env call row k [] job_ids db q w = Keeps-refl db.jobs
insert_jobs-Keeps env call row k (device ∷ devices) job_ids db q w =
    elim (Option-cases (insert_job_row env (call k) (row k device) db)) [
      | inl e ↦ rw (e, insert_jobs) (Keeps-refl db.jobs)
      | inr (db', e) ↦
          rw (e, insert_jobs)
            (Keeps-trans db.jobs db'.jobs _
              (Keeps-insert env (call k) (row k device) db (q k device) (w k device) e)
              (insert_jobs-Keeps env call row (suc k) devices (job_ids ++ (row k device).id ∷ [])
                db' q w))
    ]

create_row-IsInserted :
    (caller : Caller) (env : Env) (req : CreateRequest) (k : ℕ) (device : String)
    → IsInserted (create_row caller env req k device)
unfolding create_row
create_row-IsInserted caller env req k device = omega arith

create_row-WellFormed :
    (caller : Caller) (env : Env) (req : CreateRequest) (k : ℕ) (device : String)
    → WellFormed (create_row caller env req k device)
unfolding create_row
create_row-WellFormed caller env req k device = refl

create_batch-Keeps :
    (caller : Caller) (env : Env) (req : CreateRequest) (devices : List String) (db : Db)
    → Keeps db.jobs (create_batch caller env req devices db).1.jobs
unfolding create_batch
create_batch-Keeps caller env req devices db = grind (
  arith,
  insert_jobs-Keeps env insert_job (create_row caller env req) 0 devices [] db
      (λ i device. create_row-IsInserted caller env req i device)
      (λ i device. create_row-WellFormed caller env req i device),
  jobs-log_action,
)

create_within-Keeps :
    (quota : Option Defaults) (caller : Caller) (env : Env) (req : CreateRequest)
    (devices : List String) (db : Db)
    → Keeps db.jobs (create_within quota caller env req devices db).1.jobs
unfolding create_within
create_within-Keeps quota caller env req devices db =
    ground (arith, Keeps-refl db.jobs, create_batch-Keeps caller env req devices db)

create_decoded-Keeps :
    (quota : Option Defaults) (caller : Caller) (env : Env) (req : CreateRequest) (db : Db)
    → Keeps db.jobs (create_decoded quota caller env req db).1.jobs
unfolding create_decoded
create_decoded-Keeps quota caller env req db =
    grind (arith, Keeps-refl db.jobs, create_within-Keeps)

pub create-Keeps :
    (quota : Option Defaults) (caller : Caller) (env : Env) (req : Option CreateRequest) (db : Db)
    → Keeps db.jobs (create quota caller env req db).1.jobs
unfolding create
create-Keeps quota caller env none db = Keeps-refl db.jobs
create-Keeps quota caller env (some req) db = create_decoded-Keeps quota caller env req db

cancel_row-Moves : (now : ℕ) (j : Job) → Moves j (cancel_row now j)
cancel_row-Moves now j = ground (arith, phase-le j.status)

cancel_update-Keeps :
    (now : ℕ) (id : String) (xs : List Job)
    → Keeps xs (update (λ r. r.id == id) (cancel_row now) xs)
cancel_update-Keeps now id xs = Keeps-update _ _ xs (λ j h. cancel_row-Moves now j) (λ j h w. refl)

pub cancel-Keeps :
    (caller : Caller) (env : Env) (id : String) (db : Db)
    → Keeps db.jobs (cancel caller env id db).1.jobs
unfolding cancel
cancel-Keeps caller env id db =
    grind (arith, Keeps-refl db.jobs, cancel_update-Keeps env.now id db.jobs, jobs-log_action)

retry_job-WellFormed :
    (env : Env) (call : Call) (tenant parent : String) (n : ℕ) (j : Job)
    → WellFormed (retry_job env call tenant parent n j)
unfolding retry_job
retry_job-WellFormed env call tenant parent n j = refl

retry_job-IsInserted :
    (env : Env) (call : Call) (tenant parent : String) (n : ℕ) (j : Job)
    → IsInserted (retry_job env call tenant parent n j)
unfolding retry_job
retry_job-IsInserted env call tenant parent n j = omega arith

-- An INSERT of a retry, in this handler or after a submitted result.
pub insert_retry_job-Keeps :
    (env : Env) (call : Call) (tenant parent : String) (n : ℕ) (j : Job) (db : Db) {db' : Db}
    → insert_job_row env call (retry_job env call tenant parent n j) db ≡ some db'
    → Keeps db.jobs db'.jobs
insert_retry_job-Keeps env call tenant parent n j db e =
    Keeps-insert env call (retry_job env call tenant parent n j) db
      (retry_job-IsInserted env call tenant parent n j)
      (retry_job-WellFormed env call tenant parent n j) e

insert_retry-Keeps :
    (caller : Caller) (env : Env) (id : String) (j : Job) (db : Db)
    → Keeps db.jobs (insert_retry caller env id j db).1.jobs
unfolding insert_retry
insert_retry-Keeps caller env id j db =
    let row = retry_job env (insert_job 0) caller.tenant_id id (j.retry_count + 1) j in
    elim (Option-cases (insert_job_row env (insert_job 0) row db)) [
      | inl e ↦ rw (e, insert_retry) (Keeps-refl db.jobs)
      | inr (db', e) ↦
          rw (e, insert_retry)
            (rw jobs-log_action (
              insert_retry_job-Keeps env (insert_job 0) caller.tenant_id id (j.retry_count + 1) j db
                e))
    ]

pub retry-Keeps :
    (quota : Option Defaults) (caller : Caller) (env : Env) (id : String) (db : Db)
    → Keeps db.jobs (retry quota caller env id db).1.jobs
unfolding retry
retry-Keeps quota caller env id db = grind (arith, Keeps-refl db.jobs, insert_retry-Keeps)
