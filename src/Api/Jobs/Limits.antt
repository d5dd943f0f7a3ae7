-- ===== src/Api/Jobs/Limits.antt =====
-- POST /v1/jobs (server/api/jobs.go) and the tenant's limit of queued jobs (server/quota/quota.go).
use moebius.Prelude.{
  ℕ, suc, ◌+◌, ◌<◌, String, ◌≡◌, ◌⊎◌, refl, inl, inr, Bool, true, false, eq_refl, some,
  Option-cases, List, [], ◌∷◌, ◌++◌, arith, length, length-append, count, select,
}
use moebius.Prelude.Int.{ℤ}
use moebius.Models.Job.{Job}
use moebius.Database.{Db, Env, Call, insert_job, insert_job_row, jobs-log_action}
use moebius.Quota.{Defaults, allowed, effective, counts_as_queued, check_queued_jobs}
use moebius.Quota.Bounds.{Within}
use moebius.Auth.Scope.{non_empty}
use moebius.Api.Targets.{resolve_targets}
use moebius.Api.Respond.{reply, error, error_status}
use moebius.Api.Jobs.{
  Caller, CreateRequest, Scoped, within, refused, created, refuse_empty, enforce_scope, create_row,
  insert_jobs, create_batch, create_within, create_decoded, create,
}

count-append :
    (p : Job → Bool) (xs : List Job) (j : Job)
    → p j ≡ true
    → count p (xs ++ j ∷ []) ≡ suc (count p xs)
unfolding count select
count-append p [] j h = rw h refl
count-append p (x ∷ xs) j h = ground (arith, count-append p xs j h)

insert_job_row-count :
    (tenant : String) (env : Env) (call : Call) (j : Job) (db db' : Db)
    → counts_as_queued tenant j ≡ true
    → insert_job_row env call j db ≡ some db'
    → count (counts_as_queued tenant) db'.jobs ≡ suc (count (counts_as_queued tenant) db.jobs)
unfolding insert_job_row
insert_job_row-count tenant env call j db db' h e =
    ground (arith, count-append (counts_as_queued tenant) db.jobs j h)

-- The loop of inserts, if it succeeds, adds a row and an id for each device.
insert_jobs-count :
    (tenant : String) (env : Env) (call : ℕ → Call) (row : ℕ → String → Job) (k : ℕ)
    (devices job_ids new_ids : List String) (db : Db)
    → ((i : ℕ) (device : String) → counts_as_queued tenant (row i device) ≡ true)
    → (insert_jobs env call row k devices job_ids db).0 ≡ some new_ids
    → (count (counts_as_queued tenant) (insert_jobs env call row k devices job_ids db).1.jobs
        ≡ count (counts_as_queued tenant) db.jobs + length devices)
      × (length new_ids ≡ length job_ids + length devices)
unfolding insert_jobs
insert_jobs-count tenant env call row k [] job_ids new_ids db q e = ground arith
insert_jobs-count tenant env call row k (device ∷ devices) job_ids new_ids db q e =
    elim (Option-cases (insert_job_row env (call k) (row k device) db)) [
      | inl f ↦ ground (arith, f)
      | inr (db', f) ↦ ground (
        arith,
        f,
        insert_job_row-count tenant env (call k) (row k device) db db' (q k device) f,
        insert_jobs-count tenant env call row (suc k) devices (job_ids ++ (row k device).id ∷ [])
            new_ids db' q,
        length-append job_ids ((row k device).id ∷ []),
      )
    ]

create_row-counts :
    (caller : Caller) (env : Env) (req : CreateRequest) (k : ℕ) (device : String)
    → counts_as_queued caller.tenant_id (create_row caller env req k device) ≡ true
unfolding create_row counts_as_queued
create_row-counts caller env req k device = ground (arith, eq_refl caller.tenant_id)

-- What a batch that was created adds.
abbrev Adds : String → ℕ → List String → Db → Db → Type 0
Adds tenant n ids db db' =
    (count (counts_as_queued tenant) db'.jobs ≡ count (counts_as_queued tenant) db.jobs + n)
    × (length ids ≡ n)

create_batch-Adds :
    (caller : Caller) (env : Env) (req : CreateRequest) (devices ids : List String) (n : ℕ)
    (db : Db)
    → (create_batch caller env req devices db).0 ≡ reply 201 (created ids n)
    → (n ≡ length devices)
      × Adds caller.tenant_id n ids db (create_batch caller env req devices db).1
unfolding create_batch error_status
create_batch-Adds caller env req devices ids n db e = grind (
  arith,
  insert_jobs-count caller.tenant_id env insert_job (create_row caller env req) 0 devices [] ids db
      (λ i device. create_row-counts caller env req i device),
  jobs-log_action,
)

check_queued_jobs-Within :
    (def eff : Defaults) (env : Env) (db : Db) (tenant : String) (incr : ℕ)
    → effective (some def) env db tenant ≡ some eff
    → check_queued_jobs (some def) env db tenant incr ≡ allowed
    → 0 < incr
    → Within eff.max_queued_jobs (count (counts_as_queued tenant) db.jobs + incr)
unfolding check_queued_jobs
check_queued_jobs-Within def eff env db tenant incr e v p = ground arith

-- The devices that are left to create jobs for.
enforce_scope-within :
    (caller : Caller) (env : Env) (db : Db) (devices scoped : List String)
    → enforce_scope caller env db devices ≡ within scoped
    → non_empty devices ≡ true
    → 0 < length scoped
unfolding enforce_scope refuse_empty
enforce_scope-within caller env db devices scoped e h = ground arith

-- A refusal is an error.
abbrev refuses_by_error : Scoped → Bool
refuses_by_error (within scoped) = true
refuses_by_error (refused (error status code)) = true
refuses_by_error (refused (reply status body)) = false

enforce_scope-error :
    (caller : Caller) (env : Env) (db : Db) (devices : List String)
    → refuses_by_error (enforce_scope caller env db devices) ≡ true
unfolding enforce_scope refuse_empty error_status
enforce_scope-error caller env db devices = ground arith

Scoped-cases :
    (o : Scoped)
    → refuses_by_error o ≡ true
    → ((scoped : List String) × (o ≡ within scoped))
      ⊎ ((status : ℕ) × (code : String) × (o ≡ refused (error status code)))
Scoped-cases (within scoped) h = inl (scoped, refl)
Scoped-cases (refused (error status code)) h = inr (status, code, refl)
Scoped-cases (refused (reply status body)) h = absurd (ground arith)

create_within-Within :
    (def eff : Defaults) (caller : Caller) (env : Env) (req : CreateRequest)
    (devices ids : List String) (n : ℕ) (db : Db)
    → effective (some def) env db caller.tenant_id ≡ some eff
    → 0 < length devices
    → (create_within (some def) caller env req devices db).0 ≡ reply 201 (created ids n)
    → Adds caller.tenant_id n ids db (create_within (some def) caller env req devices db).1
      × Within eff.max_queued_jobs (count (counts_as_queued caller.tenant_id) db.jobs + n)
unfolding create_within error_status
create_within-Within def eff caller env req devices ids n db f p e = ground (
  arith,
  create_batch-Adds caller env req devices ids n db,
  check_queued_jobs-Within def eff env db caller.tenant_id (length devices) f,
)

create_scoped-Within :
    (def eff : Defaults) (caller : Caller) (env : Env) (req : CreateRequest) (ids : List String)
    (n : ℕ) (db : Db) (devices scoped : List String)
    → effective (some def) env db caller.tenant_id ≡ some eff
    → non_empty devices ≡ true
    → enforce_scope caller env db devices ≡ within scoped
    → (create_within (some def) caller env req scoped db).0 ≡ reply 201 (created ids n)
    → Adds caller.tenant_id n ids db (create_within (some def) caller env req scoped db).1
      × Within eff.max_queued_jobs (count (counts_as_queued caller.tenant_id) db.jobs + n)
create_scoped-Within def eff caller env req ids n db devices scoped f h s e =
    create_within-Within def eff caller env req scoped ids n db f
      (enforce_scope-within caller env db devices scoped s h) e

create_decoded-Within :
    (def eff : Defaults) (caller : Caller) (env : Env) (req : CreateRequest) (ids : List String)
    (n : ℕ) (db : Db)
    → effective (some def) env db caller.tenant_id ≡ some eff
    → (create_decoded (some def) caller env req db).0 ≡ reply 201 (created ids n)
    → Adds caller.tenant_id n ids db (create_decoded (some def) caller env req db).1
      × Within eff.max_queued_jobs (count (counts_as_queued caller.tenant_id) db.jobs + n)
unfolding create_decoded error_status
create_decoded-Within def eff caller env req ids n db f e =
    elim (Option-cases (resolve_targets env db caller.tenant_id req.target)) [
      | inl r ↦ ground (arith, r)
      | inr (devices, r) ↦
          elim (Scoped-cases (enforce_scope caller env db devices)
            (enforce_scope-error caller env db devices)) [
              | inl (scoped, s) ↦ ground (
                arith,
                r,
                s,
                create_scoped-Within def eff caller env req ids n db devices scoped f,
              )
              | inr (status, code, s) ↦ ground (arith, r, s)
            ]
    ]

sum-Within : (limit : ℤ) (a b n : ℕ) → b ≡ a + n → Within limit (a + n) → Within limit b
sum-Within limit a b n e w = rw e w

-- If the tenant's limits are those of `eff` and POST /v1/jobs answers 201, then it has added to the
-- tenant's queued and dispatched jobs exactly the number that the answer reports, with as many
-- identifiers, and they are still within the tenant's limit.
pub create-Within :
    (def eff : Defaults) (caller : Caller) (env : Env) (req : CreateRequest) (ids : List String)
    (n : ℕ) (db : Db)
    → effective (some def) env db caller.tenant_id ≡ some eff
    → (create (some def) caller env (some req) db).0 ≡ reply 201 (created ids n)
    → (count (counts_as_queued caller.tenant_id) (create (some def) caller env (some req) db).1.jobs
        ≡ count (counts_as_queued caller.tenant_id) db.jobs + n)
      × (length ids ≡ n)
      × Within eff.max_queued_jobs (
          count
            (counts_as_queued caller.tenant_id)
            (create (some def) caller env (some req) db).1.jobs)
unfolding create
create-Within def eff caller env req ids n db f e =
    let ((a, l), w) = create_decoded-Within def eff caller env req ids n db f e in
    (a, l, sum-Within eff.max_queued_jobs _ _ n a w)
