-- ===== src/Api/AgentJobs/Effects.antt =====
-- What the agent's endpoints of server/api/agent_jobs.go do to the table of jobs, on every branch.
use moebius.Prelude.{
  ℕ, ◌≤◌, String, ◌≡◌, refl, inl, inr, true, ◌==◌, &&-right, eq_iff, Option, none, some,
  Option-cases, List, [], ◌∷◌, ◌++◌, arith, find, update,
}
use moebius.Prelude.Int.{ℤ}
use moebius.Models.Job.{Job, JobType, JobStatus, acknowledged, dispatched, eq_status}
use moebius.Models.Inventory.{FullInventory}
use moebius.Jobs.State.{validate_transition}
use moebius.Database.{Db, Env, insert_job, insert_job_row, jobs-log_action}
use moebius.Database.Evolves.{Moves, phase, phase-le}
use moebius.Database.WellFormed.{WellFormed, Distinct}
use moebius.Database.Keeps.{Keeps, Keeps-refl, Keeps-trans, Keeps-update}
use moebius.Database.Unique.{update-found}
use moebius.Api.JobControl.{retry_job}
use moebius.Api.Jobs.Effects.{insert_retry_job-Keeps}
use moebius.Api.Inventory.{process_full_inventory}
use moebius.Api.AgentJobs.{
  Agent, JobResultSubmission, is_agents_job, acknowledge_row, acknowledge, target_status,
  finish_row, create_retry_job, settle, store_result, submit_result, process_parsed, result_row,
  insert_child,
}

is_agents_job-id :
    (id : String) (agent : Agent) (j : Job) → is_agents_job id agent j ≡ true → j.id ≡ id
is_agents_job-id id agent j h = ground (arith, eq_iff j.id id)

-- A status may be acknowledged only from `dispatched`.
validate_acknowledged : (s : JobStatus) → validate_transition s acknowledged ≡ none → s ≡ dispatched
unfolding validate_transition
validate_acknowledged s h = ground arith

acknowledge_row-Moves : (now : ℕ) (j : Job) → phase j.status ≤ 2 → Moves j (acknowledge_row now j)
acknowledge_row-Moves now j h = ground arith

acknowledge_update-Keeps :
    (agent : Agent) (now : ℕ) (id : String) (xs : List Job) (j : Job)
    → Distinct xs
    → find (is_agents_job id agent) xs ≡ some j
    → validate_transition j.status acknowledged ≡ none
    → Keeps xs (update (λ r. r.id == id) (acknowledge_row now) xs)
acknowledge_update-Keeps agent now id xs j d e v =
    rw
      (update-found id (is_agents_job id agent) (λ r. eq_status r.status dispatched)
        (acknowledge_row now) xs (is_agents_job-id id agent) d e
        (rw (validate_acknowledged j.status v)))
      (Keeps-update _ _ xs (λ r h. acknowledge_row-Moves now r (sent r (&&-right _ _ h)))
        (λ r h w. refl))
  where
    sent : (r : Job) → eq_status r.status dispatched ≡ true → phase r.status ≤ 2
    sent r h = ground arith

pub acknowledge-Keeps :
    (agent : Agent) (env : Env) (id : String) (db : Db)
    → Distinct db.jobs
    → Keeps db.jobs (acknowledge agent env id db).1.jobs
unfolding acknowledge
acknowledge-Keeps agent env id db d = grind (
  arith,
  Keeps-refl db.jobs,
  λ (j : Job). acknowledge_update-Keeps agent env.now id db.jobs j d,
  jobs-log_action,
)

jobs-process_full_inventory :
    (env : Env) (device : String) (inv : FullInventory) (db : Db)
    → (process_full_inventory env device inv db).jobs ≡ db.jobs
unfolding process_full_inventory
jobs-process_full_inventory env device inv db = ground arith

jobs-process_parsed :
    (env : Env) (device : String) (inv : Option FullInventory) (db : Db)
    → (process_parsed env device inv db).jobs ≡ db.jobs
jobs-process_parsed env device none db = refl
jobs-process_parsed env device (some inv) db = jobs-process_full_inventory env device inv db

insert_child-Keeps :
    (env : Env) (tenant parent : String) (n : ℕ) (j : Job) (db : Db)
    → Keeps db.jobs (insert_child env (retry_job env (insert_job 0) tenant parent n j) db).jobs
insert_child-Keeps env tenant parent n j db =
    elim (Option-cases
      (insert_job_row env (insert_job 0) (retry_job env (insert_job 0) tenant parent n j) db)) [
        | inl e ↦ unfold insert_child in rw (e, insert_child) (Keeps-refl db.jobs)
        | inr (db', e) ↦
            unfold insert_child in
            rw (e, insert_child) (insert_retry_job-Keeps env (insert_job 0) tenant parent n j db e)
      ]

pub create_retry_job-Keeps :
    (agent : Agent) (env : Env) (parent : String) (kind : JobType) (n : ℕ) (m : ℤ) (db : Db)
    → Keeps db.jobs (create_retry_job agent env parent kind n m db).jobs
unfolding create_retry_job
create_retry_job-Keeps agent env parent kind n m db =
    grind (arith, Keeps-refl db.jobs, insert_child-Keeps)

finish_row-Moves :
    (now : ℕ) (target : JobStatus) (req : JobResultSubmission) (j : Job)
    → phase target ≡ 3
    → Moves j (finish_row now target req j)
finish_row-Moves now target req j h = ground (arith, phase-le j.status)

finish_row-WellFormed :
    (now : ℕ) (text : String) (target : JobStatus) (req : JobResultSubmission) (j : Job)
    → target_status text ≡ some target
    → WellFormed (finish_row now target req j)
unfolding target_status
finish_row-WellFormed now text target req j h = ground arith

target_status-phase :
    (text : String) (target : JobStatus) → target_status text ≡ some target → phase target ≡ 3
unfolding target_status
target_status-phase text target h = ground arith

finish_update-Keeps :
    (now : ℕ) (id text : String) (target : JobStatus) (req : JobResultSubmission) (xs : List Job)
    → target_status text ≡ some target
    → Keeps xs (update (λ r. r.id == id) (finish_row now target req) xs)
finish_update-Keeps now id text target req xs h =
    Keeps-update _ _ xs
      (λ j p. finish_row-Moves now target req j (target_status-phase text target h))
      (λ j p w. finish_row-WellFormed now text target req j h)

module _ (parse_inventory : String → Option FullInventory) where
  settle-Keeps :
      (agent : Agent) (env : Env) (id : String) (j : Job) (target : JobStatus)
      (req : JobResultSubmission) (db : Db)
      → Keeps db.jobs (settle parse_inventory agent env id j target req db).jobs
  unfolding settle
  settle-Keeps agent env id j target req db =
      grind
        (arith, Keeps-refl db.jobs, create_retry_job-Keeps, jobs-log_action, jobs-process_parsed)

  store_result-Keeps :
      (agent : Agent) (env : Env) (id text : String) (j : Job) (target : JobStatus)
      (req : JobResultSubmission) (db : Db)
      → target_status text ≡ some target
      → Keeps db.jobs (store_result parse_inventory agent env id j target req db).1.jobs
  unfolding store_result
  store_result-Keeps agent env id text j target req db h =
      let stored = record db { job_results = db.job_results ++ result_row env id req ∷ [] } in
      let finished = record stored {
        jobs = update (λ r. r.id == id) (finish_row env.now target req) db.jobs;
      } in
      ground (
        arith,
        Keeps-refl db.jobs,
        Keeps-trans db.jobs finished.jobs _
            (finish_update-Keeps env.now id text target req db.jobs h)
            (settle-Keeps agent env id j target req finished),
      )

  pub submit_result-Keeps :
      (agent : Agent) (env : Env) (id : String) (req : Option JobResultSubmission) (db : Db)
      → Keeps db.jobs (submit_result parse_inventory agent env id req db).1.jobs
  unfolding submit_result
  submit_result-Keeps agent env id none db = Keeps-refl db.jobs
  submit_result-Keeps agent env id (some req) db = grind (
    arith,
    Keeps-refl db.jobs,
    λ (j : Job) (target : JobStatus). store_result-Keeps agent env id req.status j target req db,
  )
