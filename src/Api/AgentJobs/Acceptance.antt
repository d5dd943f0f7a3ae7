-- ===== src/Api/AgentJobs/Acceptance.antt =====
-- When the agent's endpoints of server/api/agent_jobs.go accept a request.
use moebius.Prelude.{
  ◌≡◌, ◌↔◌, ◌⊎◌, inl, inr, String, false, Option, none, some, Option-cases, arith, find,
}
use moebius.Models.Job.{Job, JobStatus, acknowledged, running, dispatched}
use moebius.Models.Inventory.{FullInventory}
use moebius.Jobs.State.{validate_transition}
use moebius.Database.{Db, Env, select_job, update_job, insert_result}
use moebius.Api.Respond.{reply, error_status}
use moebius.Api.AgentJobs.{
  Agent, JobResultSubmission, is_agents_job, acknowledge, target_status, effective_status,
  store_result, submit_result,
}

-- The server accepts an acknowledgement exactly if neither statement fails and the agent has a
-- job of that id which is dispatched.
pub acknowledge-exact :
    (agent : Agent) (env : Env) (id : String) (db : Db)
    → ((acknowledge agent env id db).0 ≡ reply 204 tt) ↔ (
        (env.fault select_job ≡ false)
        × (env.fault update_job ≡ false)
        × ((j : Job) × (find (is_agents_job id agent) db.jobs ≡ some j) × (j.status ≡ dispatched)))
unfolding acknowledge error_status validate_transition
acknowledge-exact agent env id db = (
  λ h. elim (Option-cases (find (is_agents_job id agent) db.jobs)) [
    | inl e ↦ absurd (ground (arith, h, e))
    | inr (j, e) ↦ (ground (arith, h, e), ground (arith, h, e), (j, e, ground (arith, h, e)))
  ],
  λ (s, u, (j, e, d)). ground (arith, s, u, e, d),
)

accepts_result :
    (s : JobStatus) (text : String) (target : JobStatus)
    → target_status text ≡ some target
    → (validate_transition (effective_status s) target ≡ none)
      ↔ ((s ≡ acknowledged) ⊎ (s ≡ running))
unfolding target_status validate_transition effective_status
accepts_result s text target h = ground arith

store_result-exact :
    (parse_inventory : String → Option FullInventory) (agent : Agent) (env : Env) (id : String)
    (j : Job) (target : JobStatus) (req : JobResultSubmission) (db : Db)
    → ((store_result parse_inventory agent env id j target req db).0 ≡ reply 204 tt)
      ↔ ((env.fault insert_result ≡ false) × (env.fault update_job ≡ false))
unfolding store_result error_status
store_result-exact parse_inventory agent env id j target req db = ground arith

-- If the status of a result is one that the server knows, then the server accepts it exactly if
-- none of reading the job, storing the result and updating the job fails, and the agent has a job
-- of that id which is acknowledged or running.
pub submit_result-exact :
    (parse_inventory : String → Option FullInventory) (agent : Agent) (env : Env) (id : String)
    (req : JobResultSubmission) (db : Db) (target : JobStatus)
    → target_status req.status ≡ some target
    → ((submit_result parse_inventory agent env id (some req) db).0 ≡ reply 204 tt) ↔ (
        (env.fault select_job ≡ false)
        × (env.fault insert_result ≡ false)
        × (env.fault update_job ≡ false)
        × ((j : Job) × (find (is_agents_job id agent) db.jobs ≡ some j)
            × ((j.status ≡ acknowledged) ⊎ (j.status ≡ running))))
unfolding submit_result error_status
submit_result-exact parse_inventory agent env id req db target h = (
  λ a. elim (Option-cases (find (is_agents_job id agent) db.jobs)) [
    | inl e ↦ absurd (ground (arith, a, e, h))
    | inr (j, e) ↦
        let accepts = accepts_result j.status req.status target h in
        let stores = store_result-exact parse_inventory agent env id j target req db in
        (
          ground (arith, a, e, h),
          ground (arith, a, e, h, stores),
          ground (arith, a, e, h, stores),
          (j, e, ground (arith, a, e, h, accepts)),
        )
  ],
  λ (s, i, u, (j, e, d)). ground (
    arith,
    s,
    e,
    h,
    (accepts_result j.status req.status target h).1 d,
    (store_result-exact parse_inventory agent env id j target req db).1 (i, u),
  ),
)
