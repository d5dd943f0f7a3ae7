-- ===== src/Agent/Executor/Restart.antt =====
-- When runJob of agent/executor/executor.go executes a job, and when it restarts the service.
use moebius.Prelude.{
  ℕ, String, ◌≡◌, refl, Bool, true, false, ◌&&◌, eq_iff, Option, none, some, List, [], ◌∷◌, arith,
}
use moebius.Models.Inventory.{FullInventory}
use moebius.Database.{Db, Env}
use moebius.Api.Respond.{Response, reply, error, error_status}
use moebius.Api.Checkin.{JobDispatch}
use moebius.Api.AgentJobs.{Agent, JobResultSubmission, target_status, submit_result}
use moebius.Agent.Cdm.{Manager, Host, can_execute_job}
use moebius.Agent.Executor.{Effect, executed, restarted, is_accepted, report, timed, run_job}

abbrev pub executes : List Effect → Bool
executes [] = false
executes (executed ∷ es) = true
executes (_ ∷ es) = executes es

abbrev pub restarts : List Effect → Bool
restarts [] = false
restarts (restarted ∷ es) = true
restarts (_ ∷ es) = restarts es

-- With a manager, a job is executed exactly if the manager lets it run and the server accepts the
-- acknowledgement.
pub run_job-executes :
    (execute : JobDispatch → JobResultSubmission) (post_acknowledge : String → Option ℕ)
    (post_result : String → JobResultSubmission → Option ℕ) (has_restart : Bool)
    (gate started completed : Host) (m : Manager) (job : JobDispatch)
    → executes
        (run_job execute post_acknowledge post_result has_restart gate started completed
          (some m)
          job).0
      ≡ ((can_execute_job gate m).0 && is_accepted (post_acknowledge job.job_id))
unfolding run_job report
run_job-executes execute post_acknowledge post_result has_restart gate started completed m job =
    ground arith

abbrev pub status_code : Response (Unit {0}) → ℕ
status_code (reply status body) = status
status_code (error status code) = status

-- The server refuses a result whose status is not one of the three it knows.
submit_result-restarting :
    (parse_inventory : String → Option FullInventory) (agent : Agent) (env : Env) (id : String)
    (req : JobResultSubmission) (db : Db)
    → req.status ≡ "restarting"
    → status_code (submit_result parse_inventory agent env id (some req) db).0 ≡ 400
unfolding submit_result target_status error_status
submit_result-restarting parse_inventory agent env id req db h = rw h refl

-- The answers of the server to a result, as the agent reads them.
abbrev pub server_answer :
    (String → Option FullInventory) → Agent → Env → Db → String → JobResultSubmission → Option ℕ
server_answer parse_inventory agent env db id req =
    some (status_code (submit_result parse_inventory agent env id (some req) db).0)

report-restarts :
    (execute : JobDispatch → JobResultSubmission) (post_acknowledge : String → Option ℕ)
    (parse_inventory : String → Option FullInventory) (agent : Agent) (env : Env) (db : Db)
    (has_restart : Bool) (result : JobResultSubmission) (id : String)
    → restarts (
        report execute post_acknowledge
          (server_answer parse_inventory agent env db)
          has_restart
          result
          id)
      ≡ false
unfolding report
report-restarts execute post_acknowledge parse_inventory agent env db has_restart result id =
    ground (
      arith,
      eq_iff result.status "restarting",
      submit_result-restarting parse_inventory agent env id result db,
    )

-- If results are answered by SubmitResult, of any server state and failures, then no job makes the
-- agent restart, whatever its execution returns.
pub run_job-restarts :
    (execute : JobDispatch → JobResultSubmission) (post_acknowledge : String → Option ℕ)
    (parse_inventory : String → Option FullInventory) (agent : Agent) (env : Env) (db : Db)
    (has_restart : Bool) (gate started completed : Host) (m : Option Manager) (job : JobDispatch)
    → restarts
        (run_job execute post_acknowledge
          (server_answer parse_inventory agent env db)
          has_restart
          gate
          started
          completed
          m
          job).0
      ≡ false
unfolding run_job
run_job-restarts execute post_acknowledge parse_inventory agent env db has_restart gate started
      completed none job =
    refl
run_job-restarts execute post_acknowledge parse_inventory agent env db has_restart gate started
      completed (some m) job =
    ground (
      arith,
      report-restarts execute post_acknowledge parse_inventory agent env db has_restart
          (timed started completed (execute job)) job.job_id,
    )
