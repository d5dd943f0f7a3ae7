-- ===== src/Agent/Executor.antt =====
-- agent/executor/executor.go: what runJob does with a job that a check-in brought. Running the job
-- and the server's answers are parameters: the status of an answer, or none if there is none.
pub mod Restart
use moebius.Prelude.{
  ℕ, String, Bool, true, false, not, ◌&&◌, ◌||◌, ◌==◌, eqb, is_some, Option, none, some, List, [],
  ◌∷◌, if◌then◌else◌,
}
use moebius.Models.Job.{type_text}
use moebius.Api.Checkin.{JobDispatch}
use moebius.Api.AgentJobs.{JobResultSubmission}
use moebius.Agent.Cdm.{Manager, Host, can_execute_job, snapshot, log_job_execution}

-- What is seen of a run from outside, in order.
pub data Effect : Type 0 where
  acknowledged executed restarted : Effect
  submitted : JobResultSubmission → Effect

-- 204 or 200
abbrev pub is_accepted : Option ℕ → Bool
is_accepted none = false
is_accepted (some code) = eqb code 204 || eqb code 200

-- The log of an execution under an active session.
unfoldable pub log_execution : Host → JobDispatch → Manager → Manager
unfolding snapshot log_job_execution
log_execution host job m =
    if not m.state.enabled
    then m
    else let (snap, m') = snapshot host m in
      if snap.session_active && is_some m'.audit_log
      then log_job_execution host job.job_id (type_text job.kind) snap.session_granted_by m'
      else m'

-- The result with the times around the execution.
abbrev pub timed : (started completed : Host) → JobResultSubmission → JobResultSubmission
timed started completed result = record result {
  started_at = some started.now;
  completed_at = some completed.now;
}

module _ (execute : JobDispatch → JobResultSubmission) (post_acknowledge : String → Option ℕ)
    (post_result : String → JobResultSubmission → Option ℕ) (has_restart : Bool) where
  -- runJob from the execution on.
  unfoldable pub report : JobResultSubmission → String → List Effect
  report result id =
      if is_accepted (post_result id result) && result.status == "restarting" && has_restart
      then executed ∷ submitted result ∷ restarted ∷ []
      else executed ∷ submitted result ∷ []

  -- runJob, with the clock at the gate, before and after the execution; `none` is a nil manager.
  unfoldable pub run_job :
      (gate started completed : Host) → Option Manager → JobDispatch → List Effect × Option Manager
  run_job gate started completed none job = ([], none)
  run_job gate started completed (some m) job =
      let (may, m') = can_execute_job gate m in
      if not may
      then ([], some m')
      else if not (is_accepted (post_acknowledge job.job_id))
      then ([], some m')
      else (
        acknowledged ∷ report (timed started completed (execute job)) job.job_id,
        some (log_execution started job m'),
      )
