-- ===== src/Tests/Fleet.antt =====
-- The theorems about agents' requests, scheduled jobs, revoked devices and the executor.
use moebius.Prelude.{
  ℕ, String, ◌≡◌, refl, ◌↔◌, ◌⊎◌, true, false, ◌&&◌, Option, none, some, [], ◌∷◌, contains, select,
  find,
}
use moebius.Prelude.Int.{pos}
use moebius.Models.Job.{Job, ScheduledJob, exec, completed, acknowledged, running, dispatched}
use moebius.Auth.Scope.{in_tenant, member_rows}
use moebius.Api.Respond.{reply}
use moebius.Api.Targets.{add, add_all, add_members}
use moebius.Api.Targets as Targets
use moebius.Api.Checkin.{JobDispatch}
use moebius.Api.AgentJobs.{
  JobResultSubmission, is_agents_job, acknowledge, target_status, submit_result,
}
use moebius.Api.AgentJobs.Acceptance.{acknowledge-exact, submit_result-exact}
use moebius.Scheduler.{resolve_targets, dispatch_scheduled_job}
use moebius.Scheduler.Creator.{dispatch_scheduled_job-refused}
use moebius.Store.Devices.{store_revoke_device}
use moebius.Store.Devices.Revoked.{IsRevoked, is_elsewhere, store_revoke_device-IsRevoked}
use moebius.Agent.Cdm.{Manager, Host, can_execute_job}
use moebius.Agent.Executor.{is_accepted, run_job}
use moebius.Agent.Executor.Restart.{
  executes, restarts, server_answer, run_job-executes, run_job-restarts,
}
use moebius.Tests.{env_at, db_a, agent_a, group_target, setup}

acknowledge-exact_example : ((acknowledge agent_a (env_at 20) "job_d" db_a).0 ≡ reply 204 tt) ↔ (
    (false ≡ false)
    × (false ≡ false)
    × ((j : Job) × (find (is_agents_job "job_d" agent_a) db_a.jobs ≡ some j)
        × (j.status ≡ dispatched)))
acknowledge-exact_example = acknowledge-exact agent_a (env_at 20) "job_d" db_a

abbrev result_of : String → JobResultSubmission
result_of status = record {
  status = status;
  exit_code = some (pos 0);
  stdout = "";
  stderr = "";
  message = "";
  started_at = none;
  completed_at = none;
}

completed_known : target_status (result_of "completed").status ≡ some completed
unfolding target_status
completed_known = refl

submit_result-exact_example :
    ((submit_result setup.parse_inventory agent_a
        (env_at 20)
        "job_r"
        (some (result_of "completed"))
        db_a).0
      ≡ reply 204 tt)
    ↔ ((false ≡ false)
        × (false ≡ false)
        × (false ≡ false)
        × ((j : Job) × (find (is_agents_job "job_r" agent_a) db_a.jobs ≡ some j)
            × ((j.status ≡ acknowledged) ⊎ (j.status ≡ running))))
submit_result-exact_example =
    submit_result-exact setup.parse_inventory agent_a (env_at 20) "job_r" (result_of "completed")
      db_a completed completed_known

abbrev nightly : ScheduledJob
nightly = record {
  id = "sch_a";
  tenant_id = "ten_a";
  name = "nightly";
  job_type = exec;
  payload = "{}";
  target = some group_target;
  cron_expr = "0 0 * * *";
  retry_policy = none;
  enabled = true;
  last_run_at = none;
  next_run_at = some 10;
}

nightly_resolves : resolve_targets (env_at 30) db_a "ten_a" group_target ≡ some ("dev_a" ∷ [])
unfolding resolve_targets Targets.resolve_targets add add_all add_members member_rows select
    in_tenant contains
nightly_resolves = refl

unknown_creator : contains "scheduler:sch_a" db_a.users ≡ false
unfolding contains
unknown_creator = refl

dispatch_scheduled_job-refused_example :
    dispatch_scheduled_job (env_at 30) nightly db_a ≡ (false, db_a)
dispatch_scheduled_job-refused_example =
    dispatch_scheduled_job-refused (env_at 30) nightly group_target "dev_a" [] db_a refl
      nightly_resolves unknown_creator

store_revoke_device-IsRevoked_example :
    (((store_revoke_device (env_at 30) "ten_a" "dev_a" "lost" db_a).0 ≡ true)
      × IsRevoked "ten_a" "dev_a" (store_revoke_device (env_at 30) "ten_a" "dev_a" "lost" db_a).1
      × (select
            (is_elsewhere "ten_a" "dev_a")
            (store_revoke_device (env_at 30) "ten_a" "dev_a" "lost" db_a).1.jobs
          ≡ select (is_elsewhere "ten_a" "dev_a") db_a.jobs))
    ⊎ (store_revoke_device (env_at 30) "ten_a" "dev_a" "lost" db_a ≡ (false, db_a))
store_revoke_device-IsRevoked_example =
    store_revoke_device-IsRevoked (env_at 30) "ten_a" "dev_a" "lost" db_a

abbrev host_at : ℕ → Host
host_at now = record { now = now; persist_fails = false; audit_fails = false }

abbrev free_manager : Manager
free_manager = record {
  state = record {
    enabled = false;
    session_active = false;
    session_expires_at = none;
    session_granted_by = "";
    session_granted_at = none;
  };
  saved = none;
  audit_log = none;
}

abbrev dispatch : JobDispatch
dispatch = record { job_id = "job_r"; kind = exec; payload = "{}"; created_at = 5 }

abbrev run_it : JobDispatch → JobResultSubmission
run_it job = result_of "restarting"

abbrev accept : String → Option ℕ
accept id = some 204

abbrev accept_result : String → JobResultSubmission → Option ℕ
accept_result id req = some 204

run_job-executes_example :
    executes
      (run_job run_it accept accept_result true
        (host_at 5)
        (host_at 6)
        (host_at 7)
        (some free_manager)
        dispatch).0
    ≡ ((can_execute_job (host_at 5) free_manager).0 && is_accepted (some 204))
run_job-executes_example =
    run_job-executes run_it accept accept_result true (host_at 5) (host_at 6) (host_at 7)
      free_manager dispatch

run_job-restarts_example :
    restarts
      (run_job run_it accept
        (server_answer setup.parse_inventory agent_a (env_at 7) db_a)
        true
        (host_at 5)
        (host_at 6)
        (host_at 7)
        (some free_manager)
        dispatch).0
    ≡ false
run_job-restarts_example =
    run_job-restarts run_it accept setup.parse_inventory agent_a (env_at 7) db_a true (host_at 5)
      (host_at 6) (host_at 7) (some free_manager) dispatch
