-- ===== src/Scheduler/Effects.antt =====
-- What a tick of server/scheduler/scheduler.go does to the table of jobs, whatever the cron
-- library answers.
use moebius.Prelude.{ℕ, String, ◌≡◌, refl, true, Option, List, [], ◌∷◌, arith}
use moebius.Models.Job.{Job, ScheduledJob}
use moebius.Database.{Db, Env, insert_scheduled}
use moebius.Database.Evolves.{Moves, IsInserted}
use moebius.Database.WellFormed.{WellFormed}
use moebius.Database.Keeps.{Keeps, Keeps-refl, Keeps-trans, Keeps-update}
use moebius.Api.Jobs.Effects.{insert_jobs-Keeps}
use moebius.Api.Checkin.{requeue_row}
use moebius.Scheduler.{
  Config, is_stuck_dispatched, reap_stuck_dispatched_jobs, is_stuck_inflight, time_out_row,
  reap_stuck_inflight_jobs, scheduled_row, dispatch_scheduled_job, mark_scheduled_job_run,
  run_scheduled_job, run_scheduled_jobs, evaluate_scheduled_jobs, run_tick,
}

requeued-Moves :
    (cfg : Config) (now : ℕ) (j : Job)
    → is_stuck_dispatched cfg now j ≡ true
    → Moves j (requeue_row j)
requeued-Moves cfg now j h = ground arith

timed_out-Moves :
    (cfg : Config) (now : ℕ) (j : Job)
    → is_stuck_inflight cfg now j ≡ true
    → Moves j (time_out_row now j)
timed_out-Moves cfg now j h = ground arith

pub reap_stuck_dispatched_jobs-Keeps :
    (cfg : Config) (env : Env) (db : Db)
    → Keeps db.jobs (reap_stuck_dispatched_jobs cfg env db).jobs
unfolding reap_stuck_dispatched_jobs
reap_stuck_dispatched_jobs-Keeps cfg env db = ground (
  arith,
  Keeps-refl db.jobs,
  Keeps-update (is_stuck_dispatched cfg env.now) requeue_row db.jobs
      (λ j h. requeued-Moves cfg env.now j h) (λ j h w. refl),
)

pub reap_stuck_inflight_jobs-Keeps :
    (cfg : Config) (env : Env) (db : Db) → Keeps db.jobs (reap_stuck_inflight_jobs cfg env db).jobs
unfolding reap_stuck_inflight_jobs
reap_stuck_inflight_jobs-Keeps cfg env db = ground (
  arith,
  Keeps-refl db.jobs,
  Keeps-update (is_stuck_inflight cfg env.now) (time_out_row env.now) db.jobs
      (λ j h. timed_out-Moves cfg env.now j h) (λ j h w. refl),
)

scheduled_row-IsInserted :
    (env : Env) (sj : ScheduledJob) (k : ℕ) (device : String)
    → IsInserted (scheduled_row env sj k device)
unfolding scheduled_row
scheduled_row-IsInserted env sj k device = omega arith

scheduled_row-WellFormed :
    (env : Env) (sj : ScheduledJob) (k : ℕ) (device : String)
    → WellFormed (scheduled_row env sj k device)
unfolding scheduled_row
scheduled_row-WellFormed env sj k device = refl

dispatch_scheduled_job-Keeps :
    (env : Env) (sj : ScheduledJob) (db : Db)
    → Keeps db.jobs (dispatch_scheduled_job env sj db).1.jobs
unfolding dispatch_scheduled_job
dispatch_scheduled_job-Keeps env sj db = grind (
  arith,
  Keeps-refl db.jobs,
  λ (devices : List String).
      insert_jobs-Keeps env (insert_scheduled sj.id) (scheduled_row env sj) 0 devices [] db
        (λ i device. scheduled_row-IsInserted env sj i device)
        (λ i device. scheduled_row-WellFormed env sj i device),
)

jobs-mark_scheduled_job_run :
    (env : Env) (id : String) (next : ℕ) (db : Db)
    → (mark_scheduled_job_run env id next db).jobs ≡ db.jobs
unfolding mark_scheduled_job_run
jobs-mark_scheduled_job_run env id next db = ground arith

module _ (next_run : String → Option (ℕ → ℕ)) where
  run_scheduled_job-Keeps :
      (env : Env) (sj : ScheduledJob) (db : Db)
      → Keeps db.jobs (run_scheduled_job next_run env sj db).jobs
  unfolding run_scheduled_job
  run_scheduled_job-Keeps env sj db =
      grind (arith, dispatch_scheduled_job-Keeps env sj db, jobs-mark_scheduled_job_run)

  run_scheduled_jobs-Keeps :
      (env : Env) (due : List ScheduledJob) (db : Db)
      → Keeps db.jobs (run_scheduled_jobs next_run env due db).jobs
  unfolding run_scheduled_jobs
  run_scheduled_jobs-Keeps env [] db = Keeps-refl db.jobs
  run_scheduled_jobs-Keeps env (sj ∷ due) db =
      Keeps-trans db.jobs (run_scheduled_job next_run env sj db).jobs _
        (run_scheduled_job-Keeps env sj db)
        (run_scheduled_jobs-Keeps env due (run_scheduled_job next_run env sj db))

  evaluate_scheduled_jobs-Keeps :
      (env : Env) (db : Db) → Keeps db.jobs (evaluate_scheduled_jobs next_run env db).jobs
  unfolding evaluate_scheduled_jobs
  evaluate_scheduled_jobs-Keeps env db =
      grind (
        arith,
        Keeps-refl db.jobs,
        λ (due : List ScheduledJob). run_scheduled_jobs-Keeps env due db,
      )

  pub run_tick-Keeps :
      (cfg : Config) (env : Env) (db : Db) → Keeps db.jobs (run_tick next_run cfg env db).jobs
  unfolding run_tick
  run_tick-Keeps cfg env db =
      let evaluated = evaluate_scheduled_jobs next_run env db in
      let requeued = reap_stuck_dispatched_jobs cfg env evaluated in
      Keeps-trans db.jobs requeued.jobs _
        (Keeps-trans db.jobs evaluated.jobs _ (evaluate_scheduled_jobs-Keeps env db)
          (reap_stuck_dispatched_jobs-Keeps cfg env evaluated))
        (reap_stuck_inflight_jobs-Keeps cfg env requeued)
