-- ===== src/Scheduler/Creator.antt =====
-- Who a scheduled job (server/scheduler/scheduler.go) says created its jobs, and what the foreign
-- key of jobs.created_by makes of it.
use moebius.Prelude.{◌≡◌, String, false, none, some, List, ◌∷◌, contains, arith}
use Prim.Native.String.{◌++◌ as text_append}
use moebius.Models.Job.{ScheduledJob, JobTarget}
use moebius.Database.{Db, Env, insert_job_row, job_accepted, insert_scheduled}
use moebius.Api.Jobs.{insert_jobs}
use moebius.Scheduler.{resolve_targets, scheduled_row, dispatch_scheduled_job}

scheduled_row-refused :
    (env : Env) (sj : ScheduledJob) (device : String) (db : Db)
    → contains (text_append "scheduler:" sj.id) db.users ≡ false
    → insert_job_row env (insert_scheduled sj.id 0) (scheduled_row env sj 0 device) db ≡ none
unfolding insert_job_row job_accepted scheduled_row
scheduled_row-refused env sj device db h = ground arith

-- If the target of a scheduled job resolves to at least one device, and no user has the identifier
-- that is written as the creator, "scheduler:" and the scheduled job's own, then the dispatch
-- fails and no job is created.
pub dispatch_scheduled_job-refused :
    (env : Env) (sj : ScheduledJob) (target : JobTarget) (device : String) (devices : List String)
    (db : Db)
    → sj.target ≡ some target
    → resolve_targets env db sj.tenant_id target ≡ some (device ∷ devices)
    → contains (text_append "scheduler:" sj.id) db.users ≡ false
    → dispatch_scheduled_job env sj db ≡ (false, db)
unfolding dispatch_scheduled_job insert_jobs
dispatch_scheduled_job-refused env sj target device devices db t r h =
    ground (arith, scheduled_row-refused env sj device db h)
