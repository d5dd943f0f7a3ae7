-- ===== src/Scheduler.antt =====
-- server/scheduler/scheduler.go: one tick. Leader election and the ticker are left out; the cron
-- library is a parameter, which gives the next run of an expression that parses.
pub mod Effects
pub mod Reaper
pub mod Creator
use Prim.Native.String.{◌++◌ as text_append}
use moebius.Prelude.{
  ℕ, ◌+◌, ◌*◌, String, Bool, true, false, not, ◌&&◌, ◌||◌, ◌==◌, Option, none, some, List, [], ◌∷◌,
  select, update, order_by, contains, leb, ltb, if◌then◌else◌,
}
use moebius.Models.Job.{
  Job, JobTarget, ScheduledJob, queued, dispatched, acknowledged, running, timed_out, eq_status,
  second,
}
use moebius.Models.Device.{Device, is_revoked}
use moebius.Database.{
  Db, Env, reap_dispatched, reap_inflight, list_due, list_offline, insert_scheduled, mark_run,
}
use moebius.Auth.Scope.{non_empty}
use moebius.Api.Targets
use moebius.Api.Jobs.{new_job, insert_jobs}
use moebius.Api.Checkin.{sent_before, requeue_row}
use moebius.Api.AgentJobs.{coalesce}

-- The timeouts, in nanoseconds.
pub record Config : Type 0 where
  pub dispatched_timeout : ℕ
  pub inflight_timeout : ℕ

-- New: a setting that is not positive falls back to its default.
abbrev or_seconds : ℕ → ℕ → ℕ
or_seconds configured default = if leb configured 0 then default * second else configured * second

unfoldable pub new_config : (dispatched_sec inflight_sec : ℕ) → Config
new_config dispatched_sec inflight_sec = record {
  dispatched_timeout = or_seconds dispatched_sec 300;
  inflight_timeout = or_seconds inflight_sec 3600;
}

abbrev pub is_stuck_dispatched : Config → ℕ → Job → Bool
is_stuck_dispatched cfg now j =
    eq_status j.status dispatched && sent_before j.dispatched_at cfg.dispatched_timeout now

unfoldable pub reap_stuck_dispatched_jobs : Config → Env → Db → Db
unfolding update
reap_stuck_dispatched_jobs cfg env db =
    if env.fault reap_dispatched
    then db
    else record db { jobs = update (is_stuck_dispatched cfg env.now) requeue_row db.jobs }

-- status IN ('acknowledged','running') AND COALESCE(started_at, acknowledged_at) < cutoff
abbrev pub is_stuck_inflight : Config → ℕ → Job → Bool
is_stuck_inflight cfg now j =
    (eq_status j.status acknowledged || eq_status j.status running)
    && sent_before (coalesce j.started_at j.acknowledged_at) cfg.inflight_timeout now

abbrev pub time_out_row : ℕ → Job → Job
time_out_row now j = record j {
  status = timed_out;
  completed_at = some now;
  last_error = some "reaper: agent never reported completion within inflight timeout";
}

unfoldable pub reap_stuck_inflight_jobs : Config → Env → Db → Db
unfolding update
reap_stuck_inflight_jobs cfg env db =
    if env.fault reap_inflight
    then db
    else record db { jobs = update (is_stuck_inflight cfg env.now) (time_out_row env.now) db.jobs }

-- resolveTargets repeats that of the API.
unfoldable pub resolve_targets : Env → Db → String → JobTarget → Option (List String)
resolve_targets = Targets.resolve_targets

-- The row that a scheduled job inserts for its k-th device.
unfoldable pub scheduled_row : Env → ScheduledJob → ℕ → String → Job
unfolding new_job
scheduled_row env sj k device =
    new_job env (insert_scheduled sj.id k) sj.tenant_id device sj.job_type sj.payload
      sj.retry_policy (some (text_append "scheduler:" sj.id))

-- dispatchScheduledJob: whether it returned no error, and the database.
unfoldable pub dispatch_scheduled_job : Env → ScheduledJob → Db → Bool × Db
dispatch_scheduled_job env sj db = elim sj.target [
  | none ↦ (false, db)
  | some target ↦ elim (resolve_targets env db sj.tenant_id target) [
    | none ↦ (false, db)
    | some devices ↦
        let (inserted, db') =
          insert_jobs env (insert_scheduled sj.id) (scheduled_row env sj) 0 devices [] db in
        (elim inserted [ none ↦ false | some ids ↦ true ], db')
  ]
]

abbrev is_due : ℕ → ScheduledJob → Bool
is_due now sj = sj.enabled && elim sj.next_run_at [ none ↦ false | some t ↦ leb t now ]

abbrev next_run_time : ScheduledJob → ℕ
next_run_time sj = elim sj.next_run_at [ none ↦ 0 | some t ↦ t ]

-- store.MarkScheduledJobRun
unfoldable pub mark_scheduled_job_run : Env → String → ℕ → Db → Db
unfolding update
mark_scheduled_job_run env id next db = if env.fault (mark_run id) then db else record db {
  scheduled_jobs =
      update (λ (sj : ScheduledJob). sj.id == id)
        (λ (sj : ScheduledJob). record sj { last_run_at = some env.now; next_run_at = some next })
        db.scheduled_jobs;
}

module _ (next_run : String → Option (ℕ → ℕ)) where
  -- The body of the loop over due jobs.
  unfoldable pub run_scheduled_job : Env → ScheduledJob → Db → Db
  run_scheduled_job env sj db =
      let (dispatched_all, db') = dispatch_scheduled_job env sj db in
      if not dispatched_all then db' else elim (next_run sj.cron_expr) [
        | none ↦ db'
        | some next ↦ mark_scheduled_job_run env sj.id (next env.now) db'
      ]

  unfoldable pub run_scheduled_jobs : Env → List ScheduledJob → Db → Db
  run_scheduled_jobs env [] db = db
  run_scheduled_jobs env (sj ∷ due) db = run_scheduled_jobs env due (run_scheduled_job env sj db)

  -- evaluateScheduledJobs, with store.ListDueScheduledJobs.
  unfoldable pub evaluate_scheduled_jobs : Env → Db → Db
  unfolding select order_by
  evaluate_scheduled_jobs env db =
      if env.fault list_due
      then db
      else run_scheduled_jobs env
          (order_by (λ a b. leb (next_run_time a) (next_run_time b))
            (select (is_due env.now) db.scheduled_jobs))
          db

  -- runTick, less the alerts, which change no table, and the enrollment tokens, which are in Auth.Enrollment.
  unfoldable pub run_tick : Config → Env → Db → Db
  run_tick cfg env db =
      reap_stuck_inflight_jobs cfg env
        (reap_stuck_dispatched_jobs cfg env (evaluate_scheduled_jobs env db))

-- AlertCondition, of type agent_offline.
pub record AlertCondition : Type 0 where
  pub threshold_minutes : ℕ
  pub scope : Option JobTarget

abbrev names_any : JobTarget → Bool
names_any t =
    non_empty t.device_ids || non_empty t.group_ids || non_empty t.tag_ids || non_empty t.site_ids

-- The devices that the condition's scope narrows the alert to; `none` is an error.
unfoldable pub alert_devices : Env → Db → String → AlertCondition → Option (List String)
alert_devices env db tenant cond = elim cond.scope [
  | none ↦ some []
  | some target ↦ if names_any target then resolve_targets env db tenant target else some []
]

abbrev pub is_offline : String → ℕ → ℕ → Device → Bool
is_offline tenant threshold now d =
    d.tenant_id == tenant && not (is_revoked d.status) && sent_before d.last_seen_at threshold now

-- evaluateAgentOffline up to the message: the devices that the alert lists.
unfoldable pub evaluate_agent_offline : Env → Db → String → AlertCondition → Option (List Device)
unfolding select
evaluate_agent_offline env db tenant cond = elim (alert_devices env db tenant cond) [
  | none ↦ none
  | some devices ↦
      let threshold = cond.threshold_minutes * (60 * second) in
      if env.fault list_offline
      then none
      else if non_empty devices
      then some (
          select (λ (d : Device). is_offline tenant threshold env.now d && contains d.id devices)
            db.devices)
      else some (select (is_offline tenant threshold env.now) db.devices)
]
