-- ===== src/Api/Checkin/Effects.antt =====
-- What a check-in (server/api/checkin.go) does to the table of jobs, on every branch.
use moebius.Prelude.{
  ◌≡◌, refl, inl, inr, Bool, true, ◌&&◌, &&-right, Option, none, some, Option-cases, [], arith,
}
use moebius.Models.Job.{Job, queued, cdm_hold, dispatched, eq_status}
use moebius.Database.{Db, Env, jobs-log_action}
use moebius.Database.Evolves.{Moves, phase-le}
use moebius.Database.WellFormed.{WellFormed, Distinct}
use moebius.Database.Keeps.{Keeps, Keeps-refl, Keeps-trans, Keeps-update}
use moebius.Models.Inventory.{PackageDelta}
use moebius.Api.AgentJobs.{Agent}
use moebius.Api.Checkin.Marking.{mark_dispatched-Keeps, fetch_dispatchable_jobs-Sendable}
use moebius.Api.Checkin.{
  AgentStatus, CheckinRequest, is_reported, fail_row, report_failed_update, touch_device,
  apply_delta, is_device_job, sent_before, requeue_row, requeue_stale, hold_row, release_row,
  hold_all, release_all, fetch_dispatchable_jobs, checkin_touched, send_jobs, checkin,
}

report_failed_update-Keeps :
    (env : Env) (agent : Agent) (st : AgentStatus) (db : Db)
    → Keeps db.jobs (report_failed_update env agent st db).jobs
unfolding report_failed_update
report_failed_update-Keeps env agent st db = grind (
  arith,
  Keeps-refl db.jobs,
  Keeps-update (is_reported agent st.last_update_job_id) (fail_row env.now st.last_update_error)
      db.jobs (λ j h. failing j) (λ j h w. refl),
  jobs-log_action,
)
  where
    failing : (j : Job) → Moves j (fail_row env.now st.last_update_error j)
    failing j = ground (arith, phase-le j.status)

requeue_row-Moves : (j : Job) → eq_status j.status dispatched ≡ true → Moves j (requeue_row j)
requeue_row-Moves j h = ground arith

requeue_stale-Keeps :
    (env : Env) (agent : Agent) (db : Db) → Keeps db.jobs (requeue_stale env agent db).jobs
unfolding requeue_stale
requeue_stale-Keeps env agent db = ground (
  arith,
  Keeps-refl db.jobs,
  Keeps-update
      (λ (j : Job).
        is_device_job agent j
        && eq_status j.status dispatched
        && sent_before j.dispatched_at 60000000000 env.now)
      requeue_row db.jobs (λ j h. requeue_row-Moves j (was_sent j h)) (λ j h w. refl),
)
  where
    was_sent :
        (j : Job)
        → (is_device_job agent j
            && eq_status j.status dispatched
            && sent_before j.dispatched_at 60000000000 env.now)
          ≡ true
        → eq_status j.status dispatched ≡ true
    was_sent j h = ground arith

hold_row-Moves : (j : Job) → eq_status j.status queued ≡ true → Moves j (hold_row j)
hold_row-Moves j h = ground arith

hold_row-WellFormed :
    (j : Job) → eq_status j.status queued ≡ true → WellFormed j → WellFormed (hold_row j)
hold_row-WellFormed j h w = ground arith

release_row-Moves : (j : Job) → eq_status j.status cdm_hold ≡ true → Moves j (release_row j)
release_row-Moves j h = ground arith

release_row-WellFormed :
    (j : Job) → eq_status j.status cdm_hold ≡ true → WellFormed j → WellFormed (release_row j)
release_row-WellFormed j h w = ground arith

hold_all-Keeps : (agent : Agent) (db : Db) → Keeps db.jobs (hold_all agent db).jobs
unfolding hold_all
hold_all-Keeps agent db =
    Keeps-update _ hold_row db.jobs (λ j h. hold_row-Moves j (&&-right _ _ h))
      (λ j h w. hold_row-WellFormed j (&&-right _ _ h) w)

release_all-Keeps :
    (env : Env) (agent : Agent) (db : Db) → Keeps db.jobs (release_all env agent db).jobs
unfolding release_all
release_all-Keeps env agent db = ground (
  arith,
  Keeps-refl db.jobs,
  Keeps-update (λ (j : Job). is_device_job agent j && eq_status j.status cdm_hold) release_row
      db.jobs (λ j h. release_row-Moves j (was_held j h))
      (λ j h w. release_row-WellFormed j (was_held j h) w),
)
  where
    was_held :
        (j : Job)
        → (is_device_job agent j && eq_status j.status cdm_hold) ≡ true
        → eq_status j.status cdm_hold ≡ true
    was_held j h = ground arith

pub fetch_dispatchable_jobs-Keeps :
    (env : Env) (agent : Agent) (enabled active : Bool) (db : Db)
    → Keeps db.jobs (fetch_dispatchable_jobs env agent enabled active db).1.jobs
unfolding fetch_dispatchable_jobs
fetch_dispatchable_jobs-Keeps env agent enabled active db =
    ground (arith, Keeps-refl db.jobs, hold_all-Keeps agent db, release_all-Keeps env agent db)

jobs-touch_device :
    (env : Env) (agent : Agent) (req : CheckinRequest) (db : Db)
    → (touch_device env agent req db).jobs ≡ db.jobs
unfolding touch_device
jobs-touch_device env agent req db = refl

jobs-apply_delta :
    (env : Env) (agent : Agent) (delta : Option PackageDelta) (db : Db)
    → (apply_delta env agent delta db).jobs ≡ db.jobs
unfolding apply_delta
jobs-apply_delta env agent none db = refl
jobs-apply_delta env agent (some delta) db = refl

pub checkin_touched-Keeps :
    (env : Env) (agent : Agent) (req : CheckinRequest) (db : Db)
    → Keeps db.jobs (checkin_touched env agent req db).jobs
unfolding touch_device
checkin_touched-Keeps env agent req db =
    let touched = touch_device env agent req db in
    let reported = report_failed_update env agent req.status touched in
    let stocked = apply_delta env agent req.packages reported in
    let told : Keeps db.jobs stocked.jobs =
      rw (jobs-apply_delta env agent req.packages reported)
        (report_failed_update-Keeps env agent req.status touched) in
    unfold checkin_touched in
    Keeps-trans db.jobs stocked.jobs _ told (requeue_stale-Keeps env agent stocked)

send_jobs-Keeps :
    (env : Env) (agent : Agent) (st : AgentStatus) (db : Db)
    → Distinct db.jobs
    → Keeps db.jobs (send_jobs env agent st db).1.jobs
send_jobs-Keeps env agent st db d =
    elim (Option-cases
      (fetch_dispatchable_jobs env agent st.cdm_enabled st.cdm_session_active db).0) [
        | inl e ↦ unfold send_jobs in rw (e, send_jobs) fetched
        | inr (js, e) ↦
            unfold send_jobs in
            rw (e, send_jobs)
              (Keeps-trans db.jobs _ _ fetched (
                mark_dispatched-Keeps env js [] _ (
                  fetch_dispatchable_jobs-Sendable env agent st.cdm_enabled st.cdm_session_active db
                    js (fetched.distinct d) e)))
      ]
  where
    fetched :
        Keeps db.jobs
          (fetch_dispatchable_jobs env agent st.cdm_enabled st.cdm_session_active db).1.jobs
    fetched = fetch_dispatchable_jobs-Keeps env agent st.cdm_enabled st.cdm_session_active db

pub checkin-Keeps :
    (env : Env) (agent : Agent) (req : Option CheckinRequest) (db : Db)
    → Distinct db.jobs
    → Keeps db.jobs (checkin env agent req db).1.jobs
unfolding checkin
checkin-Keeps env agent none db d = ground (arith, Keeps-refl db.jobs)
checkin-Keeps env agent (some req) db d =
    let touched = checkin_touched env agent req db in
    let first = checkin_touched-Keeps env agent req db in
    ground (
      arith,
      Keeps-refl db.jobs,
      Keeps-trans db.jobs touched.jobs _ first
          (send_jobs-Keeps env agent req.status touched (first.distinct d)),
    )
