-- ===== src/Api/Checkin/Gate.antt =====
-- Customer Device Mode at a check-in (server/api/checkin.go).
use moebius.Prelude.{◌≡◌, true, false, ◌&&◌, ◌||◌, ◌==◌, some, List, [], ◌∷◌, arith, All, update}
use moebius.Models.Job.{Job, queued, eq_status}
use moebius.Database.{Db, Env, hold, update_device}
use moebius.Api.Respond.{error_status}
use moebius.Api.AgentJobs.{Agent}
use moebius.Api.Checkin.{
  AgentStatus, CheckinRequest, is_device_job, is_ready, hold_all, hold_row, fetch_dispatchable_jobs,
  mark_dispatched, checkin_touched, send_jobs, checkin,
}
use moebius.Api.Checkin.Answer.{sent_jobs}

held-none :
    (agent : Agent) (xs : List Job)
    → All
        (λ j. is_ready agent j ≡ false)
        (update (λ (j : Job). is_device_job agent j && eq_status j.status queued) hold_row xs)
unfolding update
held-none agent [] = tt
held-none agent (x ∷ xs) = (ground arith, held-none agent xs)

hold_all-none :
    (agent : Agent) (db : Db) → All (λ j. is_ready agent j ≡ false) (hold_all agent db).jobs
unfolding hold_all
hold_all-none agent db = held-none agent db.jobs

-- Without a session, what is sent is nothing; and the queue is held if the statement succeeds.
send_jobs-held :
    (env : Env) (agent : Agent) (st : AgentStatus) (db : Db)
    → st.cdm_enabled ≡ true
    → st.cdm_session_active ≡ false
    → sent_jobs (send_jobs env agent st db).0 ≡ []
unfolding send_jobs fetch_dispatchable_jobs error_status mark_dispatched
send_jobs-held env agent st db e a = ground arith

send_jobs-none :
    (env : Env) (agent : Agent) (st : AgentStatus) (db : Db)
    → st.cdm_enabled ≡ true
    → st.cdm_session_active ≡ false
    → env.fault hold ≡ false
    → All (λ j. is_ready agent j ≡ false) (send_jobs env agent st db).1.jobs
unfolding send_jobs fetch_dispatchable_jobs mark_dispatched
send_jobs-none env agent st db e a h = ground (arith, hold_all-none agent db)

-- If the agent reports Customer Device Mode without an active session, the check-in sends no job.
pub checkin-held :
    (env : Env) (agent : Agent) (req : CheckinRequest) (db : Db)
    → req.status.cdm_enabled ≡ true
    → req.status.cdm_session_active ≡ false
    → sent_jobs (checkin env agent (some req) db).0 ≡ []
unfolding checkin error_status
checkin-held env agent req db e a =
    ground (arith, send_jobs-held env agent req.status (checkin_touched env agent req db) e a)

-- If the agent reports Customer Device Mode without an active session, identifies itself, and
-- neither the update of the device nor the hold fails, then no job of the agent is left in the
-- queue by the check-in.
pub checkin-holds :
    (env : Env) (agent : Agent) (req : CheckinRequest) (db : Db)
    → req.status.cdm_enabled ≡ true
    → req.status.cdm_session_active ≡ false
    → (agent.agent_id == "" || agent.tenant_id == "") ≡ false
    → env.fault update_device ≡ false
    → env.fault hold ≡ false
    → All (λ j. is_ready agent j ≡ false) (checkin env agent (some req) db).1.jobs
unfolding checkin
checkin-holds env agent req db e a i u h =
    rw (i, u) (send_jobs-none env agent req.status (checkin_touched env agent req db) e a h)
