-- ===== src/Api/Checkin/Answer.antt =====
-- What the answer to a check-in (server/api/checkin.go) says of the table of jobs it leaves.
use moebius.Prelude.{
  ℕ, subst, ◌≤◌, ◌≡◌, refl, inl, inr, Bool, true, false, ◌||◌, ◌==◌, Option, none, some,
  Option-cases, List, [], ◌∷◌, arith, select, order_by, map, length, length-take-le, All, All-imp,
  Bool-cases, contains, find, find-All, find-true, eq_iff, String, &&-left, &&-right,
}
use moebius.Models.Job.{Job, dispatched}
use moebius.Database.{Db, Env, hold, update_device}
use moebius.Database.WellFormed.{Distinct}
use moebius.Database.Keeps.{ids}
use moebius.Api.Respond.{Response, reply, error, error_status}
use moebius.Api.AgentJobs.{Agent}
use moebius.Api.Checkin.{
  AgentStatus, CheckinRequest, JobDispatch, CheckinResponse, is_ready, older, fetch_queued,
  release_all, fetch_dispatchable_jobs, mark_dispatched, checkin_touched, send_jobs, checkin,
}
use moebius.Api.Checkin.Effects.{fetch_dispatchable_jobs-Keeps, checkin_touched-Keeps}
use moebius.Api.Checkin.Marking.{fetch_queued-eq}
use moebius.Api.Checkin.Dispatch.{
  IsSent, IsFetched, selected-IsFetched, mark_dispatched-IsSent, length-mark_dispatched,
}

-- The list that is fetched, in the table that the fetch leaves.
abbrev Fetched : Agent → List Job → List Job → Type 0
Fetched agent js table = All (IsFetched agent table) js × (length js ≤ 10)

fetch_queued-Fetched :
    (env : Env) (agent : Agent) (db : Db) (js : List Job)
    → Distinct db.jobs
    → fetch_queued env agent db ≡ some js
    → Fetched agent js db.jobs
fetch_queued-Fetched env agent db js d e = rw (fetch_queued-eq env agent db js e) (
  selected-IsFetched agent db.jobs d,
  length-take-le 10 (order_by older (select (is_ready agent) db.jobs)),
)

fetch_dispatchable_jobs-Fetched :
    (env : Env) (agent : Agent) (enabled active : Bool) (db : Db) (js : List Job)
    → Distinct (fetch_dispatchable_jobs env agent enabled active db).1.jobs
    → (fetch_dispatchable_jobs env agent enabled active db).0 ≡ some js
    → Fetched agent js (fetch_dispatchable_jobs env agent enabled active db).1.jobs
unfolding fetch_dispatchable_jobs
fetch_dispatchable_jobs-Fetched env agent true false db js d e =
    elim (Bool-cases (env.fault hold)) [
      | inl f ↦ ground (arith, f)
      | inr f ↦ let nothing : js ≡ [] = ground (arith, f) in rw nothing (tt, omega arith)
    ]
fetch_dispatchable_jobs-Fetched env agent true true db js d e =
    fetch_queued-Fetched env agent (release_all env agent db) js d e
fetch_dispatchable_jobs-Fetched env agent false false db js d e =
    fetch_queued-Fetched env agent db js d e
fetch_dispatchable_jobs-Fetched env agent false true db js d e =
    fetch_queued-Fetched env agent db js d e

-- The jobs that an answer carries.
abbrev pub sent_jobs : Response CheckinResponse → List JobDispatch
sent_jobs (reply status body) = body.jobs
sent_jobs (error status code) = []

-- The row of a job that was sent is the agent's, and marked as sent at that time.
abbrev pub IsMarked : Agent → ℕ → List Job → JobDispatch → Type 0
IsMarked agent now table d =
    (r : Job) × (find (λ (j : Job). j.id == d.job_id) table ≡ some r)
    × (r.status ≡ dispatched)
    × (r.dispatched_at ≡ some now)
    × (r.device_id ≡ agent.agent_id)
    × (r.tenant_id ≡ agent.tenant_id)
    × (r.kind ≡ d.kind)
    × (r.payload ≡ d.payload)

contains-found :
    (id : String) (xs : List Job)
    → contains id (ids xs) ≡ true
    → (r : Job) × (find (λ (j : Job). j.id == id) xs ≡ some r)
unfolding contains find
contains-found id [] h = absurd (ground arith)
contains-found id (x ∷ xs) h = elim (Bool-cases (x.id == id)) [
  | inl e ↦ (x, rw e refl)
  | inr e ↦ let (r, f) = contains-found id xs (ground (arith, e)) in (r, rw e f)
]

IsSent-IsMarked :
    (agent : Agent) (now : ℕ) (table : List Job) (d : JobDispatch)
    → IsSent agent now table d
    → IsMarked agent now table d
IsSent-IsMarked agent now table d (c, a) =
    let (r, f) = contains-found d.job_id table c in
    let (s, t, (o, k, p)) =
      find-All _ (λ (j : Job). j.id == d.job_id) table {x = r} a f
        (find-true (λ (j : Job). j.id == d.job_id) table {x = r} f) in
    (
      r,
      f,
      s,
      t,
      (eq_iff r.device_id agent.agent_id).0 (&&-left _ _ o),
      (eq_iff r.tenant_id agent.tenant_id).0 (&&-right _ _ o),
      k,
      p,
    )

-- At most ten jobs, each marked as sent.
abbrev pub IsAnswer : Agent → ℕ → List JobDispatch → List Job → Type 0
IsAnswer agent now sent table = All (IsMarked agent now table) sent × (length sent ≤ 10)

marked-IsAnswer :
    (env : Env) (agent : Agent) (js table : List Job)
    → Fetched agent js table
    → IsAnswer agent env.now (mark_dispatched env js [] table).0 (mark_dispatched env js [] table).1
marked-IsAnswer env agent js table h = (
  All-imp _ _ (λ d m. IsSent-IsMarked agent env.now _ d m) _
      (mark_dispatched-IsSent env agent js [] table h.0 tt),
  omega (arith, h.1, length-mark_dispatched env js [] table),
)

send_jobs-IsAnswer :
    (env : Env) (agent : Agent) (st : AgentStatus) (db : Db)
    → Distinct db.jobs
    → IsAnswer agent env.now
        (sent_jobs (send_jobs env agent st db).0)
        (send_jobs env agent st db).1.jobs
send_jobs-IsAnswer env agent st db d =
    elim (Option-cases
      (fetch_dispatchable_jobs env agent st.cdm_enabled st.cdm_session_active db).0) [
        | inl e ↦ unfold send_jobs error_status in rw (e, send_jobs) (tt, omega arith)
        | inr (js, e) ↦
            unfold send_jobs in
            rw (e, send_jobs)
              (marked-IsAnswer env agent js _ (
                fetch_dispatchable_jobs-Fetched env agent st.cdm_enabled st.cdm_session_active db js
                  ((fetch_dispatchable_jobs-Keeps env agent st.cdm_enabled st.cdm_session_active
                      db).distinct
                    d)
                  e))
      ]

-- If the identifiers in the table of jobs are distinct, then a check-in answers with at most ten
-- jobs, and the one row of each of them, in the table that the check-in leaves, is of the agent's
-- device and tenant, has the kind and the payload that are sent, and is marked as dispatched at
-- the time of the check-in.
pub checkin-IsAnswer :
    (env : Env) (agent : Agent) (req : Option CheckinRequest) (db : Db)
    → Distinct db.jobs
    → IsAnswer agent env.now
        (sent_jobs (checkin env agent req db).0)
        (checkin env agent req db).1.jobs
unfolding checkin error_status
checkin-IsAnswer env agent none db d =
    elim (Bool-cases (agent.agent_id == "" || agent.tenant_id == "")) [
      | inl e ↦ rw e (tt, omega arith)
      | inr e ↦ rw e (tt, omega arith)
    ]
checkin-IsAnswer env agent (some req) db d =
    elim (Bool-cases (agent.agent_id == "" || agent.tenant_id == "")) [
      | inl e ↦ rw e (tt, omega arith)
      | inr e ↦ elim (Bool-cases (env.fault update_device)) [
        | inl f ↦ rw (e, f) (tt, omega arith)
        | inr f ↦
            rw (e, f)
              (send_jobs-IsAnswer env agent req.status (checkin_touched env agent req db)
                ((checkin_touched-Keeps env agent req db).distinct d))
      ]
    ]

same_row :
    (found : Option Job) (r j : Job)
    → found ≡ some r
    → r.status ≡ dispatched
    → found ≡ some j
    → j.status ≡ dispatched
same_row found r j g s f = ground arith

-- The jobs that an answer carries have a row that is marked as dispatched.
pub sent-dispatched :
    (agent : Agent) (now : ℕ) (id : String) (sent : List JobDispatch) (table : List Job) (j : Job)
    → All (IsMarked agent now table) sent
    → contains id (map (λ (d : JobDispatch). d.job_id) sent) ≡ true
    → find (λ (r : Job). r.id == id) table ≡ some j
    → j.status ≡ dispatched
unfolding contains
sent-dispatched agent now id [] table j h c f = absurd (ground arith)
sent-dispatched agent now id (d ∷ sent) table j h c f = elim (Bool-cases (d.job_id == id)) [
  | inl e ↦
      let marked =
        subst
          (λ a.
            (r : Job) × (find (λ (i : Job). i.id == a) table ≡ some r) × (r.status ≡ dispatched))
          ((eq_iff d.job_id id).0 e) ((h.0).0, (h.0).1, (h.0).2) in
      same_row (find (λ (r : Job). r.id == id) table) (marked.0) j marked.1 marked.2 f
  | inr e ↦ sent-dispatched agent now id sent table j h.1 (ground (arith, e)) f
]
