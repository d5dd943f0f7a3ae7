-- ===== src/Server/Delivery.antt =====
-- Which jobs a check-in may send at the end of a history (server/api/checkin.go).
use moebius.Prelude.{
  ◌≤◌, String, ◌≡◌, inl, inr, false, ◌==◌, Bool-cases, Option, some, List, contains, find, map,
  arith,
}
use moebius.Models.Job.{Job, JobStatus, dispatched}
use moebius.Database.{Db, Env}
use moebius.Database.Evolves.{phase}
use moebius.Database.WellFormed.{Distinct}
use moebius.Api.AgentJobs.{Agent}
use moebius.Api.Checkin.{CheckinRequest, JobDispatch, checkin}
use moebius.Api.Checkin.Effects.{checkin-Keeps}
use moebius.Api.Checkin.Answer.{sent_jobs, checkin-IsAnswer, sent-dispatched}
use moebius.Server.{Request, Setup, run}
use moebius.Server.History.{run-Keeps, run-find, Evolves-find}

-- The identifiers of the jobs that a check-in sends.
abbrev pub sent_ids : Env → Agent → Option CheckinRequest → Db → List String
sent_ids env agent req db =
    map (λ (d : JobDispatch). d.job_id) (sent_jobs (checkin env agent req db).0)

dispatched-phase : (s : JobStatus) → s ≡ dispatched → phase s ≤ 1
dispatched-phase s h = ground arith

-- One check-in does not send a job that is in its agent's hands or finished.
checkin-acknowledged :
    (env : Env) (agent : Agent) (req : Option CheckinRequest) (db : Db) (id : String) (j : Job)
    → Distinct db.jobs
    → find (λ r. r.id == id) db.jobs ≡ some j
    → 2 ≤ phase j.status
    → contains id (sent_ids env agent req db) ≡ false
checkin-acknowledged env agent req db id j d f p =
    elim (Bool-cases (contains id (sent_ids env agent req db))) [
      | inl c ↦
          let table = (checkin env agent req db).1.jobs in
          let (j', g, m) =
            Evolves-find id db.jobs table j (checkin-Keeps env agent req db d).evolves f in
          absurd (
            omega (
              arith,
              m.forward,
              dispatched-phase j'.status (
                  sent-dispatched agent env.now id (sent_jobs (checkin env agent req db).0) table j'
                    (checkin-IsAnswer env agent req db d).0 c g),
            ))
      | inr n ↦ n
    ]

-- If the identifiers in the table of jobs are distinct and a job has been acknowledged or is
-- finished, then after any history of requests no check-in of any agent sends it.
pub run-acknowledged :
    (s : Setup) (rs : List (Env × Request)) (db : Db) (env : Env) (agent : Agent)
    (req : Option CheckinRequest) (id : String) (j : Job)
    → Distinct db.jobs
    → find (λ r. r.id == id) db.jobs ≡ some j
    → 2 ≤ phase j.status
    → contains id (sent_ids env agent req (run s rs db)) ≡ false
run-acknowledged s rs db env agent req id j d f p =
    let (j', g, m) = run-find s rs db id j d f in
    checkin-acknowledged env agent req (run s rs db) id j' ((run-Keeps s rs db d).distinct d) g
      (omega (arith, m.forward))
