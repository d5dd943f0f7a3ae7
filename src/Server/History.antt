-- ===== src/Server/History.antt =====
-- What holds of the table of jobs along every history of requests.
use moebius.Prelude.{
  ◌≤◌, String, ◌≡◌, refl, sym, inl, inr, true, ◌==◌, some, List, [], ◌∷◌, arith, find, All,
  Bool-cases,
}
use moebius.Models.Job.{Job, JobStatus, is_terminal_status}
use moebius.Database.{Db, Env}
use moebius.Database.Evolves.{Moves, phase, Evolves}
use moebius.Database.WellFormed.{WellFormed, Distinct}
use moebius.Database.Keeps.{Keeps, Keeps-refl, Keeps-trans}
use moebius.Api.Jobs.Effects.{create-Keeps, cancel-Keeps, retry-Keeps}
use moebius.Api.AgentJobs.Effects.{acknowledge-Keeps, submit_result-Keeps}
use moebius.Api.Checkin.Effects.{checkin-Keeps}
use moebius.Scheduler.Effects.{run_tick-Keeps}
use moebius.Store.Devices.Effects.{store_revoke_device-Keeps, rollback-Keeps}
use moebius.Server.{
  Request, Setup, post_job, post_cancel, post_retry, post_checkin, post_acknowledge, post_result,
  post_revoke, post_rollback, tick, handle, run,
}

-- One request keeps the table.
pub handle-Keeps :
    (s : Setup) (env : Env) (r : Request) (db : Db)
    → Distinct db.jobs
    → Keeps db.jobs (handle s env r db).jobs
unfolding handle
handle-Keeps s env (post_job caller req) db d = create-Keeps s.quota caller env req db
handle-Keeps s env (post_cancel caller id) db d = cancel-Keeps caller env id db
handle-Keeps s env (post_retry caller id) db d = retry-Keeps s.quota caller env id db
handle-Keeps s env (post_checkin agent req) db d = checkin-Keeps env agent req db d
handle-Keeps s env (post_acknowledge agent id) db d = acknowledge-Keeps agent env id db d
handle-Keeps s env (post_result agent id req) db d =
    submit_result-Keeps s.parse_inventory agent env id req db
handle-Keeps s env (post_revoke tenant device reason) db d =
    store_revoke_device-Keeps env tenant device reason db
handle-Keeps s env (post_rollback caller device reason) db d =
    rollback-Keeps s.encode_reason caller env device reason db
handle-Keeps s env tick db d = run_tick-Keeps s.next_run s.scheduler env db

-- A history keeps the table.
pub run-Keeps :
    (s : Setup) (rs : List (Env × Request)) (db : Db)
    → Distinct db.jobs
    → Keeps db.jobs (run s rs db).jobs
unfolding run
run-Keeps s [] db d = Keeps-refl db.jobs
run-Keeps s ((env, r) ∷ rs) db d =
    let first = handle-Keeps s env r db d in
    Keeps-trans db.jobs (handle s env r db).jobs _ first
      (run-Keeps s rs (handle s env r db) (first.distinct d))

-- If the identifiers in the table of jobs are distinct, then along any history of requests every
-- row stays in its place with its identity, payload and retry counters, no row goes back to an
-- earlier phase, and the rows that are appended are in the queue or beyond.
pub run-Evolves :
    (s : Setup) (rs : List (Env × Request)) (db : Db)
    → Distinct db.jobs
    → Evolves db.jobs (run s rs db).jobs
run-Evolves s rs db d = (run-Keeps s rs db d).evolves

-- If the identifiers in the table of jobs are distinct and every row has a status that the code
-- stores, with the timestamps that go with it, then so it is after any history of requests.
pub run-WellFormed :
    (s : Setup) (rs : List (Env × Request)) (db : Db)
    → Distinct db.jobs
    → All WellFormed db.jobs
    → All WellFormed (run s rs db).jobs × Distinct (run s rs db).jobs
run-WellFormed s rs db d w = ((run-Keeps s rs db d).well_formed w, (run-Keeps s rs db d).distinct d)

pub Evolves-find :
    (id : String) (xs ys : List Job) (j : Job)
    → Evolves xs ys
    → find (λ r. r.id == id) xs ≡ some j
    → (j' : Job) × (find (λ r. r.id == id) ys ≡ some j') × Moves j j'
unfolding find
Evolves-find id [] ys j e f = absurd (ground (arith, f))
Evolves-find id (x ∷ xs) [] j e f = absurd e
Evolves-find id (x ∷ xs) (y ∷ ys) j e f = elim (Bool-cases (x.id == id)) [
  | inl h ↦
      let same : x ≡ j = ground (arith, h) in (y, rw ((e.0).same_id, h) refl, rw (sym same) e.0)
  | inr h ↦
      let (j', g, m) = Evolves-find id xs ys j e.1 (ground (arith, h)) in
      (j', rw ((e.0).same_id, h) g, m)
]

pub phase-terminal : (s : JobStatus) → 3 ≤ phase s → is_terminal_status s ≡ true
unfolding is_terminal_status
phase-terminal s h = ground arith

pub terminal-phase : (s : JobStatus) → is_terminal_status s ≡ true → phase s ≡ 3
unfolding is_terminal_status
terminal-phase s h = ground arith

-- A row that a history starts from is there at its end, in a phase that is not before.
pub run-find :
    (s : Setup) (rs : List (Env × Request)) (db : Db) (id : String) (j : Job)
    → Distinct db.jobs
    → find (λ r. r.id == id) db.jobs ≡ some j
    → (j' : Job) × (find (λ r. r.id == id) (run s rs db).jobs ≡ some j') × Moves j j'
run-find s rs db id j d f =
    Evolves-find id db.jobs (run s rs db).jobs j (run-Keeps s rs db d).evolves f

-- If the identifiers in the table of jobs are distinct and a row has a terminal status, then
-- after any history of requests the row is still there, for the same tenant and device, and its
-- status is terminal.
pub run-terminal :
    (s : Setup) (rs : List (Env × Request)) (db : Db) (id : String) (j : Job)
    → Distinct db.jobs
    → find (λ r. r.id == id) db.jobs ≡ some j
    → is_terminal_status j.status ≡ true
    → (j' : Job) × (find (λ r. r.id == id) (run s rs db).jobs ≡ some j')
      × (is_terminal_status j'.status ≡ true)
      × (j'.tenant_id ≡ j.tenant_id)
      × (j'.device_id ≡ j.device_id)
run-terminal s rs db id j d f t =
    let (j', g, m) = run-find s rs db id j d f in
    (
      j',
      g,
      phase-terminal j'.status (omega (arith, m.forward, terminal-phase j.status t)),
      m.same_tenant,
      m.same_device,
    )
