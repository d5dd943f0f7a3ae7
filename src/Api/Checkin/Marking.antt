-- ===== src/Api/Checkin/Marking.antt =====
-- The rows that a check-in (server/api/checkin.go) marks as dispatched.
use moebius.Prelude.{
  ℕ, ◌≤◌, String, ◌≡◌, refl, inl, inr, Bool, true, false, ◌==◌, &&-right, some, List, [], ◌∷◌, ◌++◌,
  arith, select, order_by, take, All, All-order_by, All-take, All-update, All-imp, update, leb,
  Bool-cases, update_guarded,
}
use moebius.Models.Job.{Job}
use moebius.Database.{Db, Env, dispatch_job, hold}
use moebius.Database.Evolves.{Moves, phase}
use moebius.Database.WellFormed.{Distinct}
use moebius.Database.Keeps.{Keeps, Keeps-refl, Keeps-trans, Keeps-update}
use moebius.Database.Unique.{selected-All, own_ids}
use moebius.Api.AgentJobs.{Agent}
use moebius.Api.Checkin.{
  JobDispatch, release_all, is_ready, older, fetch_queued, fetch_dispatchable_jobs, dispatch_row,
  dispatch_of, mark_dispatched,
}

-- Rows that may be marked: while they are marked, none of them has reached the agent.
abbrev pub Sendable : List Job → List Job → Type 0
Sendable js table =
    All (λ (j : Job). All (λ (r : Job). (r.id == j.id) ≡ true → phase r.status ≤ 1) table) js

dispatch_row-Moves :
    (now : ℕ) (j : Job) → leb (phase j.status) 1 ≡ true → Moves j (dispatch_row now j)
dispatch_row-Moves now j h = ground arith

mark_one-Keeps :
    (now : ℕ) (id : String) (table : List Job)
    → All (λ (r : Job). (r.id == id) ≡ true → phase r.status ≤ 1) table
    → Keeps table (update (λ r. r.id == id) (dispatch_row now) table)
mark_one-Keeps now id table h =
    rw
      (update_guarded (λ (r : Job). r.id == id) (λ r. leb (phase r.status) 1) (dispatch_row now)
        table (All-imp _ _ (λ r f e. within (phase r.status) (f e)) table h))
      (Keeps-update _ _ table (λ j e. dispatch_row-Moves now j (&&-right _ _ e)) (λ j e w. refl))
  where
    within : (n : ℕ) → n ≤ 1 → leb n 1 ≡ true
    within n p = ground arith

Sendable-update :
    (now : ℕ) (id : String) (js table : List Job)
    → Sendable js table
    → Sendable js (update (λ r. r.id == id) (dispatch_row now) table)
Sendable-update now id js table h =
    All-imp _ _ (λ j a. All-update _ _ _ table (λ r e f s. omega arith) a) js h

pub mark_dispatched-Keeps :
    (env : Env) (js : List Job) (sent : List JobDispatch) (table : List Job)
    → Sendable js table
    → Keeps table (mark_dispatched env js sent table).1
unfolding mark_dispatched
mark_dispatched-Keeps env [] sent table h = Keeps-refl table
mark_dispatched-Keeps env (j ∷ js) sent table h =
    elim (Bool-cases (env.fault (dispatch_job j.id))) [
      | inl e ↦ rw e (mark_dispatched-Keeps env js sent table h.1)
      | inr e ↦ rw e (
          Keeps-trans table (update (λ r. r.id == j.id) (dispatch_row env.now) table) _
            (mark_one-Keeps env.now j.id table h.0)
            (mark_dispatched-Keeps env js (sent ++ dispatch_of j ∷ []) _
              (Sendable-update env.now j.id js table h.1)))
    ]

ready-phase : (agent : Agent) (j : Job) → is_ready agent j ≡ true → phase j.status ≤ 1
ready-phase agent j h = ground arith

-- What is fetched may be marked.
fetched-Sendable :
    (agent : Agent) (table : List Job)
    → Distinct table
    → Sendable (take 10 (order_by older (select (is_ready agent) table))) table
fetched-Sendable agent table d = All-take _ 10 _ (
    All-order_by _ older (select (is_ready agent) table) (
      All-imp _ _
        (λ j c.
          All-imp _ _ (λ r f e. ready-phase agent r (f e)) table
            (selected-All j.id (is_ready agent) table d c))
        (select (is_ready agent) table) (own_ids (select (is_ready agent) table))))

pub fetch_queued-eq :
    (env : Env) (agent : Agent) (db : Db) (js : List Job)
    → fetch_queued env agent db ≡ some js
    → js ≡ take 10 (order_by older (select (is_ready agent) db.jobs))
unfolding fetch_queued
fetch_queued-eq env agent db js e = ground arith

fetch_queued-Sendable :
    (env : Env) (agent : Agent) (db : Db) (js : List Job)
    → Distinct db.jobs
    → fetch_queued env agent db ≡ some js
    → Sendable js db.jobs
fetch_queued-Sendable env agent db js d e =
    rw (fetch_queued-eq env agent db js e) (fetched-Sendable agent db.jobs d)

pub fetch_dispatchable_jobs-Sendable :
    (env : Env) (agent : Agent) (enabled active : Bool) (db : Db) (js : List Job)
    → Distinct (fetch_dispatchable_jobs env agent enabled active db).1.jobs
    → (fetch_dispatchable_jobs env agent enabled active db).0 ≡ some js
    → Sendable js (fetch_dispatchable_jobs env agent enabled active db).1.jobs
unfolding fetch_dispatchable_jobs
fetch_dispatchable_jobs-Sendable env agent true false db js d e =
    elim (Bool-cases (env.fault hold)) [
      | inl f ↦ ground (arith, f)
      | inr f ↦ let nothing : js ≡ [] = ground (arith, f) in rw nothing tt
    ]
fetch_dispatchable_jobs-Sendable env agent true true db js d e =
    fetch_queued-Sendable env agent (release_all env agent db) js d e
fetch_dispatchable_jobs-Sendable env agent false false db js d e =
    fetch_queued-Sendable env agent db js d e
fetch_dispatchable_jobs-Sendable env agent false true db js d e =
    fetch_queued-Sendable env agent db js d e
