-- ===== src/Api/Checkin/Dispatch.antt =====
-- Which jobs a check-in (server/api/checkin.go) sends to an agent.
use moebius.Prelude.{
  ℕ, ◌+◌, ◌≤◌, String, ◌≡◌, refl, inl, inr, Bool, true, ◌==◌, &&-left, some, List, [], ◌∷◌, ◌++◌,
  arith, select, select-All, order_by, take, length, length-append, All, All-append, All-select,
  All-order_by, All-take, All-update, All-imp, All-zip, contains, update, Bool-cases,
}
use moebius.Models.Job.{Job, JobType, dispatched}
use moebius.Database.{Env, dispatch_job}
use moebius.Database.WellFormed.{Distinct}
use moebius.Database.Keeps.{ids}
use moebius.Database.Unique.{own_ids, own_rows}
use moebius.Api.AgentJobs.{Agent}
use moebius.Api.Checkin.{
  JobDispatch, is_device_job, is_ready, older, dispatch_row, dispatch_of, mark_dispatched,
}

-- The row that a dispatch was read from.
abbrev pub HasSource : Agent → JobType → String → Job → Type 0
HasSource agent kind payload r =
    (is_device_job agent r ≡ true) × (r.kind ≡ kind) × (r.payload ≡ payload)

-- The one row of the job is the agent's and marked as sent now.
abbrev pub IsSent : Agent → ℕ → List Job → JobDispatch → Type 0
IsSent agent now table d =
    (contains d.job_id (ids table) ≡ true)
    × All
        (λ (r : Job).
          (r.id == d.job_id) ≡ true
          → (r.status ≡ dispatched)
            × (r.dispatched_at ≡ some now)
            × HasSource agent d.kind d.payload r)
        table

abbrev pub IsFetched : Agent → List Job → Job → Type 0
IsFetched agent table j =
    (contains j.id (ids table) ≡ true)
    × All (λ (r : Job). (r.id == j.id) ≡ true → HasSource agent j.kind j.payload r) table

ids-mark :
    (now : ℕ) (id : String) (table : List Job)
    → ids (update (λ r. r.id == id) (dispatch_row now) table) ≡ ids table
unfolding update
ids-mark now id [] = refl
ids-mark now id (x ∷ xs) = ground (arith, ids-mark now id xs)

IsSent-mark :
    (agent : Agent) (now : ℕ) (id : String) (table : List Job) (d : JobDispatch)
    → IsSent agent now table d
    → IsSent agent now (update (λ r. r.id == id) (dispatch_row now) table) d
IsSent-mark agent now id table d h =
    (rw (ids-mark now id table) h.0, All-update _ _ _ table (λ r e f s. (refl, refl, (f s).2)) h.1)

IsFetched-mark :
    (agent : Agent) (now : ℕ) (id : String) (table : List Job) (j : Job)
    → IsFetched agent table j
    → IsFetched agent (update (λ r. r.id == id) (dispatch_row now) table) j
IsFetched-mark agent now id table j h =
    (rw (ids-mark now id table) h.0, All-update _ _ _ table (λ r e f s. f s) h.1)

-- Every row of the id is marked by the UPDATE.
mark-All :
    (agent : Agent) (now : ℕ) (j : Job) (table : List Job)
    → All (λ (r : Job). (r.id == j.id) ≡ true → HasSource agent j.kind j.payload r) table
    → All
        (λ (r : Job).
          (r.id == j.id) ≡ true
          → (r.status ≡ dispatched)
            × (r.dispatched_at ≡ some now)
            × HasSource agent j.kind j.payload r)
        (update (λ r. r.id == j.id) (dispatch_row now) table)
unfolding update
mark-All agent now j [] h = tt
mark-All agent now j (x ∷ xs) h = elim (Bool-cases (x.id == j.id)) [
  | inl e ↦ (rw e (λ s. (refl, refl, h.0 e)), mark-All agent now j xs h.1)
  | inr e ↦ (rw e (λ s. cc), mark-All agent now j xs h.1)
]

mark-IsSent :
    (agent : Agent) (now : ℕ) (j : Job) (table : List Job)
    → IsFetched agent table j
    → IsSent agent now (update (λ r. r.id == j.id) (dispatch_row now) table) (dispatch_of j)
mark-IsSent agent now j table h = (rw (ids-mark now j.id table) h.0, mark-All agent now j table h.1)

pub mark_dispatched-IsSent :
    (env : Env) (agent : Agent) (js : List Job) (sent : List JobDispatch) (table : List Job)
    → All (IsFetched agent table) js
    → All (IsSent agent env.now table) sent
    → All
        (IsSent agent env.now (mark_dispatched env js sent table).1)
        (mark_dispatched env js sent table).0
unfolding mark_dispatched
mark_dispatched-IsSent env agent [] sent table f h = h
mark_dispatched-IsSent env agent (j ∷ js) sent table f h =
    let marked = update (λ r. r.id == j.id) (dispatch_row env.now) table in
    elim (Bool-cases (env.fault (dispatch_job j.id))) [
      | inl e ↦ rw e (mark_dispatched-IsSent env agent js sent table f.1 h)
      | inr e ↦ rw e (
          mark_dispatched-IsSent env agent js (sent ++ dispatch_of j ∷ []) marked
            (All-imp _ _ (λ i g. IsFetched-mark agent env.now j.id table i g) js f.1)
            (All-append _ sent (dispatch_of j ∷ [])
              (All-imp _ _ (λ d g. IsSent-mark agent env.now j.id table d g) sent h)
              (mark-IsSent agent env.now j table f.0, tt)))
    ]

pub length-mark_dispatched :
    (env : Env) (js : List Job) (sent : List JobDispatch) (table : List Job)
    → length (mark_dispatched env js sent table).0 ≤ length sent + length js
unfolding mark_dispatched
length-mark_dispatched env [] sent table = omega arith
length-mark_dispatched env (j ∷ js) sent table =
    let marked = update (λ r. r.id == j.id) (dispatch_row env.now) table in
    elim (Bool-cases (env.fault (dispatch_job j.id))) [
      | inl e ↦ rw e (omega (arith, length-mark_dispatched env js sent table))
      | inr e ↦ rw e (
          omega (
            arith,
            length-mark_dispatched env js (sent ++ dispatch_of j ∷ []) marked,
            length-append sent (dispatch_of j ∷ []),
          ))
    ]

contains-selected :
    (p : Job → Bool) (table : List Job)
    → All (λ (j : Job). contains j.id (ids table) ≡ true) (select p table)
contains-selected p table = All-select _ p table (own_ids table)

IsFetched-of :
    (agent : Agent) (table : List Job) (j : Job)
    → is_ready agent j ≡ true
    → contains j.id (ids table) ≡ true
    → All (λ r. (r.id == j.id) ≡ true → r ≡ j) table
    → IsFetched agent table j
IsFetched-of agent table j h c a =
    (c, All-imp _ _ (λ r f e. rw (f e) (&&-left _ _ h, refl, refl)) table a)

-- What is fetched is the agent's, and its row is the only one of its id.
pub selected-IsFetched :
    (agent : Agent) (table : List Job)
    → Distinct table
    → All (IsFetched agent table) (take 10 (order_by older (select (is_ready agent) table)))
selected-IsFetched agent table d =
    let ready = select (is_ready agent) table in
    All-take _ 10 _ (
      All-order_by _ older ready (
        All-imp _ _ (λ j h. IsFetched-of agent table j h.0 (h.1).0 (h.1).1) ready
          (All-zip _ _ ready (select-All (is_ready agent) table) (
            All-zip _ _ ready (contains-selected (is_ready agent) table)
              (All-select _ (is_ready agent) table (own_rows table d))))))
