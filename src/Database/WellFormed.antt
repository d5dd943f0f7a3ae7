-- ===== src/Database/WellFormed.antt =====
-- What a row of jobs satisfies whenever no request is under way: its timestamps fit its status,
-- and it has one of the statuses that the code stores.
use moebius.Prelude.{◌≡◌, Bool, true, false, is_some, is_none, contains, List, [], ◌∷◌, map}
use moebius.Models.Job.{
  Job, JobStatus, pending, queued, cdm_hold, dispatched, acknowledged, running, completed, failed,
  timed_out, cancelled, other,
}

-- The timestamps that a status calls for. A cancelled row has a completion time if an operator
-- cancelled it and none if its device was revoked.
abbrev stamped : JobStatus → Job → Bool
stamped queued j = is_none j.dispatched_at
stamped cdm_hold j = is_none j.dispatched_at
stamped dispatched j = is_some j.dispatched_at
stamped acknowledged j = is_some j.acknowledged_at
stamped completed j = is_some j.completed_at
stamped failed j = is_some j.completed_at
stamped timed_out j = is_some j.completed_at
stamped cancelled j = true
stamped pending j = false
stamped running j = false
stamped (other s) j = false

abbrev pub WellFormed : Job → Type 0
WellFormed j = stamped j.status j ≡ true

-- The identifiers of the rows are distinct.
abbrev pub Distinct : List Job → Type 0
Distinct [] = Unit {0}
Distinct (j ∷ js) = (contains j.id (map (λ (r : Job). r.id) js) ≡ false) × Distinct js
