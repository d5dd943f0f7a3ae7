-- ===== src/Jobs/State.antt =====
-- server/jobs/state.go.
pub mod Exits
use moebius.Prelude.{
  String, Bool, true, false, ◌||◌, ◌&&◌, List, [], ◌∷◌, Option, none, some, if◌then◌else◌,
}
use moebius.Models.Job.{
  JobStatus, pending, queued, cdm_hold, dispatched, acknowledged, running, completed, failed,
  timed_out, cancelled, other, eq_status, is_terminal_status,
}

-- The three errors that ValidateTransition reports.
pub data TransitionError : Type 0 where
  from_terminal : JobStatus → TransitionError
  unknown_state : JobStatus → TransitionError
  invalid_transition : JobStatus → JobStatus → TransitionError

-- The table `validTransitions`; `none` where it has no entry.
unfoldable pub valid_transitions : JobStatus → Option (List JobStatus)
valid_transitions pending = some (queued ∷ cancelled ∷ [])
valid_transitions queued = some (dispatched ∷ cdm_hold ∷ cancelled ∷ [])
valid_transitions cdm_hold = some (dispatched ∷ cancelled ∷ [])
valid_transitions dispatched = some (acknowledged ∷ queued ∷ cancelled ∷ [])
valid_transitions acknowledged = some (running ∷ queued ∷ [])
valid_transitions running = some (completed ∷ failed ∷ timed_out ∷ [])
valid_transitions _ = none

unfoldable pub has_status : JobStatus → List JobStatus → Bool
has_status s [] = false
has_status s (t ∷ ts) = eq_status t s || has_status s ts

-- `none` is the nil error: the transition is allowed.
unfoldable pub validate_transition : JobStatus → JobStatus → Option TransitionError
unfolding valid_transitions has_status is_terminal_status
validate_transition from to = elim (valid_transitions from) [
  | none ↦ if is_terminal_status from then some (from_terminal from) else some (unknown_state from)
  | some targets ↦ if has_status to targets then none else some (invalid_transition from to)
]

unfoldable pub all_statuses : List JobStatus
all_statuses =
    pending ∷ queued ∷ cdm_hold ∷ dispatched ∷ acknowledged ∷ running ∷ completed ∷ failed
    ∷ timed_out ∷ cancelled ∷ []

unfoldable pub cancellable_statuses : List JobStatus
cancellable_statuses = pending ∷ queued ∷ cdm_hold ∷ dispatched ∷ []

unfoldable pub is_cancellable : JobStatus → Bool
unfolding cancellable_statuses has_status
is_cancellable status = has_status status cancellable_statuses

unfoldable pub is_retryable : JobStatus → Bool
is_retryable status = eq_status status failed || eq_status status timed_out
