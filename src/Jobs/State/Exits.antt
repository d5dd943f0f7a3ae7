-- ===== src/Jobs/State/Exits.antt =====
-- What the state machine of server/jobs/state.go allows.
use moebius.Prelude.{◌≤◌, ◌≡◌, ◌↔◌, ◌⊎◌, true, false, none, some, arith}
use moebius.Models.Job.{JobStatus, queued, acknowledged, cancelled, is_terminal_status}
use moebius.Database.Evolves.{phase}
use moebius.Jobs.State.{from_terminal, validate_transition, is_cancellable}

-- ValidateTransition reports a terminal state exactly from the statuses that IsTerminalStatus
-- calls terminal.
pub validate_transition-terminal :
    (from to : JobStatus)
    → (validate_transition from to ≡ some (from_terminal from)) ↔ (is_terminal_status from ≡ true)
unfolding validate_transition is_terminal_status
validate_transition-terminal from to = ground arith

-- IsCancellable agrees with the table: a status is cancellable exactly if the transition from it
-- to `cancelled` is allowed.
pub is_cancellable-exact :
    (s : JobStatus) → (is_cancellable s ≡ true) ↔ (validate_transition s cancelled ≡ none)
unfolding is_cancellable validate_transition
is_cancellable-exact s = ground arith

-- A transition that is allowed leaves a status that is not terminal, and either does not go back
-- to an earlier phase or is the return of an acknowledged job to the queue.
pub validate_transition-phase :
    (from to : JobStatus)
    → validate_transition from to ≡ none
    → (is_terminal_status from ≡ false)
      × ((phase from ≤ phase to) ⊎ ((from ≡ acknowledged) × (to ≡ queued)))
unfolding validate_transition is_terminal_status
validate_transition-phase from to h = ground arith
