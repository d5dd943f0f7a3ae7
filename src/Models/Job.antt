-- ===== src/Models/Job.antt =====
-- shared/models/job.go: jobs, their results, retry policies and targets. Times are nanoseconds.
use moebius.Prelude.Int.{ℤ}
use moebius.Prelude.{ℕ, String, Bool, true, false, Option, List, ◌==◌}

-- The status column: the ten constants of the code, and whatever else a text column could hold.
pub data JobStatus : Type 0 where
  pending queued cdm_hold dispatched acknowledged running completed failed timed_out cancelled :
      JobStatus
  other : String → JobStatus

-- Equality of two status texts.
abbrev pub eq_status : JobStatus → JobStatus → Bool
eq_status JobStatus.pending JobStatus.pending = true
eq_status queued queued = true
eq_status cdm_hold cdm_hold = true
eq_status dispatched dispatched = true
eq_status acknowledged acknowledged = true
eq_status running running = true
eq_status completed completed = true
eq_status failed failed = true
eq_status timed_out timed_out = true
eq_status cancelled cancelled = true
eq_status (other a) (other b) = a == b
eq_status _ _ = false

pub data JobType : Type 0 where
  exec package_install package_remove package_update inventory_full file_transfer agent_update
        agent_rollback :
      JobType
  unrecognized : String → JobType

unfoldable pub is_terminal_status : JobStatus → Bool
is_terminal_status completed = true
is_terminal_status failed = true
is_terminal_status timed_out = true
is_terminal_status cancelled = true
is_terminal_status _ = false

pub record RetryPolicy : Type 0 where
  pub max_retries : ℤ
  pub retry_delay_seconds : ℤ

pub record Job : Type 0 where
  pub id : String
  pub tenant_id : String
  pub device_id : String
  pub parent_job_id : Option String
  pub kind : JobType
  pub status : JobStatus
  pub payload : String
  pub retry_policy : Option RetryPolicy
  pub retry_count : ℕ
  pub max_retries : ℤ
  pub last_error : Option String
  pub created_by : Option String
  pub created_at : ℕ
  pub dispatched_at : Option ℕ
  pub acknowledged_at : Option ℕ
  pub started_at : Option ℕ
  pub completed_at : Option ℕ

pub record JobResult : Type 0 where
  pub id : String
  pub job_id : String
  pub exit_code : Option ℤ
  pub stdout : String
  pub stderr : String
  pub started_at : Option ℕ
  pub completed_at : Option ℕ

pub record JobTarget : Type 0 where
  pub device_ids : List String
  pub group_ids : List String
  pub tag_ids : List String
  pub site_ids : List String

pub record ScheduledJob : Type 0 where
  pub id : String
  pub tenant_id : String
  pub name : String
  pub job_type : JobType
  pub payload : String
  pub target : Option JobTarget
  pub cron_expr : String
  pub retry_policy : Option RetryPolicy
  pub enabled : Bool
  pub last_run_at : Option ℕ
  pub next_run_at : Option ℕ

-- The constants JobType….
abbrev pub type_text : JobType → String
type_text exec = "exec"
type_text package_install = "package_install"
type_text package_remove = "package_remove"
type_text package_update = "package_update"
type_text inventory_full = "inventory_full"
type_text file_transfer = "file_transfer"
type_text agent_update = "agent_update"
type_text agent_rollback = "agent_rollback"
type_text (unrecognized s) = s

abbrev pub second : ℕ
second = 1000000000
