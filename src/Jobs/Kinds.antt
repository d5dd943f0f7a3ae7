-- ===== src/Jobs/Kinds.antt =====
-- server/jobs/types.go.
use moebius.Prelude.{ℕ, Bool, true, false, ◌&&◌, Option, none, some}
use moebius.Prelude.Int.{pos, ℤ, gt_nat}
use moebius.Models.Job.{
  JobStatus, JobType, RetryPolicy, package_install, package_remove, package_update, inventory_full,
  file_transfer, agent_update, unrecognized,
}
use moebius.Jobs.State.{is_retryable}

-- ValidateType: whether the type is one of `allJobTypes`.
unfoldable pub validate_type : JobType → Bool
validate_type (unrecognized s) = false
validate_type _ = true

unfoldable pub default_retry_policy : JobType → Option RetryPolicy
default_retry_policy package_install =
    some (record { max_retries = pos 3; retry_delay_seconds = pos 300 })
default_retry_policy package_remove =
    some (record { max_retries = pos 3; retry_delay_seconds = pos 300 })
default_retry_policy package_update =
    some (record { max_retries = pos 3; retry_delay_seconds = pos 300 })
default_retry_policy inventory_full =
    some (record { max_retries = pos 5; retry_delay_seconds = pos 60 })
default_retry_policy file_transfer =
    some (record { max_retries = pos 3; retry_delay_seconds = pos 300 })
default_retry_policy agent_update =
    some (record { max_retries = pos 2; retry_delay_seconds = pos 600 })
default_retry_policy _ = none

unfoldable pub should_retry : JobStatus → ℕ → ℤ → Bool
unfolding is_retryable
should_retry status retry_count max_retries = is_retryable status && gt_nat max_retries retry_count
