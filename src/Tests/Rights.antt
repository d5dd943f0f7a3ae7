-- ===== src/Tests/Rights.antt =====
-- The theorems about scopes, targets, quotas and the state machine, on the small fleet.
use moebius.Prelude.{
  ◌+◌, ◌≤◌, String, ◌≡◌, refl, ◌↔◌, ◌⊎◌, true, false, Option, none, some, List, [], ◌∷◌, arith,
  find, select, contains, length, count,
}
use moebius.Prelude.Int.{pos, negsuc}
use moebius.Models.Job.{Job, queued, acknowledged, cancelled, is_terminal_status}
use moebius.Auth.Scope.{
  resolve_scope, device_in_scope, scope_is_subset, in_tenant, member_rows, expand, all_in_set,
}
use moebius.Auth.Scope.Resolve.{scope_allows, resolve_scope-exact}
use moebius.Auth.Scope.Subset.{resolve_scope-subset}
use moebius.Api.Respond.{reply, error_status}
use moebius.Api.Targets.{resolve_targets, add, add_all, add_members}
use moebius.Api.Targets.Laws.{NoRepeats, target_names, resolve_targets-exact}
use moebius.Api.Jobs.{
  create, create_decoded, create_within, create_batch, create_row, new_job, insert_jobs,
  enforce_scope, created, no_content,
}
use moebius.Api.JobControl.{cancel}
use moebius.Api.Jobs.Guards.{Cancels, is_refused, create-refused, cancel-exact}
use moebius.Api.Jobs.Limits.{create-Within}
use moebius.Jobs.State.{validate_transition, is_cancellable}
use moebius.Jobs.State.Exits.{is_cancellable-exact, validate_transition-phase}
use moebius.Jobs.Kinds.{validate_type}
use moebius.Database.{job_accepted, insert_job_row}
use moebius.Database.Evolves.{phase}
use moebius.Quota.{
  Defaults, allowed, exceeded, queued_jobs, effective, apply_override, counts_as_queued,
  check_queued_jobs,
}
use moebius.Quota.Bounds.{Within, check_queued_jobs-exact}
use moebius.Tests.{env_at, db_a, caller_a, exec_request, defaults, group_scope, group_target}

abbrev only_dev_a : Option (List String)
only_dev_a = some ("dev_a" ∷ [])

group_resolves : resolve_scope (env_at 30) db_a "ten_a" (some group_scope) ≡ some only_dev_a
unfolding resolve_scope expand member_rows select in_tenant
group_resolves = refl

resolve_scope-exact_example :
    device_in_scope only_dev_a "dev_b" ≡ scope_allows db_a "ten_a" group_scope "dev_b"
resolve_scope-exact_example =
    resolve_scope-exact (env_at 30) db_a "ten_a" group_scope only_dev_a "dev_b" group_resolves

group_subset : scope_is_subset (some group_scope) (some group_scope) ≡ true
unfolding scope_is_subset all_in_set contains
group_subset = refl

dev_a_in_scope : device_in_scope only_dev_a "dev_a" ≡ true
unfolding device_in_scope contains
dev_a_in_scope = refl

resolve_scope-subset_example : device_in_scope only_dev_a "dev_a" ≡ true
resolve_scope-subset_example =
    resolve_scope-subset (env_at 30) db_a "ten_a" (some group_scope) (some group_scope) only_dev_a
      only_dev_a "dev_a" group_subset group_resolves group_resolves dev_a_in_scope

target_resolves : resolve_targets (env_at 30) db_a "ten_a" group_target ≡ some ("dev_a" ∷ [])
unfolding resolve_targets add add_all add_members member_rows select in_tenant contains
target_resolves = refl

resolve_targets-exact_example :
    NoRepeats ("dev_a" ∷ [])
    × (contains "dev_b" ("dev_a" ∷ []) ≡ target_names db_a "ten_a" group_target "dev_b")
resolve_targets-exact_example =
    resolve_targets-exact (env_at 30) db_a "ten_a" group_target ("dev_a" ∷ []) "dev_b"
      target_resolves

abbrev overridden : Defaults
overridden = record {
  max_devices = pos 10;
  max_queued_jobs = pos 3;
  max_api_keys = pos 10;
  max_file_size_bytes = negsuc 0;
}

effective-overridden : effective (some defaults) (env_at 30) db_a "ten_a" ≡ some overridden
unfolding effective apply_override find
effective-overridden = refl

check_queued_jobs-exact_example :
    ((check_queued_jobs (some defaults) (env_at 30) db_a "ten_a" 2 ≡ allowed)
      × Within (pos 3) (count (counts_as_queued "ten_a") db_a.jobs + 2))
    ⊎ ((check_queued_jobs (some defaults) (env_at 30) db_a "ten_a" 2
          ≡ exceeded queued_jobs (pos 3) (count (counts_as_queued "ten_a") db_a.jobs) 2)
        × (¬ Within (pos 3) (count (counts_as_queued "ten_a") db_a.jobs + 2)))
check_queued_jobs-exact_example =
    check_queued_jobs-exact defaults overridden (env_at 30) db_a "ten_a" 2 effective-overridden refl
      (omega arith)

exec_created :
    (create (some defaults) caller_a (env_at 30) (some exec_request) db_a).0
    ≡ reply 201 (created ("job_new" ∷ []) 1)
unfolding create create_decoded create_within create_batch create_row new_job insert_jobs
    insert_job_row job_accepted enforce_scope resolve_targets add add_all add_members member_rows
    select in_tenant contains check_queued_jobs effective apply_override find count counts_as_queued
    validate_type
exec_created = refl

create-Within_example :
    (count
        (counts_as_queued "ten_a")
        (create (some defaults) caller_a (env_at 30) (some exec_request) db_a).1.jobs
      ≡ count (counts_as_queued "ten_a") db_a.jobs + 1)
    × (length {A = String} ("job_new" ∷ []) ≡ 1)
    × Within (pos 3) (
        count
          (counts_as_queued "ten_a")
          (create (some defaults) caller_a (env_at 30) (some exec_request) db_a).1.jobs)
create-Within_example =
    create-Within defaults overridden caller_a (env_at 30) exec_request ("job_new" ∷ []) 1 db_a
      effective-overridden exec_created

undecoded : is_refused (create (some defaults) caller_a (env_at 30) none db_a).0 ≡ true
unfolding create error_status
undecoded = refl

create-refused_example : (create (some defaults) caller_a (env_at 30) none db_a).1 ≡ db_a
create-refused_example = create-refused (some defaults) caller_a (env_at 30) none db_a undecoded

cancel-exact_example : ((cancel caller_a (env_at 30) "job_q" db_a).0 ≡ reply 204 no_content) ↔ (
    (false ≡ false) × (false ≡ false) × ((j : Job) × Cancels caller_a (env_at 30) "job_q" db_a j))
cancel-exact_example = cancel-exact caller_a (env_at 30) "job_q" db_a

is_cancellable-exact_example :
    (is_cancellable queued ≡ true) ↔ (validate_transition queued cancelled ≡ none)
is_cancellable-exact_example = is_cancellable-exact queued

acknowledged_returns : validate_transition acknowledged queued ≡ none
unfolding validate_transition
acknowledged_returns = refl

validate_transition-phase_example :
    (is_terminal_status acknowledged ≡ false)
    × ((phase acknowledged ≤ phase queued) ⊎ ((acknowledged ≡ acknowledged) × (queued ≡ queued)))
validate_transition-phase_example =
    validate_transition-phase acknowledged queued acknowledged_returns
