-- ===== src/Quota.antt =====
-- server/quota/quota.go: per-tenant ceilings. int64 limits are integers; counts stay far below 2^63.
pub mod Bounds
use moebius.Prelude.{
  ℕ, ◌+◌, String, Bool, true, false, ◌&&◌, ◌||◌, ◌==◌, Option, none, some, ◌>>=◌, find, count, leb,
  if◌then◌else◌,
}
use moebius.Prelude.Int.{ℤ, negsuc, is_negative, is_nonzero, lt_nat}
use moebius.Models.Access.{TenantQuotas, ApiKey}
use moebius.Models.Device.{Tenant, Device}
use moebius.Models.Job.{Job, JobStatus, queued, dispatched, eq_status}
use moebius.Database.{Db, Env, select_tenant, count_jobs, count_devices, count_api_keys}

pub data Kind : Type 0 where
  devices queued_jobs api_keys file_size : Kind

-- A nil error, an ErrExceeded, or any other error.
pub data Verdict : Type 0 where
  allowed : Verdict
  exceeded : (kind : Kind) (limit : ℤ) (current attempted : ℕ) → Verdict
  failure : Verdict

pub record Defaults : Type 0 where
  pub max_devices : ℤ
  pub max_queued_jobs : ℤ
  pub max_api_keys : ℤ
  pub max_file_size_bytes : ℤ

unfoldable pub apply_override : Defaults → TenantQuotas → Defaults
apply_override def o = record {
  max_devices = if is_nonzero o.max_devices then o.max_devices else def.max_devices;
  max_queued_jobs = if is_nonzero o.max_queued_jobs then o.max_queued_jobs else def.max_queued_jobs;
  max_api_keys = if is_nonzero o.max_api_keys then o.max_api_keys else def.max_api_keys;
  max_file_size_bytes =
      if is_nonzero o.max_file_size_bytes then o.max_file_size_bytes else def.max_file_size_bytes;
}

-- The limits of a nil resolver.
abbrev pub unlimited : Defaults
unlimited = record {
  max_devices = negsuc 0;
  max_queued_jobs = negsuc 0;
  max_api_keys = negsuc 0;
  max_file_size_bytes = negsuc 0;
}

abbrev overlay : Defaults → Option TenantQuotas → Defaults
overlay def none = def
overlay def (some o) = apply_override def o

-- Effective. The resolver is its defaults, `none` the nil pointer; the result `none` is an error,
-- also where the tenant has no row.
unfoldable pub effective : Option Defaults → Env → Db → String → Option Defaults
unfolding apply_override find
effective none env db tenant = some unlimited
effective (some def) env db tenant =
    if env.fault select_tenant
    then none
    else do t ← find (λ (t : Tenant). t.id == tenant) db.tenants; some (overlay def t.quotas)

-- status IN ('queued','dispatched')
unfoldable pub counts_as_queued : String → Job → Bool
counts_as_queued tenant j =
    j.tenant_id == tenant && (eq_status j.status queued || eq_status j.status dispatched)

abbrev judge : Kind → ℤ → ℕ → ℕ → ℕ → Verdict
judge kind limit current added attempted =
    if lt_nat limit (current + added) then exceeded kind limit current attempted else allowed

abbrev check_limit : Bool → Kind → ℤ → ℕ → ℕ → ℕ → Verdict
check_limit fault kind limit current added attempted =
    if is_negative limit
    then allowed
    else if fault
    then failure
    else judge kind limit current added attempted

unfoldable pub check_devices : Option Defaults → Env → Db → String → Verdict
unfolding effective count
check_devices none env db tenant = allowed
check_devices (some def) env db tenant = elim (effective (some def) env db tenant) [
  | none ↦ failure
  | some eff ↦
      check_limit (env.fault count_devices) devices eff.max_devices
        (count (λ (d : Device). d.tenant_id == tenant) db.devices) 1 0
]

unfoldable pub check_queued_jobs : Option Defaults → Env → Db → String → ℕ → Verdict
check_queued_jobs none env db tenant incr = allowed
check_queued_jobs (some def) env db tenant incr =
    if leb incr 0 then allowed else elim (effective (some def) env db tenant) [
      | none ↦ failure
      | some eff ↦
          check_limit (env.fault count_jobs) queued_jobs eff.max_queued_jobs
            (count (counts_as_queued tenant) db.jobs) incr incr
    ]

unfoldable pub check_api_keys : Option Defaults → Env → Db → String → Verdict
check_api_keys none env db tenant = allowed
check_api_keys (some def) env db tenant = elim (effective (some def) env db tenant) [
  | none ↦ failure
  | some eff ↦
      check_limit (env.fault count_api_keys) api_keys eff.max_api_keys
        (count (λ (k : ApiKey). k.tenant_id == tenant) db.api_keys) 1 0
]

-- A static check: nothing is counted.
unfoldable pub check_file_size : Option Defaults → Env → Db → String → ℕ → Verdict
check_file_size none env db tenant size_bytes = allowed
check_file_size (some def) env db tenant size_bytes = elim (effective (some def) env db tenant) [
  | none ↦ failure
  | some eff ↦ check_limit false file_size eff.max_file_size_bytes 0 size_bytes size_bytes
]
