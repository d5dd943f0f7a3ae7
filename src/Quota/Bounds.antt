-- ===== src/Quota/Bounds.antt =====
-- What the quota checks of server/quota/quota.go promise.
use moebius.Prelude.{ℕ, ◌+◌, ◌≤◌, ◌<◌, String, ◌≡◌, ◌⊎◌, false, some, arith, count, ◌≢◌}
use moebius.Prelude.Int.{ℤ, pos, negsuc}
use moebius.Models.Access.{TenantQuotas}
use moebius.Database.{Db, Env, count_jobs}
use moebius.Quota.{
  Defaults, allowed, exceeded, queued_jobs, apply_override, effective, counts_as_queued,
  check_queued_jobs,
}

-- n items are within a limit, of which the negative ones are none.
abbrev pub Within : ℤ → ℕ → Type 0
Within (pos m) n = n ≤ m
Within (negsuc m) n = Unit

-- With a resolver and no failing statement, the verdict on a batch of at least one job is that
-- it is allowed if the tenant's queued and dispatched jobs and the batch are together within its
-- limit, and otherwise that it exceeds the limit, with the limit, the count and the batch.
pub check_queued_jobs-exact :
    (def eff : Defaults) (env : Env) (db : Db) (tenant : String) (incr : ℕ)
    → effective (some def) env db tenant ≡ some eff
    → env.fault count_jobs ≡ false
    → 0 < incr
    → ((check_queued_jobs (some def) env db tenant incr ≡ allowed)
        × Within eff.max_queued_jobs (count (counts_as_queued tenant) db.jobs + incr))
      ⊎ ((check_queued_jobs (some def) env db tenant incr
            ≡ exceeded queued_jobs eff.max_queued_jobs
                (count (counts_as_queued tenant) db.jobs)
                incr)
          × (¬ Within eff.max_queued_jobs (count (counts_as_queued tenant) db.jobs + incr)))
unfolding check_queued_jobs
check_queued_jobs-exact def eff env db tenant incr e f p = rw (e, f) (ground arith)

-- An override of zero inherits the default, and any other replaces it.
abbrev pub Overrides : ℤ → ℤ → ℤ → Type 0
Overrides default override result =
    ((override ≡ pos 0) × (result ≡ default)) ⊎ ((override ≢ pos 0) × (result ≡ override))

-- Each limit of the result is the default where the tenant's override is zero, and the override
-- where it is not, -1 included; and overriding again with the same values changes nothing more.
pub apply_override-exact :
    (def : Defaults) (o : TenantQuotas)
    → Overrides def.max_devices o.max_devices (apply_override def o).max_devices
      × Overrides def.max_queued_jobs o.max_queued_jobs (apply_override def o).max_queued_jobs
      × Overrides def.max_api_keys o.max_api_keys (apply_override def o).max_api_keys
      × Overrides def.max_file_size_bytes o.max_file_size_bytes
          (apply_override def o).max_file_size_bytes
      × (apply_override (apply_override def o) o ≡ apply_override def o)
unfolding apply_override
apply_override-exact def o = ground arith
