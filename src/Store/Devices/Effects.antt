-- ===== src/Store/Devices/Effects.antt =====
-- What revoking a device (server/store/devices.go) and the rollback endpoint
-- (server/api/device_rollback.go) do to the table of jobs.
use moebius.Prelude.{String, ◌≡◌, refl, inl, inr, Option, none, some, Option-cases, arith}
use moebius.Models.Job.{Job}
use moebius.Database.{Db, Env, insert_job, insert_job_row, jobs-log_action}
use moebius.Database.Evolves.{Moves, phase-le, IsInserted}
use moebius.Database.WellFormed.{WellFormed}
use moebius.Database.Keeps.{Keeps, Keeps-refl, Keeps-update, Keeps-insert}
use moebius.Api.Jobs.{Caller}
use moebius.Store.Devices.{
  is_withdrawn, withdraw_row, revoked_db, store_revoke_device, rollback_row, insert_rollback,
  rollback,
}

withdraw_row-Moves : (j : Job) → Moves j (withdraw_row j)
withdraw_row-Moves j = ground (arith, phase-le j.status)

revoked_db-Keeps :
    (env : Env) (tenant device reason : String) (db : Db)
    → Keeps db.jobs (revoked_db env tenant device reason db).jobs
unfolding revoked_db
revoked_db-Keeps env tenant device reason db =
    Keeps-update (is_withdrawn tenant device) withdraw_row db.jobs (λ j h. withdraw_row-Moves j)
      (λ j h w. refl)

pub store_revoke_device-Keeps :
    (env : Env) (tenant device reason : String) (db : Db)
    → Keeps db.jobs (store_revoke_device env tenant device reason db).1.jobs
unfolding store_revoke_device
store_revoke_device-Keeps env tenant device reason db =
    ground (arith, Keeps-refl db.jobs, revoked_db-Keeps env tenant device reason db)

rollback_row-IsInserted :
    (encode : String → String) (caller : Caller) (env : Env) (device reason : String)
    → IsInserted (rollback_row encode caller env device reason)
unfolding rollback_row
rollback_row-IsInserted encode caller env device reason = omega arith

rollback_row-WellFormed :
    (encode : String → String) (caller : Caller) (env : Env) (device reason : String)
    → WellFormed (rollback_row encode caller env device reason)
unfolding rollback_row
rollback_row-WellFormed encode caller env device reason = refl

rollback_row-Keeps :
    (encode : String → String) (caller : Caller) (env : Env) (device reason : String) (db : Db)
    {db' : Db}
    → insert_job_row env (insert_job 0) (rollback_row encode caller env device reason) db ≡ some db'
    → Keeps db.jobs db'.jobs
rollback_row-Keeps encode caller env device reason db e =
    Keeps-insert env (insert_job 0) (rollback_row encode caller env device reason) db
      (rollback_row-IsInserted encode caller env device reason)
      (rollback_row-WellFormed encode caller env device reason) e

insert_rollback-Keeps :
    (encode : String → String) (caller : Caller) (env : Env) (device reason : String) (db : Db)
    → Keeps db.jobs (insert_rollback encode caller env device reason db).1.jobs
unfolding insert_rollback
insert_rollback-Keeps encode caller env device reason db =
    let row = rollback_row encode caller env device reason in
    elim (Option-cases (insert_job_row env (insert_job 0) row db)) [
      | inl e ↦ rw (e, insert_rollback) (Keeps-refl db.jobs)
      | inr (db', e) ↦
          rw (e, insert_rollback)
            (rw jobs-log_action (rollback_row-Keeps encode caller env device reason db e))
    ]

pub rollback-Keeps :
    (encode : String → String) (caller : Caller) (env : Env) (device : String)
    (reason : Option String) (db : Db)
    → Keeps db.jobs (rollback encode caller env device reason db).1.jobs
unfolding rollback
rollback-Keeps encode caller env device none db = Keeps-refl db.jobs
rollback-Keeps encode caller env device (some reason) db =
    ground (arith, Keeps-refl db.jobs, insert_rollback-Keeps encode caller env device reason db)
