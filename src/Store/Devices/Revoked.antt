-- ===== src/Store/Devices/Revoked.antt =====
-- What is left of a device that was revoked (server/store/devices.go).
use moebius.Prelude.{
  ◌≡◌, ◌⊎◌, refl, inl, inr, String, Bool, true, false, not, ◌&&◌, ◌||◌, ◌==◌, is_none, is_some,
  find, select, if◌then◌else◌, Bool-cases, some, List, [], ◌∷◌, arith, All, update,
}
use moebius.Models.Job.{Job, pending, queued, dispatched, cancelled, eq_status}
use moebius.Models.Device.{Device, AgentCertificate, revoked, is_revoked}
use moebius.Database.{Db, Env}
use moebius.Store.Devices.{is_withdrawn, withdraw_row, revoked_db, store_revoke_device, is_device}

abbrev pub is_of : String → String → Job → Bool
is_of tenant device j = j.tenant_id == tenant && j.device_id == device

-- No certificate of the device is valid, none of its jobs is pending, none queued and none
-- dispatched, and its row is there and marked.
abbrev pub IsRevoked : String → String → Db → Type 0
IsRevoked tenant device db =
    All (λ (c : AgentCertificate). (c.device_id == device && is_none c.revoked_at) ≡ false)
      db.certificates
    × All
        (λ (j : Job).
          ((is_of tenant device j && eq_status j.status pending) ≡ false)
          × ((is_of tenant device j && eq_status j.status queued) ≡ false)
          × ((is_of tenant device j && eq_status j.status dispatched) ≡ false))
        db.jobs
    × ((d : Device) × (find (λ (r : Device). r.id == device && r.tenant_id == tenant) db.devices
          ≡ some d)
        × (is_revoked d.status ≡ true))

-- A job of another device, or in a status other than pending, queued, dispatched and cancelled.
abbrev pub is_elsewhere : String → String → Job → Bool
is_elsewhere tenant device j =
    not (is_of tenant device j)
    || not (
        eq_status j.status pending
        || eq_status j.status queued
        || eq_status j.status dispatched
        || eq_status j.status cancelled)

certificates-none :
    (env : Env) (device reason : String) (xs : List AgentCertificate)
    → All
        (λ (c : AgentCertificate). (c.device_id == device && is_none c.revoked_at) ≡ false)
        (update
          (λ (c : AgentCertificate). c.device_id == device && is_none c.revoked_at)
          (λ (c : AgentCertificate). record c {
            revoked_at = some env.now;
            revocation_reason = some reason;
          })
          xs)
unfolding update
certificates-none env device reason [] = tt
certificates-none env device reason (c ∷ xs) =
    (ground arith, certificates-none env device reason xs)

jobs-none :
    (tenant device : String) (xs : List Job)
    → All
        (λ (j : Job).
          ((is_of tenant device j && eq_status j.status pending) ≡ false)
          × ((is_of tenant device j && eq_status j.status queued) ≡ false)
          × ((is_of tenant device j && eq_status j.status dispatched) ≡ false))
        (update (is_withdrawn tenant device) withdraw_row xs)
unfolding update
jobs-none tenant device [] = tt
jobs-none tenant device (j ∷ xs) = (withdrawn j, jobs-none tenant device xs)
  where
    withdrawn :
        (j : Job)
        → let r = if is_withdrawn tenant device j then withdraw_row j else j in
          ((is_of tenant device r && eq_status r.status pending) ≡ false)
          × ((is_of tenant device r && eq_status r.status queued) ≡ false)
          × ((is_of tenant device r && eq_status r.status dispatched) ≡ false)
    withdrawn j = (ground arith, ground arith, ground arith)

jobs-elsewhere :
    (tenant device : String) (xs : List Job)
    → select (is_elsewhere tenant device) (update (is_withdrawn tenant device) withdraw_row xs)
      ≡ select (is_elsewhere tenant device) xs
unfolding update select
jobs-elsewhere tenant device [] = refl
jobs-elsewhere tenant device (j ∷ xs) = ground (arith, jobs-elsewhere tenant device xs)

device-revoked :
    (tenant device : String) (xs : List Device)
    → is_some (find (is_device tenant device) xs) ≡ true
    → (d : Device) × (find
          (λ (r : Device). r.id == device && r.tenant_id == tenant)
          (update (is_device tenant device) (λ (d : Device). record d { status = revoked }) xs)
        ≡ some d)
      × (is_revoked d.status ≡ true)
unfolding update find
device-revoked tenant device [] h = absurd (ground (arith, h))
device-revoked tenant device (d ∷ xs) h = elim (Bool-cases (is_device tenant device d)) [
  | inl e ↦ (record d { status = revoked }, ground (arith, e), refl)
  | inr e ↦
      let (r, f, m) = device-revoked tenant device xs (ground (arith, h, e)) in
      (r, ground (arith, e, f), m)
]

revoked_db-IsRevoked :
    (env : Env) (tenant device reason : String) (db : Db)
    → is_some (find (is_device tenant device) db.devices) ≡ true
    → IsRevoked tenant device (revoked_db env tenant device reason db)
unfolding revoked_db
revoked_db-IsRevoked env tenant device reason db h = (
  certificates-none env device reason db.certificates,
  jobs-none tenant device db.jobs,
  device-revoked tenant device db.devices h,
)

revoked_db-elsewhere :
    (env : Env) (tenant device reason : String) (db : Db)
    → select (is_elsewhere tenant device) (revoked_db env tenant device reason db).jobs
      ≡ select (is_elsewhere tenant device) db.jobs
unfolding revoked_db
revoked_db-elsewhere env tenant device reason db = jobs-elsewhere tenant device db.jobs

store_revoke_device-cases :
    (env : Env) (tenant device reason : String) (db : Db)
    → ((store_revoke_device env tenant device reason db
          ≡ (true, revoked_db env tenant device reason db))
        × (is_some (find (is_device tenant device) db.devices) ≡ true))
      ⊎ (store_revoke_device env tenant device reason db ≡ (false, db))
unfolding store_revoke_device
store_revoke_device-cases env tenant device reason db = ground arith

-- Revoking a device either succeeds, and then the tenant has the device's row and it is marked as
-- revoked, none of its certificates is valid, none of its jobs is pending, queued or dispatched,
-- and the jobs of other devices and those in other statuses but cancelled are as they were; or it
-- fails and the database is as it was.
pub store_revoke_device-IsRevoked :
    (env : Env) (tenant device reason : String) (db : Db)
    → (((store_revoke_device env tenant device reason db).0 ≡ true)
        × IsRevoked tenant device (store_revoke_device env tenant device reason db).1
        × (select
              (is_elsewhere tenant device)
              (store_revoke_device env tenant device reason db).1.jobs
            ≡ select (is_elsewhere tenant device) db.jobs))
      ⊎ (store_revoke_device env tenant device reason db ≡ (false, db))
store_revoke_device-IsRevoked env tenant device reason db =
    elim (store_revoke_device-cases env tenant device reason db) [
      | inr e ↦ inr e
      | inl (e, there) ↦ inl (
          rw e (
            refl,
            revoked_db-IsRevoked env tenant device reason db there,
            revoked_db-elsewhere env tenant device reason db,
          ))
    ]
