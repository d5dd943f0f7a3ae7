-- ===== src/Database.antt =====
-- The database as the handlers use it: tables as lists of rows, the constraints of
-- server/migrate/sql/001_initial_schema.up.sql on jobs, and the audit writes of server/audit.
pub mod Evolves
pub mod Keeps
pub mod Unique
pub mod WellFormed
use moebius.Prelude.{
  ℕ, String, Bool, true, false, not, ◌||◌, ◌&&◌, ◌==◌, Option, none, some, List, [], ◌∷◌, ◌++◌,
  contains, find, is_none, if◌then◌else◌, map, ◌≡◌, arith,
}
use moebius.Models.Job.{Job, JobResult, ScheduledJob}
use moebius.Models.Device.{Device, Tenant, Owned, Membership, AgentCertificate, AuditEntry, Detail}
use moebius.Models.Access.{ApiKey}
use moebius.Models.Inventory.{InventoryPackage, HardwareRow}

pub data Dimension : Type 0 where
  by_group by_tag by_site : Dimension

-- The statements of a request, to say which of them fail and which ids are generated for them.
pub data Call : Type 0 where
  select_job select_result select_tenant count_jobs count_devices count_api_keys insert_result
        update_job write_audit begin_tx commit_tx :
      Call
  update_device update_certificates mark_failed requeue hold release fetch parent_job : Call
  delete_hardware insert_hardware delete_packages : Call
  reap_dispatched reap_inflight list_due list_offline revoke_device cancel_jobs : Call
  insert_job insert_package update_package delete_package : ℕ → Call
  target_rows scope_rows : Dimension → String → Call
  insert_scheduled : String → ℕ → Call
  dispatch_job select_device mark_run : String → Call
  scope_exists : String → String → Call
  select_key select_role insert_role update_role count_role delete_role : Call
  insert_device insert_certificate : Call
  insert_member owner_exists : Dimension → String → Call
  select_agent insert_file insert_upload write_chunk update_chunks reread_chunks : Call
  create_file copy_early copy_file remove_file open_file make_stage_dir remove_stage_dir
        load_signature load_key update_file complete_upload :
      Call
  select_file select_upload select_hash reread_file count_transfers delete_file : Call
  read_chunk : ℕ → Call

-- What a request finds: the clock, the statements on which the database reports an error, and
-- the identifiers that models.New…ID draws for the rows it inserts.
pub record Env : Type 0 where
  pub now : ℕ
  pub fault : Call → Bool
  pub fresh : Call → String

pub record Db : Type 0 where
  pub tenants : List Tenant
  pub users : List String
  pub api_keys : List ApiKey
  pub devices : List Device
  pub groups : List Owned
  pub tags : List Owned
  pub sites : List Owned
  pub device_groups : List Membership
  pub device_tags : List Membership
  pub device_sites : List Membership
  pub certificates : List AgentCertificate
  pub jobs : List Job
  pub job_results : List JobResult
  pub scheduled_jobs : List ScheduledJob
  pub packages : List InventoryPackage
  pub hardware : List HardwareRow
  pub audit_log : List AuditEntry

-- created_by and parent_job_id are nullable references.
abbrev pub ref_ok : Option String → List String → Bool
ref_ok none ids = true
ref_ok (some a) ids = contains a ids

-- The primary key and the foreign keys of jobs accept the row.
unfoldable pub job_accepted : Db → Job → Bool
job_accepted db j =
    not (contains j.id (map (λ (r : Job). r.id) db.jobs))
    && contains j.tenant_id (map (λ (t : Tenant). t.id) db.tenants)
    && contains j.device_id (map (λ (d : Device). d.id) db.devices)
    && ref_ok j.parent_job_id (map (λ (r : Job). r.id) db.jobs)
    && ref_ok j.created_by db.users

-- INSERT INTO jobs; `none` is the error.
unfoldable pub insert_job_row : Env → Call → Job → Db → Option Db
insert_job_row env call j db =
    if env.fault call
    then none
    else if job_accepted db j
    then some (record db { jobs = db.jobs ++ j ∷ [] })
    else none

-- audit.LogAction: the entry is appended, or the failure only logged.
unfoldable pub log_action :
    Env → (tenant actor actor_type action resource_type resource : String) → List Detail → Db → Db
log_action env tenant actor actor_type action resource_type resource metadata db =
    if env.fault write_audit then db else record db {
      audit_log =
          db.audit_log
          ++ record {
            id = env.fresh write_audit;
            tenant_id = tenant;
            actor_id = actor;
            actor_type = actor_type;
            action = action;
            resource_type = resource_type;
            resource_id = resource;
            metadata = metadata;
            created_at = env.now;
          }
            ∷ [];
    }

pub jobs-log_action :
    (env : Env) (tenant actor actor_type action resource_type resource : String)
    (metadata : List Detail) (db : Db)
    → (log_action env tenant actor actor_type action resource_type resource metadata db).jobs
      ≡ db.jobs
unfolding log_action
jobs-log_action env tenant actor actor_type action resource_type resource metadata db = ground arith
