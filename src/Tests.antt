-- ===== src/Tests.antt =====
-- A small fleet: a tenant, a device in a group, and a job in each of the statuses that matter.
pub mod Histories
pub mod Rights
pub mod Hosts
pub mod Fleet
pub mod Uploads
pub mod Downloads
pub mod Keys
pub mod Enrolling
pub mod Updating
use moebius.Prelude.{ℕ, String, Bool, true, false, Option, none, some, List, [], ◌∷◌}
use moebius.Prelude.Int.{ℤ, pos, negsuc}
use moebius.Models.Job.{
  Job, JobStatus, JobTarget, exec, queued, dispatched, acknowledged, completed,
}
use moebius.Models.Access.{ApiScope, TenantQuotas}
use moebius.Models.Device.{Device, Tenant, Owned, Membership, online}
use moebius.Database.{Db, Env, Call, insert_job}
use moebius.Quota.{Defaults}
use moebius.Api.Jobs.{Caller, CreateRequest}
use moebius.Api.AgentJobs.{Agent}
use moebius.Api.Checkin.{AgentStatus, CheckinRequest}
use moebius.Scheduler.{Config}
use moebius.Server.{Setup}

abbrev pub no_fault : Call → Bool
no_fault call = false

abbrev fresh_id : Call → String
fresh_id (insert_job n) = "job_new"
fresh_id _ = "id_new"

abbrev pub env_at : ℕ → Env
env_at now = record { now = now; fault = no_fault; fresh = fresh_id }

abbrev pub job_row : String → JobStatus → Job
job_row id status = record {
  id = id;
  tenant_id = "ten_a";
  device_id = "dev_a";
  parent_job_id = none;
  kind = exec;
  status = status;
  payload = "{}";
  retry_policy = none;
  retry_count = 0;
  max_retries = pos 0;
  last_error = none;
  created_by = some "usr_a";
  created_at = 5;
  dispatched_at = none;
  acknowledged_at = none;
  started_at = none;
  completed_at = none;
}

abbrev pub queued_row : Job
queued_row = job_row "job_q" queued

abbrev pub sent_row : Job
sent_row = record (job_row "job_d" dispatched) { dispatched_at = some 10 }

abbrev pub running_row : Job
running_row = record (job_row "job_r" acknowledged) {
  dispatched_at = some 10;
  acknowledged_at = some 12;
  started_at = some 12;
}

abbrev pub finished_row : Job
finished_row = record (job_row "job_c" completed) { completed_at = some 20 }

abbrev device_a : Device
device_a = record {
  id = "dev_a";
  tenant_id = "ten_a";
  hostname = "alpha";
  agent_version = "1.0";
  status = online;
  last_seen_at = some 1;
  cdm_enabled = false;
  cdm_session_active = false;
  cdm_session_expires_at = none;
  sequence_last = 3;
}

abbrev pub db_a : Db
db_a = record {
  tenants =
      record {
        id = "ten_a";
        quotas = some (record {
          max_devices = pos 0;
          max_queued_jobs = pos 3;
          max_api_keys = pos 0;
          max_file_size_bytes = negsuc 0;
        });
      }
      ∷ [];
  users = "usr_a" ∷ [];
  api_keys = [];
  devices = device_a ∷ [];
  groups = record { id = "grp_a"; tenant_id = "ten_a" } ∷ [];
  tags = [];
  sites = [];
  device_groups = record { owner_id = "grp_a"; device_id = "dev_a" } ∷ [];
  device_tags = [];
  device_sites = [];
  certificates = [];
  jobs = queued_row ∷ sent_row ∷ running_row ∷ finished_row ∷ [];
  job_results = [];
  scheduled_jobs = [];
  packages = [];
  hardware = [];
  audit_log = [];
}

abbrev pub agent_a : Agent
agent_a = record { agent_id = "dev_a"; tenant_id = "ten_a" }

abbrev pub caller_a : Caller
caller_a = record { tenant_id = "ten_a"; user_id = "usr_a"; is_admin = true; scope = none }

abbrev pub group_scope : ApiScope
group_scope = record { group_ids = "grp_a" ∷ []; tag_ids = []; site_ids = []; device_ids = [] }

abbrev pub group_target : JobTarget
group_target = record {
  device_ids = "dev_a" ∷ [];
  group_ids = "grp_a" ∷ [];
  tag_ids = [];
  site_ids = [];
}

abbrev pub exec_request : CreateRequest
exec_request = record { kind = exec; target = group_target; payload = "{}"; retry_policy = none }

abbrev pub defaults : Defaults
defaults = record {
  max_devices = pos 10;
  max_queued_jobs = pos 10;
  max_api_keys = pos 10;
  max_file_size_bytes = negsuc 0;
}

abbrev pub status_report : Bool → Bool → AgentStatus
status_report enabled active = record {
  cdm_enabled = enabled;
  cdm_session_active = active;
  cdm_session_expires_at = none;
  agent_version = "1.0";
  last_update_failed = false;
  last_update_job_id = "";
  last_update_error = "";
}

abbrev pub checkin_report : Bool → Bool → CheckinRequest
checkin_report enabled active = record {
  sequence = 4;
  status = status_report enabled active;
  packages = none;
}

abbrev pub timeouts : Config
timeouts = record { dispatched_timeout = 300; inflight_timeout = 3600 }

abbrev pub setup : Setup
setup = record {
  quota = some defaults;
  scheduler = timeouts;
  parse_inventory = λ text. none;
  encode_reason = λ text. text;
  next_run = λ cron. some (λ now. now);
}
