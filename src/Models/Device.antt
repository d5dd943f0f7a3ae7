-- ===== src/Models/Device.antt =====
-- shared/models/device.go, cert.go, audit.go: the rows of devices, agent_certificates and audit_log,
-- with the columns that the modelled statements read or write.
use moebius.Prelude.{ℕ, String, Bool, true, false, Option, List}
use moebius.Models.Access.{TenantQuotas}

pub data DeviceStatus : Type 0 where
  online offline unknown revoked : DeviceStatus

-- status = 'revoked'
abbrev pub is_revoked : DeviceStatus → Bool
is_revoked revoked = true
is_revoked _ = false

pub record Device : Type 0 where
  pub id : String
  pub tenant_id : String
  pub hostname : String
  pub agent_version : String
  pub status : DeviceStatus
  pub last_seen_at : Option ℕ
  pub cdm_enabled : Bool
  pub cdm_session_active : Bool
  pub cdm_session_expires_at : Option ℕ
  pub sequence_last : ℕ

pub record AgentCertificate : Type 0 where
  pub device_id : String
  pub serial_number : String
  pub revoked_at : Option ℕ
  pub revocation_reason : Option String

-- A row of tenants: the quotas are those of its config, if the config parses and has them.
pub record Tenant : Type 0 where
  pub id : String
  pub quotas : Option TenantQuotas

-- A row of groups, tags or sites, as the checks of ownership read it.
pub record Owned : Type 0 where
  pub id : String
  pub tenant_id : String

-- A row of device_groups, device_tags or device_sites.
pub record Membership : Type 0 where
  pub owner_id : String
  pub device_id : String

-- The values of an audit entry's metadata object.
pub data Detail : Type 0 where
  text : String → String → Detail
  number : String → ℕ → Detail

pub record AuditEntry : Type 0 where
  pub id : String
  pub tenant_id : String
  pub actor_id : String
  pub actor_type : String
  pub action : String
  pub resource_type : String
  pub resource_id : String
  pub metadata : List Detail
  pub created_at : ℕ
