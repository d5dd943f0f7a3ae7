-- ===== src/Models/Access.antt =====
-- shared/models/user.go and tenant.go: scopes, quotas and API keys as the handlers read them.
use moebius.Prelude.{ℕ, String, Bool, Option, List}
use moebius.Prelude.Int.{ℤ}

pub record ApiScope : Type 0 where
  pub group_ids : List String
  pub tag_ids : List String
  pub site_ids : List String
  pub device_ids : List String

pub record TenantQuotas : Type 0 where
  pub max_devices : ℤ
  pub max_queued_jobs : ℤ
  pub max_api_keys : ℤ
  pub max_file_size_bytes : ℤ

pub record ApiKey : Type 0 where
  pub id : String
  pub tenant_id : String
  pub user_id : String
  pub key_hash : String
  pub role_id : String
  pub scope : Option ApiScope
  pub is_admin : Bool
  pub expires_at : Option ℕ
