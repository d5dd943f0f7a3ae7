-- ===== src/Tests/Keys.antt =====
-- The theorems about keys, certificates, roles and the agent's log, on concrete ones.
use moebius.Prelude.{
  ℕ, ◌&&◌, not, String, ◌≡◌, ◌↔◌, ◌⊎◌, ◌≤◌, refl, inr, true, false, none, some, List, [], ◌∷◌, ◌++◌,
  arith, find, contains, some_lt, All, length, ◌+◌,
}
use moebius.Models.Access.{ApiKey}
use moebius.Database.{Db}
use moebius.Store.Devices.{store_revoke_device}
use moebius.Auth.Identity.{
  Role, Certificate, admitted, refused, authorize, authenticate_agent, has_permission, has_hash,
  identity_of, role_permissions, permissions_subset,
}
use moebius.Auth.Identity.Access.{authorize-exact, store_revoke_device-authenticate_agent}
use moebius.Auth.Permissions.{
  super_admin_permissions, tenant_admin_permissions, operator_permissions, technician_permissions,
  viewer_permissions,
}
use moebius.Auth.Permissions.Order.{passes, passes-permissions}
use moebius.Api.Roles.{Roles, CreateRoleRequest}
use moebius.Api.Roles.Grants as Grants
use moebius.Api.Roles.Grants.{
  Incoming, creating, updating, deleting, run-IsWithin, IsWithin, IsBounded,
}
use moebius.Agent.LogShipper.{LogEntry, Shipper, unreachable, answered, default_max_buffer}
use moebius.Agent.LogShipper.Steps as Steps
use moebius.Agent.LogShipper.Steps.{
  Step, adding, beginning, ending, entries, delivered, loses, held,
}
use moebius.Agent.LogShipper.Order.{run-held}
use moebius.Tests.{env_at, db_a}

abbrev key_a : ApiKey
key_a = record {
  id = "key_a";
  tenant_id = "ten_a";
  user_id = "usr_a";
  key_hash = "secret";
  role_id = "rol_a";
  scope = none;
  is_admin = false;
  expires_at = some 50;
}

abbrev role_a : Role
role_a = record {
  id = "rol_a";
  tenant_id = some "ten_a";
  name = "operator";
  permissions = "jobs:read" ∷ "roles:write" ∷ [];
  is_custom = true;
}

abbrev db_k : Db
db_k = record db_a { api_keys = key_a ∷ [] }

authorize-exact_example :
    (authorize (λ s. s) (env_at 20) "secret" "jobs:read" (role_a ∷ []) db_k
      ≡ admitted (identity_of key_a (role_a ∷ [])))
    ↔ ((false ≡ false)
        × (false ≡ false)
        × ((k : ApiKey) × (find (has_hash "secret") db_k.api_keys ≡ some k)
            × (some_lt k.expires_at 20 ≡ false)
            × ((k.is_admin ≡ true)
                ⊎ (has_permission (role_permissions k.role_id (role_a ∷ [])) "jobs:read" ≡ true))
            × (identity_of k (role_a ∷ []) ≡ identity_of key_a (role_a ∷ []))))
authorize-exact_example =
    authorize-exact (λ s. s) (env_at 20) "secret" "jobs:read" (role_a ∷ []) db_k
      (identity_of key_a (role_a ∷ []))

abbrev cert_a : Certificate
cert_a = record { common_name = "dev_a"; not_before = 0; not_after = 1000; serial = "01" }

abbrev db_c : Db
db_c = record db_a {
  certificates =
      record {
        device_id = "dev_a";
        serial_number = "01";
        revoked_at = none;
        revocation_reason = none;
      }
      ∷ [];
}

revokes_a : (store_revoke_device (env_at 20) "ten_a" "dev_a" "lost" db_c).0 ≡ true
unfolding store_revoke_device find
revokes_a = refl

store_revoke_device-authenticate_agent_example :
    (status : ℕ) × (code : String) × (authenticate_agent
        (env_at 30)
        (some cert_a)
        (store_revoke_device (env_at 20) "ten_a" "dev_a" "lost" db_c).1
      ≡ refused status code)
store_revoke_device-authenticate_agent_example =
    store_revoke_device-authenticate_agent (env_at 20) (env_at 30) "ten_a" "lost" cert_a db_c
      revokes_a

abbrev roles_a : Roles
roles_a = record { db = db_k; roles = role_a ∷ []; users = [] }

abbrev wider : CreateRoleRequest
wider = record { name = "more"; permissions = "jobs:read" ∷ "devices:revoke" ∷ [] }

abbrev narrower : CreateRoleRequest
narrower = record { name = "less"; permissions = "jobs:read" ∷ [] }

abbrev asks : Grants.Request → Incoming
asks r = record { caller = identity_of key_a (role_a ∷ []); env = env_at 20; request = r }

abbrev requests : List Incoming
requests =
    asks (creating (some wider))
    ∷ asks (creating (some narrower))
    ∷ asks (updating "rol_a" (some wider))
    ∷ asks (deleting "rol_b")
    ∷ []

fits_a : IsWithin role_a.permissions role_a
unfolding permissions_subset contains
fits_a = inr refl

limited_a : (r : Grants.Request) → IsBounded role_a.permissions (asks r)
unfolding permissions_subset contains find
limited_a r = (refl, refl)

run-IsWithin_example : All (IsWithin role_a.permissions) (Grants.run requests roles_a).roles
run-IsWithin_example =
    run-IsWithin role_a.permissions requests roles_a
      (
        limited_a (creating (some wider)),
        (
          limited_a (creating (some narrower)),
          (limited_a (updating "rol_a" (some wider)), (limited_a (deleting "rol_b"), tt)),
        ),
      )
      (fits_a, tt)

abbrev line : ℕ → LogEntry
line t = record { timestamp = t; level = "info"; message = "" }

abbrev idle : Shipper
idle = record { buffer = []; batch = none }

-- The first flush fails while a third entry comes in, the second succeeds.
abbrev steps : List Step
steps =
    adding (line 1)
    ∷ adding (line 2)
    ∷ beginning
    ∷ adding (line 3)
    ∷ ending unreachable
    ∷ beginning
    ∷ ending (answered 200)
    ∷ []

few : length (held idle) + length (entries steps) ≤ default_max_buffer
unfolding entries
few = omega arith

none_lost : All (λ x. loses x ≡ false) steps
none_lost = (refl, (refl, (refl, (refl, (refl, (refl, (refl, tt)))))))

run-held_example : delivered steps idle ++ held (Steps.run steps idle) ≡ held idle ++ entries steps
run-held_example = run-held steps idle few none_lost

passes-permissions_example :
    ((passes viewer_permissions "jobs:read" (identity_of key_a [])
        && not (passes technician_permissions "jobs:read" (identity_of key_a [])))
      ≡ false)
    × ((passes technician_permissions "jobs:read" (identity_of key_a [])
          && not (passes operator_permissions "jobs:read" (identity_of key_a [])))
        ≡ false)
    × ((passes operator_permissions "jobs:read" (identity_of key_a [])
          && not (passes tenant_admin_permissions "jobs:read" (identity_of key_a [])))
        ≡ false)
    × ((passes tenant_admin_permissions "jobs:read" (identity_of key_a [])
          && not (passes super_admin_permissions "jobs:read" (identity_of key_a [])))
        ≡ false)
passes-permissions_example = passes-permissions "jobs:read" (identity_of key_a [])
