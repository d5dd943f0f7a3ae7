-- ===== src/Auth/Permissions.antt =====
-- server/rbac/permissions.go: the permissions and the sets of the predefined roles.
pub mod Order
use moebius.Prelude.{String, List, [], ◌∷◌}

abbrev pub all_permissions : List String
all_permissions =
    "devices:read" ∷ "devices:write" ∷ "devices:revoke" ∷ "jobs:read" ∷ "jobs:create" ∷ "jobs:retry"
    ∷ "packages:deploy" ∷ "inventory:read" ∷ "inventory:request" ∷ "groups:read" ∷ "groups:write"
    ∷ "tags:read" ∷ "tags:write" ∷ "sites:read" ∷ "sites:write" ∷ "users:read" ∷ "users:write"
    ∷ "roles:read" ∷ "roles:write" ∷ "api_keys:read" ∷ "api_keys:write" ∷ "enrollment_tokens:write"
    ∷ "files:read" ∷ "files:write" ∷ "signing_keys:read" ∷ "signing_keys:write" ∷ "alerts:read"
    ∷ "alerts:write" ∷ "audit_log:read" ∷ "tenant:read" ∷ "tenant:write" ∷ "scheduled_jobs:read"
    ∷ "scheduled_jobs:write" ∷ "agent_versions:read" ∷ "agent_versions:write"
    ∷ "update_policies:read" ∷ "update_policies:write" ∷ "installers:read" ∷ "installers:write" ∷ []

abbrev pub super_admin_permissions : List String
super_admin_permissions = all_permissions

abbrev pub tenant_admin_permissions : List String
tenant_admin_permissions =
    "devices:read" ∷ "devices:write" ∷ "devices:revoke" ∷ "jobs:read" ∷ "jobs:create" ∷ "jobs:retry"
    ∷ "packages:deploy" ∷ "inventory:read" ∷ "inventory:request" ∷ "groups:read" ∷ "groups:write"
    ∷ "tags:read" ∷ "tags:write" ∷ "sites:read" ∷ "sites:write" ∷ "users:read" ∷ "users:write"
    ∷ "roles:read" ∷ "roles:write" ∷ "api_keys:read" ∷ "api_keys:write" ∷ "enrollment_tokens:write"
    ∷ "files:read" ∷ "files:write" ∷ "signing_keys:read" ∷ "signing_keys:write" ∷ "alerts:read"
    ∷ "alerts:write" ∷ "audit_log:read" ∷ "tenant:read" ∷ "tenant:write" ∷ "scheduled_jobs:read"
    ∷ "scheduled_jobs:write" ∷ "agent_versions:read" ∷ "agent_versions:write"
    ∷ "update_policies:read" ∷ "update_policies:write" ∷ "installers:read" ∷ "installers:write" ∷ []

abbrev pub operator_permissions : List String
operator_permissions =
    "devices:read" ∷ "devices:write" ∷ "devices:revoke" ∷ "jobs:read" ∷ "jobs:create" ∷ "jobs:retry"
    ∷ "packages:deploy" ∷ "inventory:read" ∷ "inventory:request" ∷ "groups:read" ∷ "groups:write"
    ∷ "tags:read" ∷ "tags:write" ∷ "sites:read" ∷ "sites:write" ∷ "enrollment_tokens:write"
    ∷ "files:read" ∷ "files:write" ∷ "signing_keys:read" ∷ "signing_keys:write" ∷ "alerts:read"
    ∷ "alerts:write" ∷ "scheduled_jobs:read" ∷ "scheduled_jobs:write" ∷ "agent_versions:read"
    ∷ "agent_versions:write" ∷ "update_policies:read" ∷ "update_policies:write" ∷ "installers:read"
    ∷ "installers:write" ∷ []

abbrev pub technician_permissions : List String
technician_permissions =
    "devices:read" ∷ "jobs:read" ∷ "jobs:create" ∷ "packages:deploy" ∷ "inventory:read"
    ∷ "inventory:request" ∷ "groups:read" ∷ "tags:read" ∷ "sites:read" ∷ []

abbrev pub viewer_permissions : List String
viewer_permissions =
    "devices:read" ∷ "jobs:read" ∷ "inventory:read" ∷ "groups:read" ∷ "tags:read" ∷ "sites:read"
    ∷ []
