-- ===== src/Api/Roles.antt =====
-- server/api/roles.go over server/store/roles.go. Column permissions is a list; the roles of the
-- system have no tenant. The audit logger is there.
pub mod Grants
use moebius.Prelude.{
  ℕ, ◌+◌, String, Bool, true, false, not, ◌&&◌, ◌||◌, ◌==◌, Option, none, some, List, [], ◌∷◌, ◌++◌,
  contains, map, find, select, count, update, delete, ltb, eqb, is_some, is_none, if◌then◌else◌,
}
use moebius.Models.Access.{ApiKey}
use moebius.Models.Device.{Tenant, text}
use moebius.Database.{
  Db, Env, select_role, insert_role, update_role, count_role, delete_role, ref_ok, log_action,
}
use moebius.Auth.Identity.{Role, Identity, permissions_subset}
use moebius.Api.Respond.{Response, reply, error, error_status}

-- A row of users, as the check of a role's use reads it.
pub record UserRole : Type 0 where
  pub tenant_id : String
  pub role_id : Option String

pub record Roles : Type 0 where
  pub db : Db
  pub roles : List Role
  pub users : List UserRole

pub record CreateRoleRequest : Type 0 where
  pub name : String
  pub permissions : List String

-- tenant_id IS NULL OR tenant_id = $1
abbrev pub is_visible : String → Role → Bool
is_visible tenant r = elim r.tenant_id [ none ↦ true | some t ↦ t == tenant ]

-- tenant_id = $1, on a nullable column
abbrev pub is_tenants : String → Role → Bool
is_tenants tenant r = elim r.tenant_id [ none ↦ false | some t ↦ t == tenant ]

abbrev pub is_empty : List String → Bool
is_empty [] = true
is_empty (x ∷ xs) = false

-- ListRoles; its order is left out.
unfoldable pub list_roles : Env → String → Roles → Response (List Role)
unfolding error_status select
list_roles env tenant s =
    if env.fault select_role
    then error_status 500
    else reply 200 (select (is_visible tenant) s.roles)

-- GetRole: `none` is the error, `some none` no row.
unfoldable pub get_role : Env → String → String → Roles → Option (Option Role)
unfolding find
get_role env tenant id s =
    if env.fault select_role
    then none
    else some (find (λ (r : Role). r.id == id && is_visible tenant r) s.roles)

-- GET /v1/roles/{role_id}
unfoldable pub get : Env → String → String → Roles → Response Role
unfolding error_status get_role
get env tenant id s = elim (get_role env tenant id s) [
  | none ↦ error_status 500
  | some found ↦ elim found [ none ↦ error 404 "role_not_found" | some r ↦ reply 200 r ]
]

-- CreateRole: whether the row is inserted.
abbrev role_accepted : Role → Roles → Bool
role_accepted role s =
    not (contains role.id (map (λ (r : Role). r.id) s.roles))
    && ref_ok role.tenant_id (map (λ (t : Tenant). t.id) s.db.tenants)

abbrev pub may_grant : Identity → List String → Bool
may_grant caller permissions = caller.is_admin || permissions_subset caller.permissions permissions

abbrev pub new_role : Env → Identity → CreateRoleRequest → Role
new_role env caller req = record {
  id = env.fresh insert_role;
  tenant_id = some caller.tenant_id;
  name = req.name;
  permissions = req.permissions;
  is_custom = true;
}

-- POST /v1/roles; `none` is a body that does not decode.
unfoldable pub create : Identity → Env → Option CreateRoleRequest → Roles → Response Role × Roles
unfolding error_status permissions_subset
create caller env none s = (error_status 400, s)
create caller env (some req) s =
    if req.name == "" || is_empty req.permissions
    then (error_status 400, s)
    else if not (may_grant caller req.permissions)
    then (error 403 "permission_escalation", s)
    else let role : Role = new_role env caller req in
      if env.fault insert_role || not (role_accepted role s) then (error_status 500, s) else (
        reply 201 role,
        record s {
          roles = s.roles ++ role ∷ [];
          db =
              log_action env caller.tenant_id caller.user_id "user" "role.create" "role" role.id
                (text "name" req.name ∷ []) s.db;
        },
      )

-- WHERE id = $3 AND tenant_id = $4 AND is_custom = TRUE
abbrev pub is_custom_role : String → String → Role → Bool
is_custom_role tenant id r = r.id == id && is_tenants tenant r && r.is_custom

abbrev rename : CreateRoleRequest → Role → Role
rename req r = record r { name = if req.name == "" then r.name else req.name }

abbrev pub grant : CreateRoleRequest → Role → Role
grant req r = record (rename req r) {
  permissions = if is_empty req.permissions then r.permissions else req.permissions;
}

-- UpdateRole with the changed copy of the row, and the answer.
abbrev pub write_role : Identity → Env → String → Role → Roles → Response Role × Roles
write_role caller env id role s =
    if env.fault update_role
      || not (is_some (find (is_custom_role caller.tenant_id role.id) s.roles))
    then (error_status 500, s)
    else (
      reply 200 role,
      record s {
        roles =
            update (is_custom_role caller.tenant_id role.id)
              (λ r. record r { name = role.name; permissions = role.permissions }) s.roles;
        db = log_action env caller.tenant_id caller.user_id "user" "role.update" "role" id [] s.db;
      },
    )

-- PATCH /v1/roles/{role_id}
unfoldable pub update_handler :
    Identity → Env → String → Option CreateRoleRequest → Roles → Response Role × Roles
unfolding error_status get_role permissions_subset find update
update_handler caller env id body s = elim (get_role env caller.tenant_id id s) [
  | none ↦ (error_status 500, s)
  | some found ↦ elim found [
    | none ↦ (error 404 "role_not_found", s)
    | some existing ↦
        if not existing.is_custom then (error 403 "system_role_immutable", s) else elim body [
          | none ↦ (error_status 400, s)
          | some req ↦
              if not (is_empty req.permissions) && not (may_grant caller req.permissions)
              then (error 403 "permission_escalation", s)
              else write_role caller env id (grant req existing) s
        ]
  ]
]

-- The users and keys of the tenant with the role.
unfoldable pub role_uses : String → String → Roles → ℕ
unfolding count
role_uses tenant id s =
    count
      (λ (u : UserRole).
        elim u.role_id [ none ↦ false | some r ↦ r == id ] && u.tenant_id == tenant)
      s.users
    + count (λ (k : ApiKey). k.role_id == id && k.tenant_id == tenant) s.db.api_keys

-- DeleteRole: whether it succeeds.
unfoldable pub store_delete_role : Env → String → String → Roles → Bool × Roles
unfolding role_uses find delete
store_delete_role env tenant id s =
    if env.fault count_role
      || ltb 0 (role_uses tenant id s)
      || env.fault delete_role
      || not (is_some (find (is_custom_role tenant id) s.roles))
    then (false, s)
    else (true, record s { roles = delete (is_custom_role tenant id) s.roles })

-- DELETE /v1/roles/{role_id}: every error is answered as a conflict.
unfoldable pub delete_handler : Identity → Env → String → Roles → Response (Unit {0}) × Roles
unfolding store_delete_role
delete_handler caller env id s =
    let done = store_delete_role env caller.tenant_id id s in
    if not done.0 then (error 409 "role_in_use", s) else (
      reply 204 tt,
      record done.1 {
        db = log_action env caller.tenant_id caller.user_id "user" "role.delete" "role" id [] s.db;
      },
    )
