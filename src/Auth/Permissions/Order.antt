-- ===== src/Auth/Permissions/Order.antt =====
-- How the predefined roles of server/rbac compare.
use moebius.Prelude.{
  String, ◌≡◌, refl, Bool, true, false, not, ◌&&◌, eq_iff, List, [], ◌∷◌, arith, contains,
}
use moebius.Auth.Identity.{
  Identity, Decision, admitted, refused, has_permission, require, permissions_subset,
}
use moebius.Auth.Permissions.{
  super_admin_permissions, tenant_admin_permissions, operator_permissions, technician_permissions,
  viewer_permissions,
}

abbrev with_permissions : List String → Identity → Identity
with_permissions perms i = record i { permissions = perms }

has_permission-contains :
    (perms : List String) (p : String) → has_permission perms p ≡ contains p perms
unfolding has_permission contains
has_permission-contains [] p = refl
has_permission-contains (q ∷ perms) p = ground (arith, has_permission-contains perms p)

subset-has_permission :
    (outer inner : List String) (p : String)
    → permissions_subset outer inner ≡ true
    → has_permission inner p ≡ true
    → has_permission outer p ≡ true
unfolding permissions_subset has_permission
subset-has_permission outer [] p h c = cc
subset-has_permission outer (q ∷ inner) p h c = ground (
  arith,
  h,
  c,
  eq_iff q p,
  has_permission-contains outer q,
  has_permission-contains outer p,
  subset-has_permission outer inner p,
)

abbrev is_admitted : Decision Identity → Bool
is_admitted (admitted i) = true
is_admitted (refused status code) = false

-- Whether the middleware lets a caller with these permissions pass.
unfoldable pub passes : List String → String → Identity → Bool
unfolding require
passes perms p i = is_admitted (require p (with_permissions perms i))

-- A route that the first role may use and the second may not.
abbrev exceeds : List String → List String → String → Identity → Bool
exceeds inner outer p i = passes inner p i && not (passes outer p i)

exceeds-subset :
    (outer inner : List String) (p : String) (i : Identity)
    → permissions_subset outer inner ≡ true
    → exceeds inner outer p i ≡ false
unfolding passes require
exceeds-subset outer inner p i h = ground (arith, subset-has_permission outer inner p h)

viewer_first : permissions_subset technician_permissions viewer_permissions ≡ true
unfolding permissions_subset contains
viewer_first = refl

technician_second : permissions_subset operator_permissions technician_permissions ≡ true
unfolding permissions_subset contains
technician_second = refl

operator_third : permissions_subset tenant_admin_permissions operator_permissions ≡ true
unfolding permissions_subset contains
operator_third = refl

tenant_admin_fourth : permissions_subset super_admin_permissions tenant_admin_permissions ≡ true
unfolding permissions_subset contains
tenant_admin_fourth = refl

-- The predefined roles are ordered: whatever permission a route asks for, a viewer passes only
-- where a technician does, a technician only where an operator does, an operator only where a
-- tenant's administrator does, and that one only where a super administrator does.
pub passes-permissions :
    (p : String) (i : Identity)
    → ((passes viewer_permissions p i && not (passes technician_permissions p i)) ≡ false)
      × ((passes technician_permissions p i && not (passes operator_permissions p i)) ≡ false)
      × ((passes operator_permissions p i && not (passes tenant_admin_permissions p i)) ≡ false)
      × ((passes tenant_admin_permissions p i && not (passes super_admin_permissions p i)) ≡ false)
passes-permissions p i = (
  exceeds-subset technician_permissions viewer_permissions p i viewer_first,
  exceeds-subset operator_permissions technician_permissions p i technician_second,
  exceeds-subset tenant_admin_permissions operator_permissions p i operator_third,
  exceeds-subset super_admin_permissions tenant_admin_permissions p i tenant_admin_fourth,
)
