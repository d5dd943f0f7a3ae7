-- ===== src/Auth/Scope/Subset.antt =====
-- Scopes that are compared before they are resolved (ScopeIsSubset of server/auth/scope.go).
use moebius.Prelude.{String, ◌≡◌, true, eq_iff, Option, none, some, List, [], ◌∷◌, contains, arith}
use moebius.Models.Access.{ApiScope}
use moebius.Models.Device.{Membership}
use moebius.Database.{Db, Env}
use moebius.Auth.Scope.{all_in_set, scope_is_subset, resolve_scope, device_in_scope}
use moebius.Auth.Scope.Resolve.{has_row, belongs, scope_allows, resolve_scope-exact}

pub all_in_set-contains :
    (inner outer : List String) (id : String)
    → all_in_set inner outer ≡ true
    → contains id inner ≡ true
    → contains id outer ≡ true
unfolding all_in_set contains
all_in_set-contains [] outer id h c = cc
all_in_set-contains (x ∷ inner) outer id h c =
    ground (arith, eq_iff x id, all_in_set-contains inner outer id)

belongs_of_contains :
    (db : Db) (tenant : String) (rows : List Membership) (owner : String) (owners : List String)
    (device : String)
    → contains owner owners ≡ true
    → has_row db tenant rows owner device ≡ true
    → belongs db tenant rows owners device ≡ true
unfolding contains belongs
belongs_of_contains db tenant rows owner [] device c h = cc
belongs_of_contains db tenant rows owner (x ∷ owners) device c h =
    ground (arith, eq_iff x owner, belongs_of_contains db tenant rows owner owners device)

belongs_mono :
    (db : Db) (tenant : String) (rows : List Membership) (inner outer : List String)
    (device : String)
    → all_in_set inner outer ≡ true
    → belongs db tenant rows inner device ≡ true
    → belongs db tenant rows outer device ≡ true
unfolding all_in_set belongs
belongs_mono db tenant rows [] outer device h b = cc
belongs_mono db tenant rows (x ∷ inner) outer device h b = ground (
  arith,
  belongs_of_contains db tenant rows x outer device,
  belongs_mono db tenant rows inner outer device,
)

-- A scope that is a subset of another allows no device that the other does not allow.
scope_allows_mono :
    (db : Db) (tenant : String) (outer inner : ApiScope) (device : String)
    → scope_is_subset (some outer) (some inner) ≡ true
    → scope_allows db tenant inner device ≡ true
    → scope_allows db tenant outer device ≡ true
unfolding scope_is_subset scope_allows
scope_allows_mono db tenant outer inner device h a = ground (
  arith,
  belongs_mono db tenant db.device_groups inner.group_ids outer.group_ids device,
  belongs_mono db tenant db.device_tags inner.tag_ids outer.tag_ids device,
  belongs_mono db tenant db.device_sites inner.site_ids outer.site_ids device,
  all_in_set-contains inner.device_ids outer.device_ids device,
)

-- Where a scope passes ScopeIsSubset under another and both resolve, every device that the inner
-- scope lets through the outer one lets through too, whether or not either is unrestricted.
pub resolve_scope-subset :
    (env : Env) (db : Db) (tenant : String) (outer inner : Option ApiScope)
    (outer_set inner_set : Option (List String)) (device : String)
    → scope_is_subset outer inner ≡ true
    → resolve_scope env db tenant outer ≡ some outer_set
    → resolve_scope env db tenant inner ≡ some inner_set
    → device_in_scope inner_set device ≡ true
    → device_in_scope outer_set device ≡ true
resolve_scope-subset env db tenant none inner outer_set inner_set device h po pi d =
    unfold resolve_scope device_in_scope in ground arith
resolve_scope-subset env db tenant (some outer) none outer_set inner_set device h po pi d =
    unfold scope_is_subset in cc
resolve_scope-subset env db tenant (some outer) (some inner) outer_set inner_set device h po pi d =
    ground (
      arith,
      resolve_scope-exact env db tenant outer outer_set device,
      resolve_scope-exact env db tenant inner inner_set device,
      scope_allows_mono db tenant outer inner device,
    )
