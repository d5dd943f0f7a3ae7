-- ===== src/Auth/Scope/Resolve.antt =====
-- What a scope resolves to (ResolveScope, DeviceInScope, FilterDeviceIDs of server/auth/scope.go).
use moebius.Prelude.{
  String, ◌≡◌, refl, Bool, false, ◌&&◌, ◌||◌, ◌==◌, eq_iff, Option, none, some, List, [], ◌∷◌, ◌++◌,
  contains, contains-append, arith,
}
use moebius.Models.Access.{ApiScope}
use moebius.Models.Device.{Membership}
use moebius.Database.{Db, Env, Call, by_group, by_tag, by_site, scope_rows}
use moebius.Auth.Scope.{
  in_tenant, member_rows, expand, resolve_scope, device_in_scope, filter_device_ids,
}

-- A membership row puts the device under the owner, and the device is the tenant's.
unfoldable pub has_row : Db → String → List Membership → String → String → Bool
has_row db tenant [] owner device = false
has_row db tenant (m ∷ rows) owner device =
    (m.owner_id == owner && in_tenant tenant m.device_id db.devices && m.device_id == device)
    || has_row db tenant rows owner device

unfoldable pub belongs : Db → String → List Membership → List String → String → Bool
belongs db tenant rows [] device = false
belongs db tenant rows (owner ∷ owners) device =
    has_row db tenant rows owner device || belongs db tenant rows owners device

-- The devices that a scope names, directly or through a group, a tag or a site.
unfoldable pub scope_allows : Db → String → ApiScope → String → Bool
scope_allows db tenant scope device =
    contains device scope.device_ids
    || belongs db tenant db.device_groups scope.group_ids device
    || belongs db tenant db.device_tags scope.tag_ids device
    || belongs db tenant db.device_sites scope.site_ids device

pub contains-member_rows :
    (db : Db) (tenant owner : String) (rows : List Membership) (device : String)
    → contains device (member_rows db tenant owner rows) ≡ has_row db tenant rows owner device
unfolding member_rows contains has_row
contains-member_rows db tenant owner [] device = refl
contains-member_rows db tenant owner (m ∷ rows) device =
    ground (arith, contains-member_rows db tenant owner rows device)

pub contains-expand :
    (env : Env) (db : Db) (tenant : String) (call : String → Call) (rows : List Membership)
    (owners allowed result : List String) (device : String)
    → expand env db tenant call rows owners allowed ≡ some result
    → contains device result ≡ (contains device allowed || belongs db tenant rows owners device)
unfolding expand belongs
contains-expand env db tenant call rows [] allowed result device e = ground arith
contains-expand env db tenant call rows (owner ∷ owners) allowed result device e = ground (
  arith,
  contains-expand env db tenant call rows owners (allowed ++ member_rows db tenant owner rows)
      result device,
  contains-append device allowed (member_rows db tenant owner rows),
  contains-member_rows db tenant owner rows device,
)

-- The three expansions of a scope that resolves.
resolve_scope-steps :
    (env : Env) (db : Db) (tenant : String) (scope : ApiScope) (allowed : Option (List String))
    → resolve_scope env db tenant (some scope) ≡ some allowed
    → (a : List String) × (b : List String) × (c : List String) × (expand env db tenant
          (scope_rows by_group)
          db.device_groups
          scope.group_ids
          scope.device_ids
        ≡ some a)
      × (expand env db tenant (scope_rows by_tag) db.device_tags scope.tag_ids a ≡ some b)
      × (expand env db tenant (scope_rows by_site) db.device_sites scope.site_ids b ≡ some c)
      × (allowed ≡ some c)
unfolding resolve_scope
resolve_scope-steps env db tenant scope allowed e = ground arith

-- A scope that resolves, resolves to exactly the devices that it names directly or that are the
-- tenant's and belong to one of its groups, tags or sites.
pub resolve_scope-exact :
    (env : Env) (db : Db) (tenant : String) (scope : ApiScope) (allowed : Option (List String))
    (device : String)
    → resolve_scope env db tenant (some scope) ≡ some allowed
    → device_in_scope allowed device ≡ scope_allows db tenant scope device
unfolding device_in_scope scope_allows
resolve_scope-exact env db tenant scope allowed device e =
    let (a, b, c, pa, pb, pc, whole) = resolve_scope-steps env db tenant scope allowed e in
    ground (
      arith,
      contains-expand env db tenant (scope_rows by_group) db.device_groups scope.group_ids
          scope.device_ids a device,
      contains-expand env db tenant (scope_rows by_tag) db.device_tags scope.tag_ids a b device,
      contains-expand env db tenant (scope_rows by_site) db.device_sites scope.site_ids b c device,
    )

-- Filtering keeps exactly the devices that are in scope.
pub contains-filter_device_ids :
    (allowed : Option (List String)) (devices : List String) (device : String)
    → contains device (filter_device_ids allowed devices)
      ≡ (contains device devices && device_in_scope allowed device)
unfolding filter_device_ids device_in_scope contains
contains-filter_device_ids none devices device = ground arith
contains-filter_device_ids (some allowed) [] device = refl
contains-filter_device_ids (some allowed) (d ∷ devices) device =
    ground (arith, contains-filter_device_ids (some allowed) devices device, eq_iff d device)
