-- ===== src/Auth/Scope.antt =====
-- server/auth/scope.go. Sets of device ids are lists that are only looked up.
pub mod Resolve
pub mod Subset
use moebius.Prelude.{
  String, Bool, true, false, not, ◌&&◌, ◌||◌, ◌==◌, Option, none, some, List, [], ◌∷◌, ◌++◌, map,
  contains, select, ◌>>=◌, if◌then◌else◌,
}
use moebius.Models.Access.{ApiScope}
use moebius.Models.Device.{Device, Membership, Owned}
use moebius.Models.Job.{JobTarget}
use moebius.Database.{Db, Env, Call, Dimension, by_group, by_tag, by_site, scope_rows, scope_exists}

-- The join with devices: the device is one of the tenant's.
unfoldable pub in_tenant : String → String → List Device → Bool
in_tenant tenant device [] = false
in_tenant tenant device (d ∷ ds) =
    (d.id == device && d.tenant_id == tenant) || in_tenant tenant device ds

-- SELECT device_id … JOIN devices … WHERE owner AND tenant
unfoldable pub member_rows : Db → String → String → List Membership → List String
unfolding select in_tenant
member_rows db tenant owner rows =
    map (λ (m : Membership). m.device_id)
      (select (λ (m : Membership). m.owner_id == owner && in_tenant tenant m.device_id db.devices)
        rows)

-- One of the three loops that expand ids to devices; `none` is the error.
unfoldable pub expand :
    Env
    → Db
    → String
    → (String → Call)
    → List Membership
    → List String
    → List String
    → Option (List String)
expand env db tenant call rows [] allowed = some allowed
expand env db tenant call rows (owner ∷ owners) allowed =
    if env.fault (call owner)
    then none
    else expand env db tenant call rows owners (allowed ++ member_rows db tenant owner rows)

-- `none` is the error; `some none` the nil map of an unscoped key.
unfoldable pub resolve_scope : Env → Db → String → Option ApiScope → Option (Option (List String))
resolve_scope env db tenant none = some none
resolve_scope env db tenant (some scope) = do
  a ← expand env db tenant (scope_rows by_group) db.device_groups scope.group_ids scope.device_ids
  b ← expand env db tenant (scope_rows by_tag) db.device_tags scope.tag_ids a
  c ← expand env db tenant (scope_rows by_site) db.device_sites scope.site_ids b
  some (some c)

unfoldable pub device_in_scope : Option (List String) → String → Bool
device_in_scope none device = true
device_in_scope (some allowed) device = contains device allowed

unfoldable pub filter_device_ids : Option (List String) → List String → List String
unfolding select
filter_device_ids none devices = devices
filter_device_ids (some allowed) devices = select (λ d. contains d allowed) devices

abbrev pub non_empty {ℓ} : {A : Type ℓ} → List A → Bool
non_empty [] = false
non_empty (x ∷ xs) = true

unfoldable pub scope_has_field : Option ApiScope → String → Bool
scope_has_field none field = false
scope_has_field (some scope) field =
    if field == "groups"
    then non_empty scope.group_ids
    else if field == "tags"
    then non_empty scope.tag_ids
    else if field == "sites"
    then non_empty scope.site_ids
    else if field == "devices"
    then non_empty scope.device_ids
    else false

unfoldable pub all_in_set : List String → List String → Bool
all_in_set [] allowed = true
all_in_set (c ∷ cs) allowed = contains c allowed && all_in_set cs allowed

unfoldable pub any_in_set : List String → List String → Bool
any_in_set [] allowed = false
any_in_set (c ∷ cs) allowed = contains c allowed || any_in_set cs allowed

-- One of the four tests of TargetOverlapsScope: both lists are given and share no id.
unfoldable pub dimension_blocks : List String → List String → Bool
unfolding any_in_set
dimension_blocks scoped targeted =
    non_empty scoped && non_empty targeted && not (any_in_set targeted scoped)

unfoldable pub target_overlaps_scope : Option ApiScope → Option JobTarget → Bool
unfolding dimension_blocks
target_overlaps_scope none target = true
target_overlaps_scope (some scope) none = true
target_overlaps_scope (some scope) (some target) =
    if dimension_blocks scope.group_ids target.group_ids
    then false
    else if dimension_blocks scope.tag_ids target.tag_ids
    then false
    else if dimension_blocks scope.site_ids target.site_ids
    then false
    else if dimension_blocks scope.device_ids target.device_ids
    then false
    else true

unfoldable pub scope_is_subset : Option ApiScope → Option ApiScope → Bool
scope_is_subset none inner = true
scope_is_subset (some outer) none = false
scope_is_subset (some outer) (some inner) =
    all_in_set inner.group_ids outer.group_ids
    && all_in_set inner.tag_ids outer.tag_ids
    && all_in_set inner.site_ids outer.site_ids
    && all_in_set inner.device_ids outer.device_ids

-- SELECT EXISTS … WHERE id AND tenant_id
unfoldable pub owned : String → String → List Owned → Bool
owned tenant id [] = false
owned tenant id (o ∷ os) = (o.id == id && o.tenant_id == tenant) || owned tenant id os

-- `check` over the ids of one field; the first id that fails it is the error.
unfoldable pub check_owned : Env → String → (String → Bool) → List String → Option String
check_owned env table known [] = none
check_owned env table known (id ∷ ids) =
    if env.fault (scope_exists table id)
    then some id
    else if known id
    then check_owned env table known ids
    else some id

abbrev first_error : Option String → Option String → Option String
first_error (some id) later = some id
first_error none later = later

-- `none` is the nil error.
unfoldable pub validate_scope_tenant : Env → Db → String → Option ApiScope → Option String
validate_scope_tenant env db tenant none = none
validate_scope_tenant env db tenant (some scope) =
    first_error (check_owned env "groups" (λ id. owned tenant id db.groups) scope.group_ids) (
      first_error (check_owned env "tags" (λ id. owned tenant id db.tags) scope.tag_ids) (
        first_error (check_owned env "sites" (λ id. owned tenant id db.sites) scope.site_ids)
          (check_owned env "devices" (λ id. in_tenant tenant id db.devices) scope.device_ids)))

unfoldable pub id_in_scope_field : Option ApiScope → String → String → Bool
id_in_scope_field none field id = true
id_in_scope_field (some scope) field id =
    let ids : List String =
      if field == "groups"
      then scope.group_ids
      else if field == "tags"
      then scope.tag_ids
      else if field == "sites"
      then scope.site_ids
      else if field == "devices"
      then scope.device_ids
      else [] in
    if non_empty ids then contains id ids else true
