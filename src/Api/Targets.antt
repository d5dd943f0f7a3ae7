-- ===== src/Api/Targets.antt =====
-- resolveTargets of server/api/jobs.go, which server/scheduler/scheduler.go repeats: a target is
-- expanded to devices, each listed once, in the order of first mention.
pub mod Laws
use moebius.Prelude.{
  String, Bool, Option, none, some, ◌>>=◌, List, [], ◌∷◌, ◌++◌, contains, if◌then◌else◌,
}
use moebius.Models.Device.{Membership}
use moebius.Models.Job.{JobTarget}
use moebius.Database.{Db, Env, Call, by_group, by_tag, by_site, target_rows}
use moebius.Auth.Scope.{member_rows}

-- The closure `add`: `seen` holds exactly the ids of `deviceIDs`.
unfoldable pub add : List String → String → List String
unfolding contains
add devices id = if contains id devices then devices else devices ++ id ∷ []

unfoldable pub add_all : List String → List String → List String
add_all devices [] = devices
add_all devices (id ∷ ids) = add_all (add devices id) ids

-- One of the three loops over groups, tags or sites; `none` is the error.
unfoldable pub add_members :
    Env
    → Db
    → String
    → (String → Call)
    → List Membership
    → List String
    → List String
    → Option (List String)
add_members env db tenant call rows [] devices = some devices
add_members env db tenant call rows (owner ∷ owners) devices =
    if env.fault (call owner)
    then none
    else add_members env db tenant call rows owners
        (add_all devices (member_rows db tenant owner rows))

unfoldable pub resolve_targets : Env → Db → String → JobTarget → Option (List String)
resolve_targets env db tenant target = do
  a ←
      add_members env db tenant (target_rows by_group) db.device_groups target.group_ids
        (add_all [] target.device_ids)
  b ← add_members env db tenant (target_rows by_tag) db.device_tags target.tag_ids a
  add_members env db tenant (target_rows by_site) db.device_sites target.site_ids b
