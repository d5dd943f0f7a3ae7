-- ===== src/Api/Targets/Laws.antt =====
-- What a target resolves to.
use moebius.Prelude.{
  String, ◌≡◌, refl, Bool, false, ◌||◌, ◌==◌, eq_iff, some, List, [], ◌∷◌, ◌++◌, contains,
  contains-append, arith,
}
use moebius.Models.Device.{Membership}
use moebius.Models.Job.{JobTarget}
use moebius.Database.{Db, Env, Call, by_group, by_tag, by_site, target_rows}
use moebius.Auth.Scope.{member_rows}
use moebius.Auth.Scope.Resolve.{belongs, contains-member_rows}
use moebius.Api.Targets.{add, add_all, add_members, resolve_targets}

-- No text stands twice in the list.
abbrev pub NoRepeats : List String → Type 0
NoRepeats [] = Unit {0}
NoRepeats (x ∷ xs) = (contains x xs ≡ false) × NoRepeats xs

-- The devices that a target names, directly or through a group, a tag or a site.
unfoldable pub target_names : Db → String → JobTarget → String → Bool
target_names db tenant target device =
    contains device target.device_ids
    || belongs db tenant db.device_groups target.group_ids device
    || belongs db tenant db.device_tags target.tag_ids device
    || belongs db tenant db.device_sites target.site_ids device

contains-add :
    (devices : List String) (id device : String)
    → contains device (add devices id) ≡ (contains device devices || id == device)
unfolding add contains
contains-add devices id device =
    ground (arith, contains-append device devices (id ∷ []), eq_iff id device)

contains-add_all :
    (devices ids : List String) (device : String)
    → contains device (add_all devices ids) ≡ (contains device devices || contains device ids)
unfolding add_all contains
contains-add_all devices [] device = ground arith
contains-add_all devices (id ∷ ids) device =
    ground (arith, contains-add_all (add devices id) ids device, contains-add devices id device)

NoRepeats-append :
    (xs : List String) (x : String)
    → NoRepeats xs
    → contains x xs ≡ false
    → NoRepeats (xs ++ x ∷ [])
unfolding contains
NoRepeats-append [] x n h = (refl, tt)
NoRepeats-append (y ∷ xs) x n h = (
  ground (arith, contains-append y xs (x ∷ []), eq_iff y x, eq_iff x y),
  NoRepeats-append xs x n.1 (ground arith),
)

NoRepeats-add :
    (devices : List String) (id : String) → NoRepeats devices → NoRepeats (add devices id)
unfolding add
NoRepeats-add devices id n = ground (arith, NoRepeats-append devices id)

NoRepeats-add_all :
    (devices ids : List String) → NoRepeats devices → NoRepeats (add_all devices ids)
unfolding add_all
NoRepeats-add_all devices [] n = n
NoRepeats-add_all devices (id ∷ ids) n =
    NoRepeats-add_all (add devices id) ids (NoRepeats-add devices id n)

NoRepeats-add_members :
    (env : Env) (db : Db) (tenant : String) (call : String → Call) (rows : List Membership)
    (owners devices result : List String)
    → add_members env db tenant call rows owners devices ≡ some result
    → NoRepeats devices
    → NoRepeats result
unfolding add_members
NoRepeats-add_members env db tenant call rows [] devices result e n = ground arith
NoRepeats-add_members env db tenant call rows (owner ∷ owners) devices result e n =
    NoRepeats-add_members env db tenant call rows owners _ result (ground arith)
      (NoRepeats-add_all devices (member_rows db tenant owner rows) n)

contains-add_members :
    (env : Env) (db : Db) (tenant : String) (call : String → Call) (rows : List Membership)
    (owners devices result : List String) (device : String)
    → add_members env db tenant call rows owners devices ≡ some result
    → contains device result ≡ (contains device devices || belongs db tenant rows owners device)
unfolding add_members belongs
contains-add_members env db tenant call rows [] devices result device e = ground arith
contains-add_members env db tenant call rows (owner ∷ owners) devices result device e = ground (
  arith,
  contains-add_members env db tenant call rows owners
      (add_all devices (member_rows db tenant owner rows)) result device,
  contains-add_all devices (member_rows db tenant owner rows) device,
  contains-member_rows db tenant owner rows device,
)

resolve_targets-steps :
    (env : Env) (db : Db) (tenant : String) (target : JobTarget) (devices : List String)
    → resolve_targets env db tenant target ≡ some devices
    → (a : List String) × (b : List String) × (add_members env db tenant
          (target_rows by_group)
          db.device_groups
          target.group_ids
          (add_all [] target.device_ids)
        ≡ some a)
      × (add_members env db tenant (target_rows by_tag) db.device_tags target.tag_ids a ≡ some b)
      × (add_members env db tenant (target_rows by_site) db.device_sites target.site_ids b
          ≡ some devices)
unfolding resolve_targets
resolve_targets-steps env db tenant target devices e = ground arith

-- A target that resolves, resolves to exactly the devices that it names directly or that are the
-- tenant's and belong to one of its groups, tags or sites, and lists none of them twice.
pub resolve_targets-exact :
    (env : Env) (db : Db) (tenant : String) (target : JobTarget) (devices : List String)
    (device : String)
    → resolve_targets env db tenant target ≡ some devices
    → NoRepeats devices × (contains device devices ≡ target_names db tenant target device)
unfolding target_names contains
resolve_targets-exact env db tenant target devices device e =
    let (a, b, pa, pb, pc) = resolve_targets-steps env db tenant target devices e in
    (
      NoRepeats-add_members env db tenant _ _ _ b devices pc (
          NoRepeats-add_members env db tenant _ _ _ a b pb (
            NoRepeats-add_members env db tenant _ _ _ _ a pa
              (NoRepeats-add_all [] target.device_ids tt))),
      ground (
        arith,
        contains-add_all [] target.device_ids device,
        contains-add_members env db tenant (target_rows by_group) db.device_groups target.group_ids
            (add_all [] target.device_ids) a device,
        contains-add_members env db tenant (target_rows by_tag) db.device_tags target.tag_ids a b
            device,
        contains-add_members env db tenant (target_rows by_site) db.device_sites target.site_ids b
            devices device,
      ),
    )
