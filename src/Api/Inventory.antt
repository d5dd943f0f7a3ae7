-- ===== src/Api/Inventory.antt =====
-- The two ways in which an agent's inventory reaches the database: processFullInventory of
-- server/api/agent_jobs.go and processPackageDelta of server/api/checkin.go.
use moebius.Prelude.{
  ℕ, suc, String, Bool, true, false, ◌&&◌, ◌==◌, Option, none, some, List, [], ◌∷◌, ◌++◌, delete,
  update, if◌then◌else◌,
}
use moebius.Models.Inventory.{
  PackageRef, PackageDelta, InventoryPackage, Hardware, HardwareRow, FullInventory,
}
use moebius.Database.{
  Db, Env, delete_hardware, insert_hardware, delete_packages, insert_package, update_package,
  delete_package,
}

unfoldable pub package_row : Env → String → PackageRef → InventoryPackage
package_row env device p = record {
  device_id = device;
  name = p.name;
  version = p.version;
  manager = p.manager;
  last_seen_at = env.now;
}

-- WHERE device_id AND name AND manager
abbrev pub is_package : String → PackageRef → InventoryPackage → Bool
is_package device p row = row.device_id == device && row.name == p.name && row.manager == p.manager

-- The inserts of a loop; the first that fails ends it, and what was inserted stays.
unfoldable pub insert_packages :
    Env → String → ℕ → List PackageRef → List InventoryPackage → Bool × List InventoryPackage
unfolding package_row
insert_packages env device k [] rows = (true, rows)
insert_packages env device k (p ∷ ps) rows =
    if env.fault (insert_package k)
    then (false, rows)
    else insert_packages env device (suc k) ps (rows ++ package_row env device p ∷ [])

unfoldable pub update_packages :
    Env → String → ℕ → List PackageRef → List InventoryPackage → Bool × List InventoryPackage
unfolding update
update_packages env device k [] rows = (true, rows)
update_packages env device k (p ∷ ps) rows =
    if env.fault (update_package k)
    then (false, rows)
    else update_packages env device (suc k) ps (
        update (is_package device p) (λ r. record r { version = p.version; last_seen_at = env.now })
          rows)

unfoldable pub remove_packages :
    Env → String → ℕ → List PackageRef → List InventoryPackage → Bool × List InventoryPackage
unfolding delete
remove_packages env device k [] rows = (true, rows)
remove_packages env device k (p ∷ ps) rows =
    if env.fault (delete_package k)
    then (false, rows)
    else remove_packages env device (suc k) ps (delete (is_package device p) rows)

-- processPackageDelta: added, then updated, then removed; an error ends it.
unfoldable pub process_package_delta :
    Env → String → PackageDelta → List InventoryPackage → List InventoryPackage
process_package_delta env device delta rows =
    let (added_all, a) = insert_packages env device 0 delta.added rows in
    let (updated_all, b) = update_packages env device 0 delta.updated a in
    let (removed_all, c) = remove_packages env device 0 delta.removed b in
    if added_all then (if updated_all then c else b) else a

-- The hardware of processFullInventory: whether it succeeded, and the table.
unfoldable pub store_hardware :
    Env → String → Option Hardware → List HardwareRow → Bool × List HardwareRow
unfolding delete
store_hardware env device none rows = (true, rows)
store_hardware env device (some hw) rows =
    let kept : List HardwareRow =
      if env.fault delete_hardware then rows else delete (λ r. r.device_id == device) rows in
    if env.fault insert_hardware
    then (false, kept)
    else (true, kept ++ record { device_id = device; collected_at = env.now; hardware = hw } ∷ [])

unfoldable pub replace_packages :
    Env → String → List PackageRef → List InventoryPackage → List InventoryPackage
unfolding delete
replace_packages env device [] rows = rows
replace_packages env device (p ∷ ps) rows =
    (insert_packages env device 0 (p ∷ ps)
      (if env.fault delete_packages then rows else delete (λ r. r.device_id == device) rows)).1

-- processFullInventory on a result that decodes; its error is only logged.
unfoldable pub process_full_inventory : Env → String → FullInventory → Db → Db
process_full_inventory env device inv db =
    let (stored, rows) = store_hardware env device inv.hardware db.hardware in
    if stored
    then record db {
      hardware = rows;
      packages = replace_packages env device inv.packages db.packages;
    }
    else record db { hardware = rows }
