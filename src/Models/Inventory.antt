-- ===== src/Models/Inventory.antt =====
-- shared/protocol/checkin.go: package references and deltas; shared/models/inventory.go: the rows.
use moebius.Prelude.{ℕ, String, List, Option}

pub record PackageRef : Type 0 where
  pub name : String
  pub version : String
  pub manager : String

pub record PackageDelta : Type 0 where
  pub added : List PackageRef
  pub removed : List PackageRef
  pub updated : List PackageRef

-- A row of inventory_packages, less its generated id.
pub record InventoryPackage : Type 0 where
  pub device_id : String
  pub name : String
  pub version : String
  pub manager : String
  pub last_seen_at : ℕ

-- The hardware part of a full inventory; its nested objects stay JSON texts.
pub record Hardware : Type 0 where
  pub cpu : String
  pub ram_mb : ℕ
  pub disks : String
  pub network_interfaces : String

-- A row of inventory_hardware, less its generated id.
pub record HardwareRow : Type 0 where
  pub device_id : String
  pub collected_at : ℕ
  pub hardware : Hardware

-- What the JSON of an inventory_full result decodes to.
pub record FullInventory : Type 0 where
  pub hardware : Option Hardware
  pub packages : List PackageRef
