-- ===== src/Models.antt =====
-- The records and constants of shared/models and shared/protocol that the components share.
pub mod Job
pub mod Access
pub mod Device
pub mod Inventory
pub mod Files
