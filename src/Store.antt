-- ===== src/Store.antt =====
-- server/store: the transaction that revokes a device.
pub mod Devices
