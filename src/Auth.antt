-- ===== src/Auth.antt =====
-- server/auth: who may act on what.
pub mod Scope
pub mod Enrollment
pub mod Identity
pub mod Permissions
