-- ===== src/Api.antt =====
-- server/api: the HTTP handlers, as functions from a request, its surroundings and the database
-- to a response and the database afterwards.
pub mod Respond
pub mod Targets
pub mod Jobs
pub mod JobControl
pub mod Inventory
pub mod AgentJobs
pub mod Checkin
pub mod Files
pub mod Roles
pub mod Enroll
