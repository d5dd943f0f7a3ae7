-- ===== src/Agent.antt =====
-- The agent: Customer Device Mode (agent/cdm), the run of a job (agent/executor) and the sessions
-- of its local users (agent/localauth), and the buffer of its log (agent/logshipper),
-- and the replacement of its binary (agent/executor, agent/update).
pub mod Cdm
pub mod Executor
pub mod Sessions
pub mod LogShipper
pub mod Update
