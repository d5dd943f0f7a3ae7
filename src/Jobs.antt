-- ===== src/Jobs.antt =====
-- server/jobs: the state machine of a job (state.go) and the job types (types.go).
pub mod State
pub mod Kinds
