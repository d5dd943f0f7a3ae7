-- ===== src/Lib.antt =====
-- Moebius: a server that dispatches jobs to a fleet of devices, and the agent that runs them.
--
-- Operators create, cancel and retry jobs for the devices that a target names (groups, tags,
-- sites, single devices). An agent checks in, is sent its queued jobs, acknowledges each and
-- submits its result. A scheduler creates jobs at their times and reaps those that are stuck. All
-- of them meet in one table of jobs. On the device, Customer Device Mode decides whether a job may
-- start. Around that table, agents enroll with a token and are admitted by their certificates, users
-- by API keys whose roles carry permissions; files are uploaded in chunks, verified and served; and
-- the agent replaces its own binary and ships its log.
--
-- Files and the code they are about:
--   Models        shared/models, shared/protocol: records and enumerations
--   Jobs          server/jobs: the state machine (State) and the job types (Kinds)
--   Database      the tables and statements the handlers share, the constraints of
--                 server/migrate/sql/001_initial_schema.up.sql on jobs, server/audit/audit.go
--   Auth/Scope    server/auth/scope.go
--   Auth/Enrollment server/auth/enrollment.go and the reaper of its tokens
--   Quota         server/quota/quota.go
--   Api/Respond   server/api/respond.go
--   Api/Targets   resolveTargets of server/api/jobs.go, repeated in server/scheduler/scheduler.go
--   Api/Jobs      Create of server/api/jobs.go
--   Api/JobControl get, cancel and retry of server/api/jobs.go
--   Api/AgentJobs server/api/agent_jobs.go: acknowledge, submit_result
--   Api/Inventory the package and hardware tables of agent_jobs.go and checkin.go
--   Api/Checkin   server/api/checkin.go
--   Scheduler     server/scheduler/scheduler.go: run_tick and the devices of an alert
--   Store/Devices RevokeDevice of server/store/devices.go, server/api/device_rollback.go
--   Api/Files     server/api/files.go: upload_chunk, upload_status; its children Initiate, Complete
--                 and Serve have the start, the completion, the reads and the deletion
--   Api/Enroll    server/api/enroll.go
--   Storage       LocalBackend of server/storage/storage.go
--   Api/Roles     server/api/roles.go and server/store/roles.go
--   Auth/Identity server/auth/apikey.go, server/auth/mtls.go, server/rbac/rbac.go
--   Auth/Permissions server/rbac/permissions.go
--   Server        a history: requests and ticks, one after the other
--   Agent/Cdm     agent/cdm/cdm.go: Customer Device Mode
--   Agent/Executor runJob of agent/executor/executor.go
--   Agent/Sessions agent/localauth/session.go: sessions of local users
--   Agent/Update  agent/executor/update.go, agent/executor/rollback.go, agent/update
--   Agent/LogShipper agent/logshipper/shipper.go: the buffer of the agent's log
--   Prelude       shared names, lists, and the laws of SELECT, UPDATE and DELETE on lists of rows
--   Tests         a small fleet on which the theorems are applied
--
-- How code becomes definitions. A handler is a function of the caller, of an Env and of the
-- database Db, and returns the response and the new database. Env is what a request finds: the
-- clock, read once as in the handlers; for each statement whether the database reports an error
-- (fault); and the identifiers that are drawn (fresh). A statement that fails changes nothing, and
-- an insert also fails where the primary key or a foreign key of jobs refuses the row. A table is
-- a list of rows in the order of insertion; ORDER BY keeps that order among equal keys, one of the
-- orders that SQL allows. Requests are serialised: the statements of two handlers are not
-- interleaved. Times are natural numbers of nanoseconds. Recursion is structural throughout, so no
-- fuel is needed. Parameters stand for the JSON decoder of an inventory, the encoder of a rollback
-- reason, the cron library, SHA-256, Ed25519, PEM, PKIX and base64, what io.Copy wrote before an
-- error, and on the agent the running of a job and the answers to its requests. A handler whose answer is an Option may wait for good:
-- CompleteUpload writes into a pipe that nobody reads once storage.Save has given up.
--
-- Phases order the statuses of a job: before the queue (pending), in the server's hands (queued,
-- cdm_hold, dispatched), in the agent's hands (acknowledged, running), finished.
--
-- Not modelled: listing endpoints, users, groups, the renewal of certificates, signing keys beyond
-- their use, rate limits, alerts beyond their devices, leader election, and on the agent the running of
-- commands, the installers and the transport, which are SQL behind a decoder or I/O. Messages of
-- errors are left out, their statuses and codes are kept.
pub mod Prelude
pub mod Models
pub mod Jobs
pub mod Database
pub mod Api
pub mod Auth
pub mod Quota
pub mod Scheduler
pub mod Agent
pub mod Server
pub mod Store
pub mod Storage
pub mod Tests
