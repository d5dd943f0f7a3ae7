-- ===== src/Server.antt =====
-- The server as a whole: the requests of operators and agents and the ticks of the scheduler, one
-- after the other. The parameters are the parser of an agent's inventory, the encoder of a
-- rollback's reason and the cron library.
pub mod History
pub mod Delivery
use moebius.Prelude.{ℕ, String, Bool, true, false, Option, none, some, List, [], ◌∷◌}
use moebius.Models.Inventory.{FullInventory}
use moebius.Database.{Db, Env}
use moebius.Quota.{Defaults}
use moebius.Api.Jobs.{Caller, CreateRequest, create}
use moebius.Api.JobControl.{cancel, retry}
use moebius.Api.AgentJobs.{Agent, JobResultSubmission, acknowledge, submit_result}
use moebius.Api.Checkin.{CheckinRequest, checkin}
use moebius.Scheduler.{Config, run_tick}
use moebius.Store.Devices.{store_revoke_device, rollback}

-- What may change the table of jobs.
pub data Request : Type 0 where
  post_job : Caller → Option CreateRequest → Request
  post_cancel : Caller → String → Request
  post_retry : Caller → String → Request
  post_checkin : Agent → Option CheckinRequest → Request
  post_acknowledge : Agent → String → Request
  post_result : Agent → String → Option JobResultSubmission → Request
  post_revoke : (tenant device reason : String) → Request
  post_rollback : Caller → String → Option String → Request
  tick : Request

pub record Setup : Type 0 where
  pub quota : Option Defaults
  pub scheduler : Config
  pub parse_inventory : String → Option FullInventory
  pub encode_reason : String → String
  pub next_run : String → Option (ℕ → ℕ)

-- One request, under what it finds of the clock and the failures of the database.
unfoldable pub handle : Setup → Env → Request → Db → Db
handle s env (post_job caller req) db = (create s.quota caller env req db).1
handle s env (post_cancel caller id) db = (cancel caller env id db).1
handle s env (post_retry caller id) db = (retry s.quota caller env id db).1
handle s env (post_checkin agent req) db = (checkin env agent req db).1
handle s env (post_acknowledge agent id) db = (acknowledge agent env id db).1
handle s env (post_result agent id req) db = (submit_result s.parse_inventory agent env id req db).1
handle s env (post_revoke tenant device reason) db =
    (store_revoke_device env tenant device reason db).1
handle s env (post_rollback caller device reason) db =
    (rollback s.encode_reason caller env device reason db).1
handle s env tick db = run_tick s.next_run s.scheduler env db

-- A history: requests in the order in which the database serialises them.
unfoldable pub run : Setup → List (Env × Request) → Db → Db
run s [] db = db
run s ((env, r) ∷ rs) db = run s rs (handle s env r db)
