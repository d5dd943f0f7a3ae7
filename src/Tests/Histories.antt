-- ===== src/Tests/Histories.antt =====
-- The theorems about the server, on the small fleet.
use moebius.Prelude.{◌≡◌, refl, true, false, ◌==◌, some, List, [], ◌∷◌, arith, All, find, contains}
use moebius.Models.Job.{Job, is_terminal_status}
use moebius.Database.{Env}
use moebius.Database.Evolves.{Evolves}
use moebius.Database.WellFormed.{WellFormed, Distinct}
use moebius.Api.Checkin.{checkin, is_ready}
use moebius.Api.Checkin.Answer.{IsAnswer, sent_jobs, checkin-IsAnswer}
use moebius.Api.Checkin.Gate.{checkin-holds}
use moebius.Scheduler.{run_tick}
use moebius.Scheduler.Reaper.{IsFresh, run_tick-none}
use moebius.Server.{Request, post_job, post_checkin, post_acknowledge, tick, run}
use moebius.Server.History.{run-Evolves, run-WellFormed, run-terminal}
use moebius.Server.Delivery.{run-acknowledged, sent_ids}
use moebius.Tests.{
  env_at, running_row, finished_row, db_a, agent_a, caller_a, exec_request, checkin_report,
  timeouts, setup,
}

db_a-Distinct : Distinct db_a.jobs
unfolding contains
db_a-Distinct = (refl, (refl, (refl, (refl, tt))))

abbrev history : List (Env × Request)
history =
    (env_at 30, post_job caller_a (some exec_request))
    ∷ (env_at 40, post_checkin agent_a (some (checkin_report false false)))
    ∷ (env_at 50, post_acknowledge agent_a "job_q")
    ∷ (env_at 60, tick)
    ∷ []

run-Evolves_example : Evolves db_a.jobs (run setup history db_a).jobs
run-Evolves_example = run-Evolves setup history db_a db_a-Distinct

run-WellFormed_example :
    All WellFormed (run setup history db_a).jobs × Distinct (run setup history db_a).jobs
run-WellFormed_example =
    run-WellFormed setup history db_a db_a-Distinct (refl, (refl, (refl, (refl, tt))))

found_finished : find (λ r. r.id == "job_c") db_a.jobs ≡ some finished_row
unfolding find
found_finished = refl

found_running : find (λ r. r.id == "job_r") db_a.jobs ≡ some running_row
unfolding find
found_running = refl

finished_terminal : is_terminal_status finished_row.status ≡ true
unfolding is_terminal_status
finished_terminal = refl

run-terminal_example :
    (j' : Job) × (find (λ r. r.id == "job_c") (run setup history db_a).jobs ≡ some j')
    × (is_terminal_status j'.status ≡ true)
    × (j'.tenant_id ≡ "ten_a")
    × (j'.device_id ≡ "dev_a")
run-terminal_example =
    run-terminal setup history db_a "job_c" finished_row db_a-Distinct found_finished
      finished_terminal

run-acknowledged_example :
    contains "job_r"
      (sent_ids (env_at 70) agent_a (some (checkin_report false false)) (run setup history db_a))
    ≡ false
run-acknowledged_example =
    run-acknowledged setup history db_a (env_at 70) agent_a (some (checkin_report false false))
      "job_r" running_row db_a-Distinct found_running (omega arith)

checkin-IsAnswer_example :
    IsAnswer agent_a 40
      (sent_jobs (checkin (env_at 40) agent_a (some (checkin_report false false)) db_a).0)
      (checkin (env_at 40) agent_a (some (checkin_report false false)) db_a).1.jobs
checkin-IsAnswer_example =
    checkin-IsAnswer (env_at 40) agent_a (some (checkin_report false false)) db_a db_a-Distinct

checkin-holds_example :
    All
      (λ j. is_ready agent_a j ≡ false)
      (checkin (env_at 40) agent_a (some (checkin_report true false)) db_a).1.jobs
checkin-holds_example =
    checkin-holds (env_at 40) agent_a (checkin_report true false) db_a refl refl refl refl refl

run_tick-none_example :
    All (IsFresh timeouts 5000) (run_tick setup.next_run timeouts (env_at 5000) db_a).jobs
run_tick-none_example = run_tick-none setup.next_run timeouts (env_at 5000) db_a refl refl
