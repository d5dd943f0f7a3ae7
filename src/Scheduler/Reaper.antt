-- ===== src/Scheduler/Reaper.antt =====
-- What a tick of server/scheduler/scheduler.go leaves of jobs that are stuck.
use moebius.Prelude.{
  ℕ, ◌+◌, ◌≡◌, refl, Bool, false, ◌&&◌, leb, Option, none, some, List, [], ◌∷◌, arith, update, All,
  All-imp, String,
}
use moebius.Models.Job.{Job, dispatched, acknowledged, running, eq_status}
use moebius.Database.{Db, Env, reap_dispatched, reap_inflight}
use moebius.Api.Checkin.{requeue_row}
use moebius.Scheduler.{
  Config, is_stuck_dispatched, reap_stuck_dispatched_jobs, is_stuck_inflight, time_out_row,
  reap_stuck_inflight_jobs, evaluate_scheduled_jobs, run_tick,
}

requeued-none :
    (cfg : Config) (now : ℕ) (xs : List Job)
    → All
        (λ j. is_stuck_dispatched cfg now j ≡ false)
        (update (is_stuck_dispatched cfg now) requeue_row xs)
unfolding update
requeued-none cfg now [] = tt
requeued-none cfg now (x ∷ xs) = (ground arith, requeued-none cfg now xs)

timed_out-none :
    (cfg : Config) (now : ℕ) (xs : List Job)
    → All (λ j. is_stuck_dispatched cfg now j ≡ false) xs
    → All
        (λ j. (is_stuck_dispatched cfg now j ≡ false) × (is_stuck_inflight cfg now j ≡ false))
        (update (is_stuck_inflight cfg now) (time_out_row now) xs)
unfolding update
timed_out-none cfg now [] h = tt
timed_out-none cfg now (x ∷ xs) h = (ground (arith, h.0), timed_out-none cfg now xs h.1)

reap-none :
    (cfg : Config) (env : Env) (db : Db)
    → env.fault reap_dispatched ≡ false
    → env.fault reap_inflight ≡ false
    → All
        (λ j.
          (is_stuck_dispatched cfg env.now j ≡ false) × (is_stuck_inflight cfg env.now j ≡ false))
        (reap_stuck_inflight_jobs cfg env (reap_stuck_dispatched_jobs cfg env db)).jobs
unfolding reap_stuck_inflight_jobs reap_stuck_dispatched_jobs
reap-none cfg env db d i =
    rw (d, i)
      (timed_out-none cfg env.now (update (is_stuck_dispatched cfg env.now) requeue_row db.jobs)
        (requeued-none cfg env.now db.jobs))

-- A time that is not null and lies more than `timeout` back.
abbrev pub lies_back : Option ℕ → ℕ → ℕ → Bool
lies_back none timeout now = false
lies_back (some t) timeout now = leb (t + timeout + 1) now

-- When work on the job began: when it was started, or, if it was not, acknowledged.
abbrev pub work_began : Job → Option ℕ
work_began j = elim j.started_at [ none ↦ j.acknowledged_at | some t ↦ some t ]

-- No reaper has to look at the job: it is not in `dispatched` for longer than that timeout, not in
-- `acknowledged` and not in `running` for longer than the other.
abbrev pub IsFresh : Config → ℕ → Job → Type 0
IsFresh cfg now j =
    ((eq_status j.status dispatched && lies_back j.dispatched_at cfg.dispatched_timeout now)
      ≡ false)
    × ((eq_status j.status acknowledged && lies_back (work_began j) cfg.inflight_timeout now)
        ≡ false)
    × ((eq_status j.status running && lies_back (work_began j) cfg.inflight_timeout now) ≡ false)

stuck-IsFresh :
    (cfg : Config) (now : ℕ) (j : Job)
    → is_stuck_dispatched cfg now j ≡ false
    → is_stuck_inflight cfg now j ≡ false
    → IsFresh cfg now j
stuck-IsFresh cfg now j d i = (ground (arith, d), ground (arith, i), ground (arith, i))

-- If neither reaper's statement fails, then after a tick no job in `dispatched` was sent longer
-- ago than the dispatch timeout, and no job in `acknowledged` or `running` was started (or, if it
-- has no start, acknowledged) longer ago than the inflight timeout.
pub run_tick-none :
    (next_run : String → Option (ℕ → ℕ)) (cfg : Config) (env : Env) (db : Db)
    → env.fault reap_dispatched ≡ false
    → env.fault reap_inflight ≡ false
    → All (IsFresh cfg env.now) (run_tick next_run cfg env db).jobs
unfolding run_tick
run_tick-none next_run cfg env db d i =
    All-imp _ _ (λ j h. stuck-IsFresh cfg env.now j h.0 h.1) _
      (reap-none cfg env (evaluate_scheduled_jobs next_run env db) d i)

reap_inflight-spares :
    (cfg : Config) (now : ℕ) (xs : List Job)
    → All (λ j. is_stuck_inflight cfg now j ≡ false) xs
    → update (is_stuck_inflight cfg now) (time_out_row now) xs ≡ xs
unfolding update
reap_inflight-spares cfg now [] h = refl
reap_inflight-spares cfg now (x ∷ xs) h = ground (arith, h.0, reap_inflight-spares cfg now xs h.1)

reap_dispatched-spares :
    (cfg : Config) (now : ℕ) (xs : List Job)
    → All (λ j. is_stuck_dispatched cfg now j ≡ false) xs
    → update (is_stuck_dispatched cfg now) requeue_row xs ≡ xs
unfolding update
reap_dispatched-spares cfg now [] h = refl
reap_dispatched-spares cfg now (x ∷ xs) h =
    ground (arith, h.0, reap_dispatched-spares cfg now xs h.1)

-- If no job is stuck, the reapers change nothing.
pub reap-spares :
    (cfg : Config) (env : Env) (db : Db)
    → All
        (λ j.
          (is_stuck_dispatched cfg env.now j ≡ false) × (is_stuck_inflight cfg env.now j ≡ false))
        db.jobs
    → reap_stuck_inflight_jobs cfg env (reap_stuck_dispatched_jobs cfg env db) ≡ db
unfolding reap_stuck_inflight_jobs reap_stuck_dispatched_jobs
reap-spares cfg env db h = ground (
  arith,
  reap_inflight-spares cfg env.now db.jobs (All-imp _ _ (λ j p. p.1) db.jobs h),
  reap_dispatched-spares cfg env.now db.jobs (All-imp _ _ (λ j p. p.0) db.jobs h),
)
