-- ===== src/Agent/Cdm/Expiry.antt =====
-- When Customer Device Mode (agent/cdm/cdm.go) lets a job run.
use moebius.Prelude.{
  ℕ, ◌+◌, ◌≤◌, String, ◌≡◌, ◌↔◌, ◌⊎◌, Bool, true, false, ◌&&◌, some, is_some, is_none, List, [],
  ◌∷◌, arith, leb, if◌then◌else◌,
}
use moebius.Agent.Cdm.{
  State, Manager, Host, persist, write_audit, check_expiry, enable, disable, grant_session,
  revoke_session, can_execute_job,
}

-- A session has an expiry and the mode enabled; without a session nothing of one is left.
abbrev pub is_consistent : State → Bool
is_consistent s =
    if s.session_active
    then s.enabled && is_some s.session_expires_at && is_some s.session_granted_at
    else is_none s.session_expires_at && is_none s.session_granted_at

-- The operations on a manager, by name.
pub data Operation : Type 0 where
  enabling disabling revoking : String → Operation
  granting : String → ℕ → Operation
  asking : Operation

unfoldable pub operate : Host → Operation → Manager → Manager
operate host (enabling actor) m = (enable host actor m).1
operate host (disabling actor) m = (disable host actor m).1
operate host (revoking actor) m = (revoke_session host actor m).1
operate host (granting actor duration) m = (grant_session host actor duration m).1
operate host asking m = (can_execute_job host m).1

unfoldable pub run : List (Host × Operation) → Manager → Manager
run [] m = m
run ((host, o) ∷ os) m = run os (operate host o m)

operate-consistent :
    (host : Host) (o : Operation) (m : Manager)
    → is_consistent m.state ≡ true
    → is_consistent (operate host o m).state ≡ true
unfolding operate enable disable revoke_session grant_session can_execute_job check_expiry persist
    write_audit
operate-consistent host (enabling actor) m h = ground arith
operate-consistent host (disabling actor) m h = ground arith
operate-consistent host (revoking actor) m h = ground arith
operate-consistent host (granting actor duration) m h = ground arith
operate-consistent host asking m h = ground arith

-- If the state is consistent, then after any sequence of operations it is, whichever writes to the
-- disk fail.
pub run-consistent :
    (os : List (Host × Operation)) (m : Manager)
    → is_consistent m.state ≡ true
    → is_consistent (run os m).state ≡ true
unfolding run
run-consistent [] m h = h
run-consistent ((host, o) ∷ os) m h =
    run-consistent os (operate host o m) (operate-consistent host o m h)

-- If the state is consistent, a job may start exactly if the mode is not enabled, or there is a
-- session whose expiry is not past.
pub can_execute_job-exact :
    (host : Host) (m : Manager)
    → is_consistent m.state ≡ true
    → ((can_execute_job host m).0 ≡ true) ↔ (
        (m.state.enabled ≡ false)
        ⊎ ((m.state.session_active ≡ true)
            × ((t : ℕ) × (m.state.session_expires_at ≡ some t) × (host.now ≤ t))))
unfolding can_execute_job check_expiry persist write_audit
can_execute_job-exact host m h = ground arith

-- If a session is granted, then a question at any time is answered by whether the time is within
-- the duration of the grant.
pub grant_session-window :
    (host later : Host) (actor : String) (duration : ℕ) (m : Manager)
    → (grant_session host actor duration m).0 ≡ true
    → (can_execute_job later (grant_session host actor duration m).1).0
      ≡ leb later.now (host.now + duration)
unfolding grant_session can_execute_job check_expiry persist write_audit
grant_session-window host later actor duration m h = ground arith

-- Once the mode is disabled, also where the state file cannot be written, a job may start at any
-- time.
pub disable-allows :
    (host later : Host) (actor : String) (m : Manager)
    → (can_execute_job later (disable host actor m).1).0 ≡ true
unfolding disable can_execute_job check_expiry persist write_audit
disable-allows host later actor m = ground arith

-- If the mode is enabled, then revoking a session leaves it enabled and lets no job start at any
-- time after, also where there was no session or the state file cannot be written.
pub revoke_session-stops :
    (host later : Host) (actor : String) (m : Manager)
    → m.state.enabled ≡ true
    → ((revoke_session host actor m).1.state.enabled ≡ true)
      × ((can_execute_job later (revoke_session host actor m).1).0 ≡ false)
unfolding revoke_session can_execute_job check_expiry persist write_audit
revoke_session-stops host later actor m e = ground arith
