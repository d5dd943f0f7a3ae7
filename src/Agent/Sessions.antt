-- ===== src/Agent/Sessions.antt =====
-- agent/localauth/session.go: the sessions of the agent's local users. The map is a list of
-- sessions with one entry for a token; a token is drawn by crypto/rand, and is an argument.
pub mod Lifetime
use moebius.Prelude.{
  ℕ, ◌+◌, ◌-◌, ◌*◌, String, Bool, true, false, not, ◌&&◌, ◌||◌, ◌==◌, Option, none, some, List, [],
  ◌∷◌, delete, update, find, ltb, if◌then◌else◌,
}
use moebius.Models.Job.{second}

pub data SessionType : Type 0 where
  session_cli session_web : SessionType

pub record Session : Type 0 where
  pub token : String
  pub username : String
  pub kind : SessionType
  pub created_at : ℕ
  pub last_used : ℕ
  pub expires_at : ℕ

abbrev pub cli_idle_timeout : ℕ
cli_idle_timeout = 15 * (60 * second)

abbrev pub web_idle_timeout : ℕ
web_idle_timeout = 30 * (60 * second)

abbrev pub web_max_lifetime : ℕ
web_max_lifetime = 8 * (3600 * second)

abbrev pub idle_timeout : SessionType → ℕ
idle_timeout session_cli = cli_idle_timeout
idle_timeout session_web = web_idle_timeout

abbrev first_lifetime : SessionType → ℕ
first_lifetime session_cli = cli_idle_timeout
first_lifetime session_web = web_max_lifetime

abbrev pub has_token : String → Session → Bool
has_token token s = s.token == token

-- Create, once a token is drawn; `none` is the error of drawing it.
unfoldable pub create :
    ℕ → Option String → String → SessionType → List Session → Option Session × List Session
unfolding delete
create now none username kind sessions = (none, sessions)
create now (some token) username kind sessions =
    let s : Session = record {
      token = token;
      username = username;
      kind = kind;
      created_at = now;
      last_used = now;
      expires_at = now + first_lifetime kind;
    } in
    (some s, s ∷ delete (has_token token) sessions)

-- now.Sub(LastUsed) > idleTimeout; a difference that is negative is 0 here, and neither is more.
abbrev pub is_idle : ℕ → Session → Bool
is_idle now s = ltb (idle_timeout s.kind) (now - s.last_used)

abbrev pub is_over : ℕ → Session → Bool
is_over now s = ltb s.expires_at now || is_idle now s

-- The refresh of a session that is valid.
abbrev pub refresh : ℕ → Session → Session
refresh now s = elim s.kind [
  | session_cli ↦ record s { last_used = now; expires_at = now + cli_idle_timeout }
  | session_web ↦ record s { last_used = now }
]

-- Validate; `none` is the error.
unfoldable pub validate : ℕ → String → List Session → Option Session × List Session
unfolding find delete update
validate now token sessions = elim (find (has_token token) sessions) [
  | none ↦ (none, sessions)
  | some s ↦
      if ltb s.expires_at now
      then (none, delete (has_token token) sessions)
      else if is_idle now s
      then (none, delete (has_token token) sessions)
      else (some (refresh now s), update (has_token token) (refresh now) sessions)
]

unfoldable pub revoke : String → List Session → List Session
unfolding delete
revoke token sessions = delete (has_token token) sessions

unfoldable pub revoke_all : List Session → List Session
revoke_all sessions = []

unfoldable pub cleanup : ℕ → List Session → List Session
unfolding delete
cleanup now sessions = delete (is_over now) sessions
