-- ===== src/Agent/Sessions/Lifetime.antt =====
-- How long a session of agent/localauth/session.go lasts.
use moebius.Prelude.{
  ℕ, ◌+◌, ◌≤◌, String, ◌≡◌, ◌⊎◌, refl, Bool, true, false, ◌&&◌, eq_iff, eq_refl, Option, none, some,
  List, [], ◌∷◌, arith, All, All-select, All-update, find-All, find, delete, select, leb,
  if◌then◌else◌, contains, map, Bool-cases, inl, inr,
}
use moebius.Agent.Sessions.{
  SessionType, session_cli, session_web, Session, has_token, create, is_over, refresh, validate,
  revoke, revoke_all, cleanup,
}

-- What a user of the manager does, at a time.
pub data Operation : Type 0 where
  creating : Option String → String → SessionType → Operation
  validating revoking : String → Operation
  revoking_all cleaning : Operation

unfoldable pub operate : ℕ → Operation → List Session → List Session
operate now (creating token username kind) sessions = (create now token username kind sessions).1
operate now (validating token) sessions = (validate now token sessions).1
operate now (revoking token) sessions = revoke token sessions
operate now revoking_all sessions = revoke_all sessions
operate now cleaning sessions = cleanup now sessions

unfoldable pub run : List (ℕ × Operation) → List Session → List Session
run [] sessions = sessions
run ((now, o) ∷ os) sessions = run os (operate now o sessions)

-- A web session expires eight hours after it was created, a CLI session fifteen minutes after its
-- last use.
abbrev pub bounds_lifetime : Session → Bool
bounds_lifetime s = elim s.kind [
  | session_cli ↦
      leb s.expires_at (s.last_used + 900000000000) && leb (s.last_used + 900000000000) s.expires_at
  | session_web ↦
      leb s.expires_at (s.created_at + 28800000000000)
      && leb (s.created_at + 28800000000000) s.expires_at
]

abbrev pub Bounded : Session → Type 0
Bounded s = bounds_lifetime s ≡ true

All-delete : (p : Session → Bool) (xs : List Session) → All Bounded xs → All Bounded (delete p xs)
unfolding delete
All-delete p xs h = All-select Bounded _ xs h

create-Bounded :
    (now : ℕ) (token : Option String) (username : String) (kind : SessionType) (xs : List Session)
    → All Bounded xs
    → All Bounded (create now token username kind xs).1
unfolding create
create-Bounded now none username kind xs h = h
create-Bounded now (some token) username session_cli xs h =
    (ground arith, All-delete (has_token token) xs h)
create-Bounded now (some token) username session_web xs h =
    (ground arith, All-delete (has_token token) xs h)

validate-Bounded :
    (now : ℕ) (token : String) (xs : List Session)
    → All Bounded xs
    → All Bounded (validate now token xs).1
unfolding validate
validate-Bounded now token xs h = ground (
  arith,
  h,
  All-delete (has_token token) xs h,
  All-update Bounded (has_token token) (refresh now) xs (λ s e b. refreshed s b) h,
)
  where
    refreshed : (s : Session) → Bounded s → Bounded (refresh now s)
    refreshed s b = ground arith

operate-Bounded :
    (now : ℕ) (o : Operation) (xs : List Session) → All Bounded xs → All Bounded (operate now o xs)
unfolding operate revoke revoke_all cleanup
operate-Bounded now (creating token username kind) xs h =
    create-Bounded now token username kind xs h
operate-Bounded now (validating token) xs h = validate-Bounded now token xs h
operate-Bounded now (revoking token) xs h = All-delete (has_token token) xs h
operate-Bounded now revoking_all xs h = tt
operate-Bounded now cleaning xs h = All-delete (is_over now) xs h

-- The expiry of every session stays tied to its creation or to its last use.
pub run-Bounded :
    (os : List (ℕ × Operation)) (xs : List Session) → All Bounded xs → All Bounded (run os xs)
unfolding run
run-Bounded [] xs h = h
run-Bounded ((now, o) ∷ os) xs h = run-Bounded os (operate now o xs) (operate-Bounded now o xs h)

found-valid :
    (now : ℕ) (token : String) (xs : List Session) (s : Session)
    → (validate now token xs).0 ≡ some s
    → (old : Session) × (find (has_token token) xs ≡ some old)
      × (is_over now old ≡ false)
      × (s ≡ refresh now old)
unfolding validate
found-valid now token xs s e = ground arith

valid-lifetime :
    (now : ℕ) (s : Session)
    → Bounded s
    → is_over now s ≡ false
    → ((s.kind ≡ session_web)
        × (now ≤ s.created_at + 28800000000000)
        × (now ≤ s.last_used + 1800000000000))
      ⊎ ((s.kind ≡ session_cli) × (now ≤ s.last_used + 900000000000))
valid-lifetime now s b h = ground arith

-- From no sessions, after any operations at any times, a token that validates is that of a session
-- that was used within the last thirty minutes and created within the last eight hours if it is
-- a web session, and used within the last fifteen minutes if it is a CLI session.
pub validate-lifetime :
    (os : List (ℕ × Operation)) (now : ℕ) (token : String) (s : Session)
    → (validate now token (run os [])).0 ≡ some s
    → (old : Session) × (find (has_token token) (run os []) ≡ some old)
      × (((old.kind ≡ session_web)
            × (now ≤ old.created_at + 28800000000000)
            × (now ≤ old.last_used + 1800000000000))
          ⊎ ((old.kind ≡ session_cli) × (now ≤ old.last_used + 900000000000)))
validate-lifetime os now token s e =
    let (old, f, v, r) = found-valid now token (run os []) s e in
    (
      old,
      f,
      valid-lifetime now old
          (find-All Bounded (has_token token) (run os []) {x = old} (run-Bounded os [] tt) f) v,
    )

abbrev pub tokens : List Session → List String
tokens = map (λ (s : Session). s.token)

-- One entry for a token.
abbrev pub Distinct : List Session → Type 0
Distinct [] = Unit {0}
Distinct (s ∷ ss) = (contains s.token (tokens ss) ≡ false) × Distinct ss

find-delete-absent :
    (p : Session → Bool) (token : String) (xs : List Session)
    → contains token (tokens xs) ≡ false
    → find (has_token token) (delete p xs) ≡ none
unfolding find delete select contains
find-delete-absent p token [] h = refl
find-delete-absent p token (x ∷ xs) h = ground (arith, find-delete-absent p token xs)

cleaned : (Session → Bool) → Option Session → Option Session
cleaned p none = none
cleaned p (some s) = if p s then none else some s

find-delete :
    (p : Session → Bool) (token : String) (xs : List Session)
    → Distinct xs
    → find (has_token token) (delete p xs) ≡ cleaned p (find (has_token token) xs)
unfolding find delete select contains cleaned
find-delete p token [] d = refl
find-delete p token (x ∷ xs) d =
    ground (arith, eq_iff x.token token, find-delete-absent p token xs, find-delete p token xs d.1)

-- A session that has not expired, and was used within the last fifteen minutes if it is a CLI
-- session and within the last thirty if it is a web session.
abbrev pub is_live : ℕ → Session → Bool
is_live now s = leb now s.expires_at && elim s.kind [
  | session_cli ↦ leb now (s.last_used + 900000000000)
  | session_web ↦ leb now (s.last_used + 1800000000000)
]

over-live : (now : ℕ) (s : Session) → is_over now s ≡ false → is_live now s ≡ true
over-live now s h = ground (arith, h)

cleanup-live : (now : ℕ) (xs : List Session) → All (λ s. is_live now s ≡ true) (cleanup now xs)
unfolding cleanup delete select
cleanup-live now [] = tt
cleanup-live now (x ∷ xs) = elim (Bool-cases (is_over now x)) [
  | inl o ↦ rw o (cleanup-live now xs)
  | inr o ↦ rw o (over-live now x o, cleanup-live now xs)
]

-- If the tokens are distinct, a cleanup leaves only sessions that have not expired and were used
-- within the last fifteen minutes (CLI) or thirty minutes (web), and a token validates after it
-- exactly as it did before.
pub validate-cleanup :
    (now : ℕ) (token : String) (xs : List Session)
    → Distinct xs
    → ((validate now token (cleanup now xs)).0 ≡ (validate now token xs).0)
      × All (λ s. is_live now s ≡ true) (cleanup now xs)
unfolding validate cleanup cleaned
validate-cleanup now token xs d =
    (ground (arith, find-delete (is_over now) token xs d), cleanup-live now xs)

-- A session that was just created validates.
pub validate-create :
    (now : ℕ) (token username : String) (kind : SessionType) (xs : List Session)
    → (validate now token (create now (some token) username kind xs).1).0
      ≡ (create now (some token) username kind xs).0
unfolding validate create find
validate-create now token username kind xs = ground (arith, eq_refl token)

find-deleted :
    (token : String) (xs : List Session)
    → find (has_token token) (delete (has_token token) xs) ≡ none
unfolding find delete select
find-deleted token [] = refl
find-deleted token (x ∷ xs) = ground (arith, find-deleted token xs)

-- A token that was revoked does not validate.
pub validate-revoke :
    (now : ℕ) (token : String) (xs : List Session) → (validate now token (revoke token xs)).0 ≡ none
unfolding validate revoke
validate-revoke now token xs = ground (arith, find-deleted token xs)
