-- ===== src/Auth/Enrollment/Single.antt =====
-- How often a token of server/auth/enrollment.go is accepted.
use moebius.Prelude.{
  ℕ, String, ◌≡◌, refl, inl, inr, Bool, true, false, ◌&&◌, ◌||◌, ◌==◌, eq_iff, is_none, ltb,
  Option-cases, subst, Option, none, some, List, [], ◌∷◌, ◌++◌, arith, All, All-select, All-update,
  All-append, find, update, delete, select, contains, map, Bool-cases,
}
use moebius.Models.Access.{ApiScope}
use moebius.Auth.Enrollment.{
  EnrollmentToken, create_token, is_valid, peek, use_token, validate_and_consume,
  reap_expired_enrollment_tokens,
}

-- What happens to the table of tokens, at a time, with or without an error of the database.
pub data Event : Type 0 where
  creating : (hash id tenant created_by : String) → Option ApiScope → ℕ → Event
  consuming : String → Event
  reaping : Event

unfoldable pub happen : Bool → ℕ → Event → List EnrollmentToken → List EnrollmentToken
happen fault now (creating hash id tenant created_by scope expiry) tokens =
    (create_token fault now hash id tenant created_by scope expiry tokens).1
happen fault now (consuming hash) tokens = (validate_and_consume fault now hash tokens).1
happen fault now reaping tokens = reap_expired_enrollment_tokens fault now tokens

unfoldable pub run : List (Bool × ℕ × Event) → List EnrollmentToken → List EnrollmentToken
run [] tokens = tokens
run ((fault, now, e) ∷ es) tokens = run es (happen fault now e tokens)

-- Every token of the hash is used, and there is one.
abbrev IsUsed : String → List EnrollmentToken → Type 0
IsUsed hash tokens =
    (contains hash (map (λ (t : EnrollmentToken). t.token_hash) tokens) ≡ true)
    × All (λ (t : EnrollmentToken). (t.token_hash == hash && is_none t.used_at) ≡ false) tokens

used-All :
    (now : ℕ) (hash other : String) (tokens : List EnrollmentToken)
    → All (λ (t : EnrollmentToken). (t.token_hash == hash && is_none t.used_at) ≡ false) tokens
    → All
        (λ (t : EnrollmentToken). (t.token_hash == hash && is_none t.used_at) ≡ false)
        (update (is_valid now other) (use_token now) tokens)
used-All now hash other tokens h =
    All-update _ (is_valid now other) (use_token now) tokens (λ t e u. ground arith) h

contains-update :
    (now : ℕ) (hash other : String) (tokens : List EnrollmentToken)
    → contains hash (map (λ (t : EnrollmentToken). t.token_hash) tokens) ≡ true
    → contains hash (
        map
          (λ (t : EnrollmentToken). t.token_hash)
          (update (is_valid now other) (use_token now) tokens))
      ≡ true
unfolding update contains
contains-update now hash other [] h = h
contains-update now hash other (t ∷ tokens) h =
    ground (arith, contains-update now hash other tokens)

contains-reap :
    (now : ℕ) (hash : String) (tokens : List EnrollmentToken)
    → contains hash (map (λ (t : EnrollmentToken). t.token_hash) tokens) ≡ true
    → All (λ (t : EnrollmentToken). (t.token_hash == hash && is_none t.used_at) ≡ false) tokens
    → contains hash (
        map
          (λ (t : EnrollmentToken). t.token_hash)
          (delete (λ (t : EnrollmentToken). is_none t.used_at && ltb t.expires_at now) tokens))
      ≡ true
unfolding delete select contains
contains-reap now hash [] c h = c
contains-reap now hash (t ∷ tokens) c h = ground (arith, h.0, contains-reap now hash tokens)

contains-hash-append :
    (hash : String) (t : EnrollmentToken) (tokens : List EnrollmentToken)
    → contains hash (map (λ (t : EnrollmentToken). t.token_hash) tokens) ≡ true
    → contains hash (map (λ (t : EnrollmentToken). t.token_hash) (tokens ++ t ∷ [])) ≡ true
unfolding contains
contains-hash-append hash t [] c = absurd (ground arith)
contains-hash-append hash t (x ∷ tokens) c = ground (arith, contains-hash-append hash t tokens)

create-IsUsed :
    (fault : Bool) (now : ℕ) (hash other id tenant created_by : String) (scope : Option ApiScope)
    (expiry : ℕ) (tokens : List EnrollmentToken)
    → IsUsed hash tokens
    → IsUsed hash (create_token fault now other id tenant created_by scope expiry tokens).1
unfolding create_token
create-IsUsed fault now hash other id tenant created_by scope expiry tokens (c, h) =
    elim (Bool-cases
      (fault || contains other (map (λ (t : EnrollmentToken). t.token_hash) tokens))) [
        | inl e ↦ rw e (c, h)
        | inr e ↦ rw e (contains-hash-append hash _ tokens c, All-append _ tokens _ h (fresh e, tt))
      ]
  where
    fresh :
        (fault || contains other (map (λ (t : EnrollmentToken). t.token_hash) tokens)) ≡ false
        → (other == hash && true) ≡ false
    fresh e = ground (arith, eq_iff other hash)

happen-IsUsed :
    (fault : Bool) (now : ℕ) (e : Event) (hash : String) (tokens : List EnrollmentToken)
    → IsUsed hash tokens
    → IsUsed hash (happen fault now e tokens)
unfolding happen validate_and_consume reap_expired_enrollment_tokens
happen-IsUsed fault now (creating other id tenant created_by scope expiry) hash tokens h =
    create-IsUsed fault now hash other id tenant created_by scope expiry tokens h
happen-IsUsed true now (consuming other) hash tokens h = h
happen-IsUsed false now (consuming other) hash tokens (c, h) =
    (contains-update now hash other tokens c, used-All now hash other tokens h)
happen-IsUsed true now reaping hash tokens h = h
happen-IsUsed false now reaping hash tokens (c, h) =
    (contains-reap now hash tokens c h, unfold delete in All-select _ _ tokens h)

run-IsUsed :
    (es : List (Bool × ℕ × Event)) (hash : String) (tokens : List EnrollmentToken)
    → IsUsed hash tokens
    → IsUsed hash (run es tokens)
unfolding run
run-IsUsed [] hash tokens h = h
run-IsUsed ((fault, now, e) ∷ es) hash tokens h =
    run-IsUsed es hash (happen fault now e tokens) (happen-IsUsed fault now e hash tokens h)

-- The hashes of the tokens are distinct.
abbrev pub Distinct : List EnrollmentToken → Type 0
Distinct [] = Unit {0}
Distinct (t ∷ ts) =
    (contains t.token_hash (map (λ (r : EnrollmentToken). r.token_hash) ts) ≡ false) × Distinct ts

absent-used :
    (now : ℕ) (hash : String) (tokens : List EnrollmentToken)
    → contains hash (map (λ (t : EnrollmentToken). t.token_hash) tokens) ≡ false
    → (find (is_valid now hash) tokens ≡ none)
      × All
          (λ (t : EnrollmentToken). (t.token_hash == hash && is_none t.used_at) ≡ false)
          (update (is_valid now hash) (use_token now) tokens)
unfolding find update contains
absent-used now hash [] c = (refl, tt)
absent-used now hash (t ∷ tokens) c =
    let (f, a) = absent-used now hash tokens (ground arith) in
    (ground (arith, f), (ground arith, a))

consumed-IsUsed :
    (now : ℕ) (hash : String) (tokens : List EnrollmentToken) (t : EnrollmentToken)
    → Distinct tokens
    → find (is_valid now hash) tokens ≡ some t
    → IsUsed hash (update (is_valid now hash) (use_token now) tokens)
unfolding find update contains
consumed-IsUsed now hash [] t d f = absurd (ground arith)
consumed-IsUsed now hash (x ∷ tokens) t d f = elim (Bool-cases (x.token_hash == hash)) [
  | inl e ↦
      let (g, a) = absent-used now hash tokens (
        subst (λ h. contains h (map (λ (r : EnrollmentToken). r.token_hash) tokens) ≡ false)
          ((eq_iff x.token_hash hash).0 e) d.0) in
      (ground (arith, e, g), (ground (arith, e, g), a))
  | inr e ↦
      let (c, a) = consumed-IsUsed now hash tokens t d.1 (ground (arith, e)) in
      (ground (arith, e, c), (ground (arith, e), a))
]

find-used :
    (now : ℕ) (hash : String) (tokens : List EnrollmentToken)
    → All (λ (t : EnrollmentToken). (t.token_hash == hash && is_none t.used_at) ≡ false) tokens
    → find (is_valid now hash) tokens ≡ none
unfolding find
find-used now hash [] h = refl
find-used now hash (t ∷ tokens) h = ground (arith, h.0, find-used now hash tokens h.1)

-- If the hashes of the tokens are distinct and a token has been consumed, then after any sequence of
-- creations, consumptions and reapings, at any times and with any failures of the database, it is
-- not accepted a second time, nor does it pass the check that does not consume it.
pub run-consumed :
    (now later : ℕ) (hash : String) (fault : Bool) (es : List (Bool × ℕ × Event))
    (tokens : List EnrollmentToken) (t : EnrollmentToken)
    → Distinct tokens
    → (validate_and_consume false now hash tokens).0 ≡ some t
    → ((validate_and_consume fault later hash
          (run es (validate_and_consume false now hash tokens).1)).0
        ≡ none)
      × (peek fault later hash (run es (validate_and_consume false now hash tokens).1) ≡ none)
unfolding validate_and_consume peek
run-consumed now later hash fault es tokens t d e =
    elim (Option-cases (find (is_valid now hash) tokens)) [
      | inl f ↦ absurd (ground (arith, f))
      | inr (x, f) ↦
          let used =
            run-IsUsed es hash (update (is_valid now hash) (use_token now) tokens)
              (consumed-IsUsed now hash tokens x d f) in
          let none_left =
            find-used later hash (run es (update (is_valid now hash) (use_token now) tokens))
              used.1 in
          (ground (arith, none_left), ground (arith, none_left))
    ]
