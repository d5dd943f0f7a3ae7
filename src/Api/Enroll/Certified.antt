-- ===== src/Api/Enroll/Certified.antt =====
-- An agent that server/api/enroll.go has enrolled, before the middleware of server/auth/mtls.go.
use moebius.Prelude.{
  String, ◌≡◌, sym, ap, update, ◌∙◌, refl, inl, inr, Bool, true, false, ◌||◌, ◌==◌, eq_iff, eq_refl,
  Option, none, some, List, [], ◌∷◌, ◌++◌, arith, contains, map, find, All, ltb, Option-cases,
}
use moebius.Models.Access.{ApiScope}
use moebius.Models.Device.{Device, AgentCertificate}
use moebius.Database.{Db, Env, insert_device, select_agent, log_action, by_group, by_tag, by_site}
use moebius.Quota.{Defaults}
use moebius.Auth.Enrollment.{EnrollmentToken, is_valid, use_token, validate_and_consume}
use moebius.Auth.Identity.{Certificate, admitted, authenticate_agent, has_serial}
use moebius.Api.Respond.{Response, reply, error_status}
use moebius.Api.Enroll.{
  EnrollRequest, EnrollResponse, Signed, Authority, Enrolling, new_device, new_certificate,
  device_accepted, insert_memberships, apply_scope, apply_token_scope, enrolled, create_device,
  enroll_with, enroll,
}

find-last :
    {A : Type 0} (q : A → Bool) (xs : List A) (x : A)
    → find q xs ≡ none
    → q x ≡ true
    → find q (xs ++ x ∷ []) ≡ some x
unfolding find
find-last q [] x n t = ground (arith, t)
find-last q (y ∷ xs) x n t = ground (arith, n, t, find-last q xs x)

unknown_device :
    (id : String) (ds : List Device)
    → contains id (map (λ (r : Device). r.id) ds) ≡ false
    → find (λ (d : Device). d.id == id) ds ≡ none
unfolding find contains
unknown_device id [] c = refl
unknown_device id (d ∷ ds) c = ground (arith, c, unknown_device id ds)

-- Certificates belong to devices that are there (their foreign key).
abbrev pub AreOwned : Db → Type 0
AreOwned db =
    All
      (λ (c : AgentCertificate).
        contains c.device_id (map (λ (r : Device). r.id) db.devices) ≡ true)
      db.certificates

unknown_certificate :
    (id serial : String) (ids : List String) (cs : List AgentCertificate)
    → contains id ids ≡ false
    → All (λ (c : AgentCertificate). contains c.device_id ids ≡ true) cs
    → find (has_serial id serial) cs ≡ none
unfolding find
unknown_certificate id serial ids [] n h = refl
unknown_certificate id serial ids (c ∷ cs) n h =
    ground (arith, n, h.0, eq_iff c.device_id id, unknown_certificate id serial ids cs n h.1)

abbrev Keeps : Db → Db → Type 0
Keeps db db' = (db'.devices ≡ db.devices) × (db'.certificates ≡ db.certificates)

apply_scope-Keeps :
    (env : Env) (device tenant : String) (scope : ApiScope) (db : Db) {db' : Db}
    → apply_scope env device tenant scope db ≡ some db'
    → Keeps db db'
unfolding apply_scope
apply_scope-Keeps env device tenant scope db {db'} h =
    elim (Option-cases
      (insert_memberships env by_group device tenant db.groups scope.group_ids db.device_groups)) [
        | inl e ↦ absurd (ground (arith, h, e))
        | inr (gs, e) ↦
            elim (Option-cases
              (insert_memberships env by_tag device tenant db.tags scope.tag_ids db.device_tags)) [
                | inl f ↦ absurd (ground (arith, h, e, f))
                | inr (ts, f) ↦
                    elim (Option-cases (
                      insert_memberships env by_site device tenant db.sites scope.site_ids
                        db.device_sites)) [
                          | inl g ↦ absurd (ground (arith, h, e, f, g))
                          | inr (ss, g) ↦ (ground (arith, h, e, f, g), ground (arith, h, e, f, g))
                        ]
              ]
      ]

apply_token_scope-Keeps :
    (env : Env) (device : String) (token : EnrollmentToken) (db : Db) {db' : Db}
    → apply_token_scope env device token db ≡ some db'
    → Keeps db db'
apply_token_scope-Keeps env device token db {db'} h = elim (Option-cases token.scope) [
  | inl e ↦ (ground (arith, h, e), ground (arith, h, e))
  | inr (scope, e) ↦
      ground (arith, h, e, apply_scope-Keeps env device token.tenant_id scope db {db' = db'})
]

-- What a successful transaction leaves.
abbrev IsEnrolled :
    Env → EnrollmentToken → EnrollRequest → Signed → Db → Response EnrollResponse × Db → Type 0
IsEnrolled env token req cert db done =
    (contains (env.fresh insert_device) (map (λ (r : Device). r.id) db.devices) ≡ false)
    × (done.1.devices ≡ db.devices ++ new_device env token req ∷ [])
    × (done.1.certificates ≡ db.certificates ++ new_certificate env cert ∷ [])

enrolled-tables :
    (env : Env) (token : EnrollmentToken) (req : EnrollRequest) (cert : Signed) (db : Db)
    → ((enrolled env token req cert db).1.devices ≡ db.devices)
      × ((enrolled env token req cert db).1.certificates
          ≡ db.certificates ++ new_certificate env cert ∷ [])
unfolding log_action
enrolled-tables env token req cert db = (ground arith, ground arith)

create_device-IsEnrolled :
    (env : Env) (token : EnrollmentToken) (req : EnrollRequest) (cert : Signed) (db : Db)
    {r : EnrollResponse}
    → (create_device env token req cert db).0 ≡ reply 200 r
    → IsEnrolled env token req cert db (create_device env token req cert db)
      × (r.agent_id ≡ env.fresh insert_device)
unfolding create_device error_status device_accepted
create_device-IsEnrolled env token req cert db {r} h =
    let with_device : Db = record db { devices = db.devices ++ new_device env token req ∷ [] } in
    elim (Option-cases (apply_token_scope env (env.fresh insert_device) token with_device)) [
      | inl e ↦ absurd (ground (arith, h, e))
      | inr (db', e) ↦
          let k = apply_token_scope-Keeps env (env.fresh insert_device) token with_device e in
          let same : (create_device env token req cert db) ≡ enrolled env token req cert db' =
            ground (arith, h, e) in
          let w = enrolled-tables env token req cert db' in
          (
            (
              ground (arith, h, e),
              ap (λ d. d.1.devices) same ∙ w.0 ∙ k.0,
              ap (λ d. d.1.certificates) same
                  ∙ w.1
                  ∙ ap (λ cs. cs ++ new_certificate env cert ∷ []) k.1,
            ),
            ground (arith, h, same),
          )
    ]

enroll_with-IsEnrolled :
    (quota : Option Defaults) (ca : Authority) (env : Env) (token : EnrollmentToken)
    (req : EnrollRequest) (cert : Signed) (db : Db) {r : EnrollResponse}
    → ca.sign_csr req.csr (env.fresh insert_device) ≡ some cert
    → (enroll_with quota ca env token req db).0 ≡ reply 200 r
    → IsEnrolled env token req cert db (enroll_with quota ca env token req db)
      × (r.agent_id ≡ env.fresh insert_device)
unfolding enroll_with error_status
enroll_with-IsEnrolled quota ca env token req cert db {r} signed h =
    let same : enroll_with quota ca env token req db ≡ create_device env token req cert db =
      ground (arith, h, signed) in
    rw same (create_device-IsEnrolled env token req cert db {r = r} (ap (λ d. d.0) (sym same) ∙ h))

issued-admitted :
    (env later : Env) (token : EnrollmentToken) (req : EnrollRequest) (signed : Signed) (db : Db)
    (done : Response EnrollResponse × Db) (cert : Certificate)
    → AreOwned db
    → IsEnrolled env token req signed db done
    → cert.common_name ≡ env.fresh insert_device
    → cert.serial ≡ signed.serial
    → (cert.common_name == "") ≡ false
    → (ltb later.now cert.not_before || ltb cert.not_after later.now) ≡ false
    → later.fault select_agent ≡ false
    → authenticate_agent later (some cert) done.1
      ≡ admitted (record { agent_id = cert.common_name; tenant_id = token.tenant_id })
unfolding authenticate_agent
issued-admitted env later token req signed db done cert owned e name serial named valid ok =
    let id = env.fresh insert_device in
    let d =
      find-last (λ (r : Device). r.id == id) db.devices (new_device env token req)
        (unknown_device id db.devices e.0) (eq_refl id) in
    let c =
      find-last (has_serial id signed.serial) db.certificates (new_certificate env signed)
        (unknown_certificate id signed.serial (map (λ (r : Device). r.id) db.devices)
          db.certificates e.0 owned)
        (ground (arith, eq_refl id, eq_refl signed.serial)) in
    let d' : find (λ (r : Device). r.id == cert.common_name) done.1.devices
        ≡ some (new_device env token req) =
      rw (name, e.1) d in
    let c' : find (has_serial cert.common_name cert.serial) done.1.certificates
        ≡ some (new_certificate env signed) =
      rw (name, serial, e.2) c in
    ground (arith, named, valid, ok, d', c', name)

-- Where an enrollment is answered with 200, there was a valid token, unused until then, with the hash of
-- the one sent, and the token is used now; and the certificate that was signed in the exchange
-- is admitted from then on, while it is valid and the database answers, as the new device's
-- in the tenant of the token.
pub enroll-authenticate_agent :
    (quota : Option Defaults) (ca : Authority) (fault : Bool) (env later : Env)
    (req : EnrollRequest) (signed : Signed) (s : Enrolling) (r : EnrollResponse)
    (cert : Certificate)
    → AreOwned s.db
    → (enroll quota ca fault env (some req) s).0 ≡ reply 200 r
    → ca.sign_csr req.csr (env.fresh insert_device) ≡ some signed
    → cert.common_name ≡ r.agent_id
    → cert.serial ≡ signed.serial
    → (cert.common_name == "") ≡ false
    → (ltb later.now cert.not_before || ltb cert.not_after later.now) ≡ false
    → later.fault select_agent ≡ false
    → (token : EnrollmentToken) × (find
          (is_valid env.now (ca.hash_token req.enrollment_token))
          s.tokens
        ≡ some token)
      × ((enroll quota ca fault env (some req) s).1.tokens
          ≡ update
              (is_valid env.now (ca.hash_token req.enrollment_token))
              (use_token env.now)
              s.tokens)
      × (authenticate_agent later (some cert) (enroll quota ca fault env (some req) s).1.db
          ≡ admitted (record { agent_id = r.agent_id; tenant_id = token.tenant_id }))
unfolding enroll error_status validate_and_consume
enroll-authenticate_agent quota ca fault env later req signed s r cert owned h sign name serial
      named valid ok =
    elim (Option-cases (find (is_valid env.now (ca.hash_token req.enrollment_token)) s.tokens)) [
      | inl e ↦ absurd (ground (arith, h, e))
      | inr (token, e) ↦
          let used = use_token env.now token in
          let done = enroll_with quota ca env used req s.db in
          let answer : done.0 ≡ reply 200 r = ground (arith, h, e) in
          let tables : (enroll quota ca fault env (some req) s).1.db ≡ done.1 =
            ground (arith, h, e) in
          let w = enroll_with-IsEnrolled quota ca env used req signed s.db sign answer in
          (
            token,
            e,
            ground (arith, h, e),
            rw (tables, sym name)
                (issued-admitted env later used req signed s.db done cert owned w.0 (name ∙ w.1)
                  serial named valid ok),
          )
    ]
