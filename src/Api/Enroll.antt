-- ===== src/Api/Enroll.antt =====
-- server/api/enroll.go: the enrollment of an agent. Signing a certificate request is the
-- certification authority's, a parameter; so is the hash of a token.
pub mod Certified
use moebius.Prelude.{
  ℕ, String, Bool, true, false, not, ◌&&◌, ◌||◌, ◌==◌, Option, none, some, List, [], ◌∷◌, ◌++◌,
  ◌>>=◌, contains, map, find, is_some, if◌then◌else◌,
}
use moebius.Models.Access.{ApiScope}
use moebius.Models.Device.{Device, Tenant, Owned, Membership, AgentCertificate, online, text}
use moebius.Database.{
  Db, Env, Dimension, by_group, by_tag, by_site, begin_tx, commit_tx, insert_device,
  insert_certificate, insert_member, owner_exists, log_action,
}
use moebius.Quota.{Defaults, Verdict, allowed, exceeded, failure, check_devices}
use moebius.Auth.Enrollment.{EnrollmentToken, validate_and_consume}
use moebius.Api.Respond.{Response, reply, error, error_status}

-- Without the platform, which the rows of devices leave out too.
pub record EnrollRequest : Type 0 where
  pub enrollment_token : String
  pub csr : String
  pub hostname : String
  pub agent_version : String

-- Without the chain of the authority.
pub record EnrollResponse : Type 0 where
  pub agent_id : String
  pub certificate : String
  pub poll_interval_seconds : ℕ

-- What SignCSR returns.
pub record Signed : Type 0 where
  pub certificate : String
  pub serial : String

pub record Authority : Type 0 where
  pub hash_token : String → String
  pub sign_csr : String → String → Option Signed

-- The table of tokens beside the others.
pub record Enrolling : Type 0 where
  pub db : Db
  pub tokens : List EnrollmentToken

abbrev pub new_device : Env → EnrollmentToken → EnrollRequest → Device
new_device env token req = record {
  id = env.fresh insert_device;
  tenant_id = token.tenant_id;
  hostname = req.hostname;
  agent_version = req.agent_version;
  status = online;
  last_seen_at = none;
  cdm_enabled = false;
  cdm_session_active = false;
  cdm_session_expires_at = none;
  sequence_last = 0;
}

-- The primary key and the foreign key of devices accept the row.
unfoldable pub device_accepted : Db → Device → Bool
device_accepted db d =
    not (contains d.id (map (λ (r : Device). r.id) db.devices))
    && contains d.tenant_id (map (λ (t : Tenant). t.id) db.tenants)

abbrev owns : String → String → Owned → Bool
owns id tenant o = o.id == id && o.tenant_id == tenant

-- The insert of applyScope for one id: the memberships, or the error. Where the row was there
-- already, the owner is looked up once more.
unfoldable pub insert_membership :
    Env
    → Dimension
    → String
    → String
    → List Owned
    → String
    → List Membership
    → Option (List Membership)
unfolding find
insert_membership env dim device tenant owners id members =
    if env.fault (insert_member dim id)
    then none
    else if not (is_some (find (owns id tenant) owners))
    then none
    else if is_some (find (λ (m : Membership). m.owner_id == id && m.device_id == device) members)
    then (if env.fault (owner_exists dim id) then none else some members)
    else some (members ++ record { owner_id = id; device_id = device } ∷ [])

unfoldable pub insert_memberships :
    Env
    → Dimension
    → String
    → String
    → List Owned
    → List String
    → List Membership
    → Option (List Membership)
unfolding insert_membership
insert_memberships env dim device tenant owners [] members = some members
insert_memberships env dim device tenant owners (id ∷ ids) members =
    insert_membership env dim device tenant owners id members
    >>= insert_memberships env dim device tenant owners ids

-- applyScope: groups, then tags, then sites.
unfoldable pub apply_scope : Env → String → String → ApiScope → Db → Option Db
unfolding insert_memberships
apply_scope env device tenant scope db = do
  gs ← insert_memberships env by_group device tenant db.groups scope.group_ids db.device_groups
  ts ← insert_memberships env by_tag device tenant db.tags scope.tag_ids db.device_tags
  ss ← insert_memberships env by_site device tenant db.sites scope.site_ids db.device_sites
  some (record db { device_groups = gs; device_tags = ts; device_sites = ss })

abbrev pub apply_token_scope : Env → String → EnrollmentToken → Db → Option Db
apply_token_scope env device token db = elim token.scope [
  | none ↦ some db
  | some scope ↦ apply_scope env device token.tenant_id scope db
]

abbrev pub new_certificate : Env → Signed → AgentCertificate
new_certificate env cert = record {
  device_id = env.fresh insert_device;
  serial_number = cert.serial;
  revoked_at = none;
  revocation_reason = none;
}

abbrev pub enrolled :
    Env → EnrollmentToken → EnrollRequest → Signed → Db → Response EnrollResponse × Db
enrolled env token req cert db = (
  reply 200 (record {
    agent_id = env.fresh insert_device;
    certificate = cert.certificate;
    poll_interval_seconds = 30;
  }),
  log_action env token.tenant_id (env.fresh insert_device) "agent" "device.enroll" "device"
      (env.fresh insert_device)
      (text "hostname" req.hostname
        ∷ text "token_id" token.id
        ∷ text "cert_serial" cert.serial
        ∷ [])
      (record db { certificates = db.certificates ++ new_certificate env cert ∷ [] }),
)

-- The transaction; the database of an error is the one before.
unfoldable pub create_device :
    Env → EnrollmentToken → EnrollRequest → Signed → Db → Response EnrollResponse × Db
unfolding error_status device_accepted apply_scope
create_device env token req cert db =
    if env.fault begin_tx
      || env.fault insert_device
      || not (device_accepted db (new_device env token req))
    then (error_status 500, db)
    else elim (apply_token_scope env (env.fresh insert_device) token
        (record db { devices = db.devices ++ new_device env token req ∷ [] })) [
          | none ↦ (error 400 "invalid_scope", db)
          | some db' ↦
              if env.fault insert_certificate || env.fault commit_tx
              then (error_status 500, db)
              else enrolled env token req cert db'
        ]

-- From the consumed token on.
unfoldable pub enroll_with :
    Option Defaults
    → Authority
    → Env
    → EnrollmentToken
    → EnrollRequest
    → Db
    → Response EnrollResponse × Db
unfolding error_status create_device
enroll_with quota ca env token req db = elim (check_devices quota env db token.tenant_id) [
  | exceeded kind limit current attempted ↦ (error 409 "quota_exceeded", db)
  | failure ↦ (error_status 500, db)
  | allowed ↦ elim (ca.sign_csr req.csr (env.fresh insert_device)) [
    | none ↦ (error_status 400, db)
    | some cert ↦ create_device env token req cert db
  ]
]

-- ServeHTTP on a POST; `none` is a body that does not decode. The Boolean says whether the
-- statement that consumes the token fails.
unfoldable pub enroll :
    Option Defaults
    → Authority
    → Bool
    → Env
    → Option EnrollRequest
    → Enrolling
    → Response EnrollResponse × Enrolling
unfolding error_status validate_and_consume enroll_with
enroll quota ca fault env none s = (error_status 400, s)
enroll quota ca fault env (some req) s =
    if req.enrollment_token == "" || req.csr == "" || req.hostname == ""
    then (error_status 400, s)
    else let used =
        validate_and_consume fault env.now (ca.hash_token req.enrollment_token) s.tokens in
      elim used.0 [
        | none ↦ (error_status 401, record s { tokens = used.1 })
        | some token ↦
            let done = enroll_with quota ca env token req s.db in
            (done.0, record { db = done.1; tokens = used.1 })
      ]
