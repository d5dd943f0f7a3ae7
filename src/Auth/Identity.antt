-- ===== src/Auth/Identity.antt =====
-- server/auth/apikey.go, server/auth/mtls.go and server/rbac: who a request comes from, and what
-- it may do. A key whose role or user is NULL is left out; hashing, PEM, PKIX and the
-- verification of a chain are parameters.
pub mod Access
use moebius.Prelude.{
  ℕ, String, Bool, true, false, not, ◌&&◌, ◌||◌, ◌==◌, Option, none, some, List, [], ◌∷◌, ◌>>=◌,
  contains, find, length, leb, ltb, some_lt, if◌then◌else◌, is_none,
}
use moebius.Models.Access.{ApiKey, ApiScope}
use moebius.Models.Device.{Device, AgentCertificate, is_revoked}
use moebius.Database.{Db, Env, select_key, select_agent}

-- A row of roles; the system's roles have no tenant.
pub record Role : Type 0 where
  pub id : String
  pub tenant_id : Option String
  pub name : String
  pub permissions : List String
  pub is_custom : Bool

-- What a middleware decides: the request goes on with an identity, or is answered at once.
pub data Decision (A : Type 0) : Type 0 where
  admitted : A → Decision A
  refused : ℕ → String → Decision A

pub record Identity : Type 0 where
  pub tenant_id : String
  pub user_id : String
  pub role_id : String
  pub permissions : List String
  pub scope : Option ApiScope
  pub is_admin : Bool

-- PermissionsSubset
unfoldable pub permissions_subset : List String → List String → Bool
unfolding contains
permissions_subset caller [] = true
permissions_subset caller (p ∷ requested) = contains p caller && permissions_subset caller requested

-- The permissions of the LEFT JOIN; a role that is not there has none.
abbrev pub role_permissions : String → List Role → List String
role_permissions id roles = elim (find (λ (r : Role). r.id == id) roles) [
  | none ↦ []
  | some r ↦ r.permissions
]

abbrev pub identity_of : ApiKey → List Role → Identity
identity_of k roles = record {
  tenant_id = k.tenant_id;
  user_id = k.user_id;
  role_id = k.role_id;
  permissions = role_permissions k.role_id roles;
  scope = k.scope;
  is_admin = k.is_admin;
}

abbrev pub has_hash : String → ApiKey → Bool
has_hash hash k = k.key_hash == hash

-- APIKeyMiddleware.Handler on a request that no middleware has authenticated, with the token of
-- its Authorization header.
unfoldable pub authenticate : (String → String) → Env → String → List Role → Db → Decision Identity
unfolding find
authenticate hash_api_key env raw roles db =
    if raw == ""
    then refused 401 "authentication_required"
    else if env.fault select_key
    then refused 500 "internal_error"
    else elim (find (has_hash (hash_api_key raw)) db.api_keys) [
      | none ↦ refused 401 "invalid_api_key"
      | some k ↦
          if some_lt k.expires_at env.now
          then refused 401 "api_key_expired"
          else admitted (identity_of k roles)
    ]

-- hasPermission
unfoldable pub has_permission : List String → String → Bool
has_permission [] required = false
has_permission (p ∷ perms) required = if p == required then true else has_permission perms required

-- Require
unfoldable pub require : String → Identity → Decision Identity
unfolding has_permission
require permission i =
    if i.is_admin
    then admitted i
    else if not (has_permission i.permissions permission)
    then refused 403 "forbidden"
    else admitted i

-- A route behind both.
unfoldable pub authorize :
    (String → String) → Env → String → String → List Role → Db → Decision Identity
unfolding authenticate require
authorize hash_api_key env raw permission roles db =
    elim (authenticate hash_api_key env raw roles db) [
      | refused status code ↦ refused status code
      | admitted i ↦ require permission i
    ]

pub record Certificate : Type 0 where
  pub common_name : String
  pub not_before : ℕ
  pub not_after : ℕ
  pub serial : String

-- The functions of Go's library on certificates.
pub record Pki : Type 0 where
  pub query_unescape : String → Option String
  pub pem_decode : String → Option String
  pub parse_certificate : String → Option Certificate
  pub verify : Certificate → Bool

-- certFromHeader; an error and an empty header both give no certificate.
unfoldable pub cert_from_header : Pki → String → Option Certificate
cert_from_header pki raw =
    if raw == ""
    then none
    else let decoded : String = elim (pki.query_unescape raw) [ none ↦ raw | some d ↦ d ] in
      pki.pem_decode decoded
      >>= pki.parse_certificate
      >>= (λ cert. if pki.verify cert then some cert else none)

-- The first certificate of the connection, or, behind a proxy, the one of the header.
unfoldable pub client_certificate : Pki → Bool → Option Certificate → String → Option Certificate
unfolding cert_from_header
client_certificate pki has_pool (some cert) header = some cert
client_certificate pki has_pool none header = if has_pool then cert_from_header pki header else none

pub record AgentIdentity : Type 0 where
  pub agent_id : String
  pub tenant_id : String

abbrev pub has_serial : String → String → AgentCertificate → Bool
has_serial device serial c = c.device_id == device && c.serial_number == serial

-- From the query on: the row of the device joined with the one of its certificate.
abbrev check_agent : Option Device → Option AgentCertificate → Decision AgentIdentity
check_agent none cert = refused 401 "unknown_device"
check_agent (some d) none = refused 401 "unknown_device"
check_agent (some d) (some c) =
    if not (is_none c.revoked_at)
    then refused 401 "cert_revoked"
    else if is_revoked d.status
    then refused 401 "device_revoked"
    else admitted (record { agent_id = d.id; tenant_id = d.tenant_id })

-- MTLSMiddleware.Handler
unfoldable pub authenticate_agent : Env → Option Certificate → Db → Decision AgentIdentity
unfolding find
authenticate_agent env none db = refused 401 "missing_cert"
authenticate_agent env (some cert) db =
    if cert.common_name == ""
    then refused 401 "no_agent_id"
    else if ltb env.now cert.not_before || ltb cert.not_after env.now
    then refused 401 "cert_expired"
    else if env.fault select_agent
    then refused 500 ""
    else check_agent (find (λ (d : Device). d.id == cert.common_name) db.devices)
        (find (has_serial cert.common_name cert.serial) db.certificates)
