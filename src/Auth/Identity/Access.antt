-- ===== src/Auth/Identity/Access.antt =====
-- Who passes the middleware of server/auth and server/rbac.
use moebius.Prelude.{
  ℕ, String, ◌≡◌, ◌↔◌, ◌⊎◌, refl, inl, inr, true, false, ◌==◌, some, List, arith, find, find-All,
  find-true, some_lt, Option-cases,
}
use moebius.Models.Access.{ApiKey}
use moebius.Models.Device.{Device}
use moebius.Database.{Db, Env, select_key}
use moebius.Store.Devices.{store_revoke_device}
use moebius.Store.Devices.Revoked.{IsRevoked, store_revoke_device-IsRevoked}
use moebius.Auth.Identity.{
  Role, Identity, AgentIdentity, Certificate, Decision, admitted, refused, authenticate, authorize,
  require, has_permission, authenticate_agent, has_hash, identity_of, role_permissions, has_serial,
}

-- A request passes both middlewares, on an API key and a permission, with exactly the identity of the
-- key's row: where the token is not empty and the database answers, the row that its hash
-- selects has not expired, and the key is an administrator's or its role has the permission.
pub authorize-exact :
    (hash : String → String) (env : Env) (raw permission : String) (roles : List Role) (db : Db)
    (i : Identity)
    → (authorize hash env raw permission roles db ≡ admitted i) ↔ (
        ((raw == "") ≡ false)
        × (env.fault select_key ≡ false)
        × ((k : ApiKey) × (find (has_hash (hash raw)) db.api_keys ≡ some k)
            × (some_lt k.expires_at env.now ≡ false)
            × ((k.is_admin ≡ true)
                ⊎ (has_permission (role_permissions k.role_id roles) permission ≡ true))
            × (identity_of k roles ≡ i)))
unfolding authorize authenticate require
authorize-exact hash env raw permission roles db i = (
  λ h. elim (Option-cases (find (has_hash (hash raw)) db.api_keys)) [
    | inl e ↦ absurd (ground (arith, h, e))
    | inr (k, e) ↦ (
      ground (arith, h, e),
      ground (arith, h, e),
      (k, e, ground (arith, h, e), ground (arith, h, e), ground (arith, h, e)),
    )
  ],
  λ (t, f, (k, e, x, p, s)). ground (arith, t, f, e, x, p, s),
)

decision-cases :
    (d : Decision AgentIdentity)
    → ((i : AgentIdentity) × (d ≡ admitted i))
      ⊎ ((status : ℕ) × (code : String) × (d ≡ refused status code))
decision-cases (admitted i) = inl (i, refl)
decision-cases (refused status code) = inr (status, code, refl)

not_admitted :
    (later : Env) (cert : Certificate) (tenant : String) (db : Db) (i : AgentIdentity)
    → IsRevoked tenant cert.common_name db
    → authenticate_agent later (some cert) db ≡ admitted i
    → ⊥
unfolding authenticate_agent
not_admitted later cert tenant db i h a =
    elim (Option-cases (find (has_serial cert.common_name cert.serial) db.certificates)) [
      | inl e ↦ elim (Option-cases (find (λ (d : Device). d.id == cert.common_name) db.devices)) [
        | inl f ↦ ground (arith, a, e, f)
        | inr (d, f) ↦ ground (arith, a, e, f)
      ]
      | inr (c, e) ↦
          let own = find-true (has_serial cert.common_name cert.serial) db.certificates e in
          let spent = find-All _ (has_serial cert.common_name cert.serial) db.certificates h.0 e in
          elim (Option-cases (find (λ (d : Device). d.id == cert.common_name) db.devices)) [
            | inl f ↦ ground (arith, a, e, f)
            | inr (d, f) ↦ ground (arith, a, e, f, own, spent)
          ]
    ]

-- Once a device is revoked, every request with a certificate in its name is refused, whatever its serial
-- number and its dates.
pub store_revoke_device-authenticate_agent :
    (env later : Env) (tenant reason : String) (cert : Certificate) (db : Db)
    → (store_revoke_device env tenant cert.common_name reason db).0 ≡ true
    → (status : ℕ) × (code : String) × (authenticate_agent later
          (some cert)
          (store_revoke_device env tenant cert.common_name reason db).1
        ≡ refused status code)
store_revoke_device-authenticate_agent env later tenant reason cert db h =
    let db' = (store_revoke_device env tenant cert.common_name reason db).1 in
    elim (store_revoke_device-IsRevoked env tenant cert.common_name reason db) [
      | inl r ↦ elim (decision-cases (authenticate_agent later (some cert) db')) [
        | inl (i, a) ↦ absurd (not_admitted later cert tenant db' i r.1 a)
        | inr d ↦ d
      ]
      | inr e ↦ absurd (ground (arith, h, e))
    ]
