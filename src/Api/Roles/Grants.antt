-- ===== src/Api/Roles/Grants.antt =====
-- The permissions that server/api/roles.go hands out, over a history of requests.
use moebius.Prelude.{
  String, ◌≡◌, ◌⊎◌, refl, sym, subst, inl, inr, true, false, not, ◌&&◌, ◌==◌, eq_iff, Option, none,
  some, List, [], ◌∷◌, ◌++◌, arith, contains, find, update, delete, select, All, All-append,
  All-select, All-update, Bool-cases, Option-cases, find-All,
}
use moebius.Database.{Env, select_role}
use moebius.Auth.Identity.{Role, Identity, permissions_subset}
use moebius.Api.Roles.{
  Roles, CreateRoleRequest, create, update_handler, delete_handler, store_delete_role, get_role,
  grant, is_custom_role, is_visible, new_role, may_grant, is_empty, write_role,
}

pub data Request : Type 0 where
  creating : Option CreateRoleRequest → Request
  updating : String → Option CreateRoleRequest → Request
  deleting : String → Request

pub record Incoming : Type 0 where
  pub caller : Identity
  pub env : Env
  pub request : Request

unfoldable pub handle : Incoming → Roles → Roles
handle c s = elim c.request [
  | creating req ↦ (create c.caller c.env req s).1
  | updating id req ↦ (update_handler c.caller c.env id req s).1
  | deleting id ↦ (delete_handler c.caller c.env id s).1
]

unfoldable pub run : List Incoming → Roles → Roles
run [] s = s
run (c ∷ cs) s = run cs (handle c s)

subset-contains :
    (p : String) (outer inner : List String)
    → permissions_subset outer inner ≡ true
    → contains p inner ≡ true
    → contains p outer ≡ true
unfolding permissions_subset contains
subset-contains p outer [] h c = cc
subset-contains p outer (q ∷ inner) h c =
    ground (arith, h, c, eq_iff q p, subset-contains p outer inner)

subset_trans :
    (a b c : List String)
    → permissions_subset a b ≡ true
    → permissions_subset b c ≡ true
    → permissions_subset a c ≡ true
unfolding permissions_subset
subset_trans a b [] h k = refl
subset_trans a b (p ∷ c) h k = ground (arith, h, k, subset-contains p a b, subset_trans a b c)

-- A custom role has none but the given permissions.
abbrev pub IsWithin : List String → Role → Type 0
IsWithin granted r = (r.is_custom ≡ false) ⊎ (permissions_subset granted r.permissions ≡ true)

-- A caller who is no administrator and has none but the given permissions.
abbrev pub IsBounded : List String → Incoming → Type 0
IsBounded granted c =
    (c.caller.is_admin ≡ false) × (permissions_subset granted c.caller.permissions ≡ true)

create-roles :
    (caller : Identity) (env : Env) (req : CreateRoleRequest) (s : Roles)
    → caller.is_admin ≡ false
    → ((create caller env (some req) s).1.roles ≡ s.roles)
      ⊎ ((permissions_subset caller.permissions req.permissions ≡ true)
          × ((create caller env (some req) s).1.roles ≡ s.roles ++ new_role env caller req ∷ []))
unfolding create
create-roles caller env req s a = ground (arith, a)

create-IsWithin :
    (granted : List String) (caller : Identity) (env : Env) (req : Option CreateRoleRequest)
    (s : Roles)
    → caller.is_admin ≡ false
    → permissions_subset granted caller.permissions ≡ true
    → All (IsWithin granted) s.roles
    → All (IsWithin granted) (create caller env req s).1.roles
unfolding create
create-IsWithin granted caller env none s a p h = h
create-IsWithin granted caller env (some req) s a p h = elim (create-roles caller env req s a) [
  | inl e ↦ subst (All (IsWithin granted)) (sym e) h
  | inr (q, e) ↦ subst (All (IsWithin granted)) (sym e) (
      All-append _ s.roles (new_role env caller req ∷ []) h
        (inr (subset_trans granted caller.permissions req.permissions p q), tt))
]

-- The permissions that a request leaves to a custom role.
grant-within :
    (granted : List String) (caller : Identity) (req : CreateRoleRequest) (r : Role)
    → caller.is_admin ≡ false
    → permissions_subset granted caller.permissions ≡ true
    → IsWithin granted r
    → r.is_custom ≡ true
    → (not (is_empty req.permissions) && not (may_grant caller req.permissions)) ≡ false
    → permissions_subset granted (grant req r).permissions ≡ true
grant-within granted caller req r a p h custom ok =
    ground (arith, a, p, h, custom, ok, subset_trans granted caller.permissions req.permissions)

abbrev set_role : Role → Role → Role
set_role role r = record r { name = role.name; permissions = role.permissions }

write-roles :
    (caller : Identity) (env : Env) (id : String) (role : Role) (s : Roles)
    → ((write_role caller env id role s).1.roles ≡ s.roles)
      ⊎ ((write_role caller env id role s).1.roles
          ≡ update (is_custom_role caller.tenant_id role.id) (set_role role) s.roles)
write-roles caller env id role s = ground arith

write-IsWithin :
    (granted : List String) (caller : Identity) (env : Env) (id : String) (role : Role) (s : Roles)
    → permissions_subset granted role.permissions ≡ true
    → All (IsWithin granted) s.roles
    → All (IsWithin granted) (write_role caller env id role s).1.roles
write-IsWithin granted caller env id role s p h = elim (write-roles caller env id role s) [
  | inl e ↦ subst (All (IsWithin granted)) (sym e) h
  | inr e ↦ subst (All (IsWithin granted)) (sym e) (
      All-update (IsWithin granted) (is_custom_role caller.tenant_id role.id) (set_role role)
        s.roles (λ r q w. inr p) h)
]

update-outcome :
    (caller : Identity) (env : Env) (id : String) (req : CreateRoleRequest) (s : Roles) (r : Role)
    → find (λ (r : Role). r.id == id && is_visible caller.tenant_id r) s.roles ≡ some r
    → ((update_handler caller env id (some req) s).1.roles ≡ s.roles)
      ⊎ ((r.is_custom ≡ true)
          × ((not (is_empty req.permissions) && not (may_grant caller req.permissions)) ≡ false)
          × ((update_handler caller env id (some req) s).1
              ≡ (write_role caller env id (grant req r) s).1))
unfolding update_handler get_role
update-outcome caller env id req s r f = elim (Bool-cases r.is_custom) [
  | inr c ↦ inl (ground (arith, f, c))
  | inl c ↦
      elim (Bool-cases (not (is_empty req.permissions) && not (may_grant caller req.permissions))) [
        | inl g ↦ inl (ground (arith, f, c, g))
        | inr g ↦ elim (Bool-cases (env.fault select_role)) [
          | inl t ↦ inl (ground (arith, f, t))
          | inr t ↦ inr (c, g, ground (arith, f, c, g, t))
        ]
      ]
]

delete-roles :
    (caller : Identity) (env : Env) (id : String) (s : Roles)
    → ((delete_handler caller env id s).1.roles ≡ s.roles)
      ⊎ ((delete_handler caller env id s).1.roles
          ≡ select (λ r. not (is_custom_role caller.tenant_id id r)) s.roles)
unfolding delete_handler store_delete_role delete
delete-roles caller env id s = ground arith

update-IsWithin :
    (granted : List String) (caller : Identity) (env : Env) (id : String)
    (body : Option CreateRoleRequest) (s : Roles)
    → caller.is_admin ≡ false
    → permissions_subset granted caller.permissions ≡ true
    → All (IsWithin granted) s.roles
    → All (IsWithin granted) (update_handler caller env id body s).1.roles
unfolding update_handler get_role
update-IsWithin granted caller env id none s a p h =
    let e : (update_handler caller env id none s).1.roles ≡ s.roles = ground arith in
    subst (All (IsWithin granted)) (sym e) h
update-IsWithin granted caller env id (some req) s a p h =
    elim (Option-cases (find (λ (r : Role). r.id == id && is_visible caller.tenant_id r) s.roles)) [
      | inl f ↦
          let e : (update_handler caller env id (some req) s).1.roles ≡ s.roles =
            ground (arith, f) in
          subst (All (IsWithin granted)) (sym e) h
      | inr (r, f) ↦ elim (update-outcome caller env id req s r f) [
        | inl e ↦ subst (All (IsWithin granted)) (sym e) h
        | inr (custom, ok, e) ↦ rw e (
            write-IsWithin granted caller env id (grant req r) s
              (grant-within granted caller req r a p (find-All (IsWithin granted) _ s.roles h f)
                custom ok)
              h)
      ]
    ]

delete-IsWithin :
    (granted : List String) (caller : Identity) (env : Env) (id : String) (s : Roles)
    → All (IsWithin granted) s.roles
    → All (IsWithin granted) (delete_handler caller env id s).1.roles
unfolding delete_handler
delete-IsWithin granted caller env id s h = elim (delete-roles caller env id s) [
  | inl e ↦ subst (All (IsWithin granted)) (sym e) h
  | inr e ↦ subst (All (IsWithin granted)) (sym e) (All-select _ _ s.roles h)
]

handle-IsWithin :
    (granted : List String) (c : Incoming) (s : Roles)
    → IsBounded granted c
    → All (IsWithin granted) s.roles
    → All (IsWithin granted) (handle c s).roles
unfolding handle
handle-IsWithin granted c s b h =
    elim c.request as (λ r. All (IsWithin granted) (handle (record c { request = r }) s).roles) [
      | creating req ↦ create-IsWithin granted c.caller c.env req s b.0 b.1 h
      | updating id req ↦ update-IsWithin granted c.caller c.env id req s b.0 b.1 h
      | deleting id ↦ delete-IsWithin granted c.caller c.env id s h
    ]

-- No escalation: where every custom role stays within some set of permissions, and a history of
-- requests on roles comes from callers who are no administrators and hold no others, every
-- custom role stays within that set afterwards.
pub run-IsWithin :
    (granted : List String) (cs : List Incoming) (s : Roles)
    → All (IsBounded granted) cs
    → All (IsWithin granted) s.roles
    → All (IsWithin granted) (run cs s).roles
unfolding run
run-IsWithin granted [] s b h = h
run-IsWithin granted (c ∷ cs) s b h =
    run-IsWithin granted cs (handle c s) b.1 (handle-IsWithin granted c s b.0 h)
