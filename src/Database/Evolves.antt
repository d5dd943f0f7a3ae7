-- ===== src/Database/Evolves.antt =====
-- How the table of jobs may change: rows are kept in place, their identity is fixed, their phase
-- does not go back, and rows are appended in the queue or beyond.
use moebius.Prelude.{
  ℕ, ◌≤◌, ◌≡◌, ◌∙◌, Bool, true, inl, inr, List, [], ◌∷◌, ◌++◌, arith, Bool-cases, update, All,
}
use moebius.Models.Job.{
  Job, JobStatus, pending, queued, cdm_hold, dispatched, acknowledged, running, completed, failed,
  timed_out, cancelled, other,
}

-- Before the queue, in the server's hands, in the agent's hands, finished.
abbrev pub phase : JobStatus → ℕ
phase pending = 0
phase queued = 1
phase cdm_hold = 1
phase dispatched = 1
phase acknowledged = 2
phase running = 2
phase completed = 3
phase failed = 3
phase timed_out = 3
phase cancelled = 3
phase (other s) = 0

pub phase-le : (s : JobStatus) → phase s ≤ 3
phase-le s = ground arith

pub record Moves (j j' : Job) : Type 0 where
  pub same_id : j'.id ≡ j.id
  pub same_tenant : j'.tenant_id ≡ j.tenant_id
  pub same_device : j'.device_id ≡ j.device_id
  pub same_parent : j'.parent_job_id ≡ j.parent_job_id
  pub same_kind : j'.kind ≡ j.kind
  pub same_payload : j'.payload ≡ j.payload
  pub same_retry_count : j'.retry_count ≡ j.retry_count
  pub same_max_retries : j'.max_retries ≡ j.max_retries
  pub forward : phase j.status ≤ phase j'.status

abbrev pub IsInserted : Job → Type 0
IsInserted j = 1 ≤ phase j.status

abbrev pub Evolves : List Job → List Job → Type 0
Evolves [] new = All IsInserted new
Evolves (j ∷ js) [] = ⊥
Evolves (j ∷ js) (j' ∷ js') = Moves j j' × Evolves js js'

Moves-refl : (j : Job) → Moves j j
Moves-refl j = ground arith

Moves-trans : (i j k : Job) → Moves i j → Moves j k → Moves i k
Moves-trans i j k f g = record {
  same_id = g.same_id ∙ f.same_id;
  same_tenant = g.same_tenant ∙ f.same_tenant;
  same_device = g.same_device ∙ f.same_device;
  same_parent = g.same_parent ∙ f.same_parent;
  same_kind = g.same_kind ∙ f.same_kind;
  same_payload = g.same_payload ∙ f.same_payload;
  same_retry_count = g.same_retry_count ∙ f.same_retry_count;
  same_max_retries = g.same_max_retries ∙ f.same_max_retries;
  forward = omega (arith, f.forward, g.forward);
}

pub Evolves-refl : (xs : List Job) → Evolves xs xs
Evolves-refl [] = tt
Evolves-refl (x ∷ xs) = (Moves-refl x, Evolves-refl xs)

IsInserted-Evolves : (xs ys : List Job) → All IsInserted xs → Evolves xs ys → All IsInserted ys
IsInserted-Evolves [] ys h e = e
IsInserted-Evolves (x ∷ xs) [] h e = absurd e
IsInserted-Evolves (x ∷ xs) (y ∷ ys) h e =
    (omega (arith, h.0, (e.0).forward), IsInserted-Evolves xs ys h.1 e.1)

pub Evolves-trans : (xs ys zs : List Job) → Evolves xs ys → Evolves ys zs → Evolves xs zs
Evolves-trans [] ys zs d e = IsInserted-Evolves ys zs d e
Evolves-trans (x ∷ xs) [] zs d e = absurd d
Evolves-trans (x ∷ xs) (y ∷ ys) [] d e = absurd e
Evolves-trans (x ∷ xs) (y ∷ ys) (z ∷ zs) d e =
    (Moves-trans x y z d.0 e.0, Evolves-trans xs ys zs d.1 e.1)

pub Evolves-append : (xs new : List Job) → All IsInserted new → Evolves xs (xs ++ new)
Evolves-append [] new h = h
Evolves-append (x ∷ xs) new h = (Moves-refl x, Evolves-append xs new h)

pub Evolves-update :
    (p : Job → Bool) (f : Job → Job) (xs : List Job)
    → ((j : Job) → p j ≡ true → Moves j (f j))
    → Evolves xs (update p f xs)
unfolding update
Evolves-update p f [] h = tt
Evolves-update p f (x ∷ xs) h = elim (Bool-cases (p x)) [
  | inl e ↦ rw e (h x e, Evolves-update p f xs h)
  | inr e ↦ rw e (Moves-refl x, Evolves-update p f xs h)
]
