-- ===== src/Database/Keeps.antt =====
-- What is asked of every change to the table of jobs: rows evolve, and stay well formed and
-- distinct.
use moebius.Prelude.{
  String, ◌≡◌, refl, ap, ap₂, inl, inr, Bool, true, false, ◌==◌, ◌||◌, eq_iff, contains, some, List,
  [], ◌∷◌, ◌++◌, map, arith, Bool-cases, update, All, All-append, All-update,
}
use moebius.Models.Job.{Job}
use moebius.Database.{Db, Env, Call, job_accepted, insert_job_row}
use moebius.Database.Evolves.{
  Moves, Evolves, Evolves-refl, Evolves-trans, Evolves-update, Evolves-append, IsInserted,
}
use moebius.Database.WellFormed.{WellFormed, Distinct}

pub record Keeps (xs ys : List Job) : Type 0 where
  pub evolves : Evolves xs ys
  pub well_formed : All WellFormed xs → All WellFormed ys
  pub distinct : Distinct xs → Distinct ys

abbrev pub ids : List Job → List String
ids = map (λ (j : Job). j.id)

pub Keeps-refl : (xs : List Job) → Keeps xs xs
Keeps-refl xs = record { evolves = Evolves-refl xs; well_formed = λ h. h; distinct = λ h. h }

pub Keeps-trans : (xs ys zs : List Job) → Keeps xs ys → Keeps ys zs → Keeps xs zs
Keeps-trans xs ys zs d e = record {
  evolves = Evolves-trans xs ys zs d.evolves e.evolves;
  well_formed = λ h. e.well_formed (d.well_formed h);
  distinct = λ h. e.distinct (d.distinct h);
}

ids-update :
    (p : Job → Bool) (f : Job → Job) (xs : List Job)
    → ((j : Job) → p j ≡ true → Moves j (f j))
    → ids (update p f xs) ≡ ids xs
unfolding update
ids-update p f [] h = refl
ids-update p f (x ∷ xs) h = elim (Bool-cases (p x)) [
  | inl e ↦
      rw e (ap₂ (λ (a : String) (l : List String). a ∷ l) (h x e).same_id (ids-update p f xs h))
  | inr e ↦ rw e (ap (λ (l : List String). x.id ∷ l) (ids-update p f xs h))
]

Distinct-update :
    (p : Job → Bool) (f : Job → Job) (xs : List Job)
    → ((j : Job) → p j ≡ true → Moves j (f j))
    → Distinct xs
    → Distinct (update p f xs)
unfolding update
Distinct-update p f [] h d = tt
Distinct-update p f (x ∷ xs) h d = elim (Bool-cases (p x)) [
  | inl e ↦ rw e (rw ((h x e).same_id, ids-update p f xs h) (d.0), Distinct-update p f xs h d.1)
  | inr e ↦ rw e (rw (ids-update p f xs h) (d.0), Distinct-update p f xs h d.1)
]

-- An UPDATE whose SET keeps the identity, does not go back, and stamps what the status calls for.
pub Keeps-update :
    (p : Job → Bool) (f : Job → Job) (xs : List Job)
    → ((j : Job) → p j ≡ true → Moves j (f j))
    → ((j : Job) → p j ≡ true → WellFormed j → WellFormed (f j))
    → Keeps xs (update p f xs)
Keeps-update p f xs m w = record {
  evolves = Evolves-update p f xs m;
  well_formed = All-update WellFormed p f xs w;
  distinct = Distinct-update p f xs m;
}

contains-ids-append :
    (a : String) (xs : List Job) (j : Job)
    → contains a (ids (xs ++ j ∷ [])) ≡ (contains a (ids xs) || j.id == a)
unfolding contains
contains-ids-append a [] j = ground arith
contains-ids-append a (x ∷ xs) j = ground (arith, contains-ids-append a xs j)

Distinct-append :
    (xs : List Job) (j : Job)
    → Distinct xs
    → contains j.id (ids xs) ≡ false
    → Distinct (xs ++ j ∷ [])
unfolding contains
Distinct-append [] j d h = (refl, tt)
Distinct-append (x ∷ xs) j d h = (
  ground (arith, contains-ids-append x.id xs j, eq_iff x.id j.id, eq_iff j.id x.id),
  Distinct-append xs j d.1 (ground arith),
)

-- A row that is inserted was accepted, and is the last.
insert_job_row-inv :
    (env : Env) (call : Call) (j : Job) (db : Db) {db' : Db}
    → insert_job_row env call j db ≡ some db'
    → (contains j.id (ids db.jobs) ≡ false) × (db' ≡ record db { jobs = db.jobs ++ j ∷ [] })
unfolding insert_job_row job_accepted
insert_job_row-inv env call j db e = ground arith

-- An INSERT of a queued row that was never sent: the primary key keeps the identifiers distinct.
pub Keeps-insert :
    (env : Env) (call : Call) (j : Job) (db : Db) {db' : Db}
    → IsInserted j
    → WellFormed j
    → insert_job_row env call j db ≡ some db'
    → Keeps db.jobs db'.jobs
Keeps-insert env call j db q w e =
    let (free, last) = insert_job_row-inv env call j db e in
    rw last (record {
      evolves = Evolves-append db.jobs (j ∷ []) (q, tt);
      well_formed = λ h. All-append WellFormed db.jobs (j ∷ []) h (w, tt);
      distinct = λ d. Distinct-append db.jobs j d free;
    })
