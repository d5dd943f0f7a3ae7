-- ===== src/Database/Unique.antt =====
-- Reading and updating by id in a table of jobs with distinct identifiers.
use moebius.Prelude.{
  String, ◌≡◌, refl, inl, inr, Bool, true, false, ◌==◌, ◌&&◌, eq_iff, contains, some, List, [], ◌∷◌,
  arith, Bool-cases, &&-left, All, All-imp, All-zip, select, find, update,
}
use moebius.Models.Job.{Job}
use moebius.Database.WellFormed.{Distinct}
use moebius.Database.Keeps.{ids}

update-absent :
    (id : String) (p : Job → Bool) (f : Job → Job) (xs : List Job)
    → ((r : Job) → p r ≡ true → r.id ≡ id)
    → contains id (ids xs) ≡ false
    → update p f xs ≡ xs
unfolding update contains
update-absent id p f [] h c = refl
update-absent id p f (x ∷ xs) h c = ground (arith, h x, eq_iff x.id id, update-absent id p f xs h)

found-contains :
    (id : String) (q : Job → Bool) (xs : List Job) {j : Job}
    → ((r : Job) → q r ≡ true → r.id ≡ id)
    → find q xs ≡ some j
    → contains id (ids xs) ≡ true
unfolding find contains
found-contains id q [] h e = cc
found-contains id q (x ∷ xs) {j} h e =
    ground (arith, h x, eq_iff x.id id, found-contains id q xs {j = j} h)

-- The statement that follows a read may be taken to test the row again: `g` is any test that the
-- row passed.
pub update-found :
    (id : String) (q g : Job → Bool) (f : Job → Job) (xs : List Job) {j : Job}
    → ((r : Job) → q r ≡ true → r.id ≡ id)
    → Distinct xs
    → find q xs ≡ some j
    → g j ≡ true
    → update (λ r. r.id == id) f xs ≡ update (λ r. r.id == id && g r) f xs
unfolding update find
update-found id q g f [] h d e t = refl
update-found id q g f (x ∷ xs) {j} h d e t = elim (Bool-cases (q x)) [
  | inl p ↦ ground (
    arith,
    h x p,
    eq_iff x.id id,
    update-absent id (λ r. r.id == id) f xs (λ r s. (eq_iff r.id id).0 s),
    update-absent id (λ r. r.id == id && g r) f xs (λ r s. (eq_iff r.id id).0 (&&-left _ _ s)),
  )
  | inr n ↦ ground (
    arith,
    n,
    eq_iff x.id id,
    found-contains id q xs {j = j} h,
    update-found id q g f xs {j = j} h d.1,
  )
]

contains-ids-select :
    (id : String) (p : Job → Bool) (xs : List Job)
    → contains id (ids (select p xs)) ≡ true
    → contains id (ids xs) ≡ true
unfolding select contains
contains-ids-select id p [] h = cc
contains-ids-select id p (x ∷ xs) h = ground (arith, contains-ids-select id p xs)

absent-All :
    (id : String) (p : Job → Bool) (xs : List Job)
    → contains id (ids xs) ≡ false
    → All (λ r. (r.id == id) ≡ true → p r ≡ true) xs
unfolding contains
absent-All id p [] c = tt
absent-All id p (x ∷ xs) c = (λ e. ground arith, absent-All id p xs (ground arith))

-- A row whose identifier was selected was selected itself.
pub selected-All :
    (id : String) (p : Job → Bool) (xs : List Job)
    → Distinct xs
    → contains id (ids (select p xs)) ≡ true
    → All (λ r. (r.id == id) ≡ true → p r ≡ true) xs
unfolding select contains
selected-All id p [] d h = tt
selected-All id p (x ∷ xs) d h = elim (Bool-cases (x.id == id)) [
  | inl e ↦ (
    λ s. ground (arith, eq_iff x.id id, contains-ids-select id p xs),
    absent-All id p xs (ground (arith, eq_iff x.id id)),
  )
  | inr n ↦ (λ s. cc, selected-All id p xs d.1 (ground arith))
]

-- Every row of a list has its identifier among the list's.
pub own_ids : (xs : List Job) → All (λ j. contains j.id (ids xs) ≡ true) xs
unfolding contains
own_ids [] = tt
own_ids (x ∷ xs) =
    (ground (arith, eq_iff x.id x.id), All-imp _ _ (λ j h. ground arith) xs (own_ids xs))

absent-rows :
    (id : String) (P : Job → Type 0) (xs : List Job)
    → contains id (ids xs) ≡ false
    → All (λ r. (r.id == id) ≡ true → P r) xs
unfolding contains
absent-rows id P [] c = tt
absent-rows id P (x ∷ xs) c = (λ e. absurd (ground arith), absent-rows id P xs (ground arith))

-- With distinct identifiers, the rows of a row's identifier are that row.
pub own_rows :
    (xs : List Job) → Distinct xs → All (λ j. All (λ r. (r.id == j.id) ≡ true → r ≡ j) xs) xs
own_rows [] d = tt
own_rows (x ∷ xs) d = (
  (λ e. refl, absent-rows x.id (λ r. r ≡ x) xs d.0),
  All-imp _ _ (λ j h. (λ e. absurd (ground (arith, eq_iff x.id j.id, h.0)), h.1)) xs
      (All-zip _ _ xs (own_ids xs) (own_rows xs d.1)),
)
