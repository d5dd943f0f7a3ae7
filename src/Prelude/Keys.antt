-- ===== src/Prelude/Keys.antt =====
-- Tables whose rows have a primary key.
use Prim.Native.String.{String}
use text.Mathlib.Text.{◌==◌}
use text.Mathlib.TextEquality.{eq_iff}
use mathlib.Core.Path.{◌≡◌, refl}
use mathlib.Core.Logic.{inl, inr}
use mathlib.Core.Bool.{Bool, true, false}
use mathlib.Core.Option.{some}
use mathlib.Core.List.{List, [], ◌∷◌, ◌++◌, map}
use native.Mathlib.Omega.{arith}
use moebius.Prelude.Tests.{Bool-cases}
use moebius.Prelude.Lists.{All, contains}
use moebius.Prelude.Rows.{find, update, select, find-All}

module _ {A : Type 0} (key : A → String) where
  abbrev pub Distinct : List A → Type 0
  Distinct [] = Unit
  Distinct (x ∷ xs) = (contains (key x) (map key xs) ≡ false) × Distinct xs

  absent-All :
      (P : A → Type 0) (id : String) (xs : List A)
      → contains id (map key xs) ≡ false
      → All (λ r. (key r == id) ≡ true → P r) xs
  unfolding contains
  absent-All P id [] c = tt
  absent-All P id (x ∷ xs) c = (λ e. absurd (ground arith), absent-All P id xs (ground arith))

  found-contains :
      (id : String) (q : A → Bool) (xs : List A) {j : A}
      → ((r : A) → q r ≡ true → key r ≡ id)
      → find q xs ≡ some j
      → contains id (map key xs) ≡ true
  unfolding find contains
  found-contains id q [] h e = cc
  found-contains id q (x ∷ xs) {j} h e =
      ground (arith, h x, eq_iff (key x) id, found-contains id q xs {j = j} h)

  -- The row that a query by key reads is the only one with that key.
  pub found-only :
      (id : String) (q : A → Bool) (xs : List A) {j : A}
      → ((r : A) → q r ≡ true → key r ≡ id)
      → Distinct xs
      → find q xs ≡ some j
      → All (λ r. (key r == id) ≡ true → r ≡ j) xs
  unfolding find
  found-only id q [] h d e = tt
  found-only id q (x ∷ xs) {j} h d e = elim (Bool-cases (q x)) [
    | inl p ↦ (λ s. ground (arith, p), absent-All (λ r. r ≡ j) id xs (ground (arith, h x p)))
    | inr n ↦ (
      λ s. absurd (ground (arith, n, eq_iff (key x) id, found-contains id q xs {j = j} h)),
      found-only id q xs {j = j} h d.1 (ground (arith, n)),
    )
  ]

  contains-append-false :
      (id : String) (xs : List A) (x : A)
      → contains id (map key xs) ≡ false
      → (key x == id) ≡ false
      → contains id (map key (xs ++ x ∷ [])) ≡ false
  unfolding contains
  contains-append-false id [] x c n = ground arith
  contains-append-false id (y ∷ xs) x c n = ground (arith, contains-append-false id xs x)

  pub Distinct-append :
      (xs : List A) (x : A)
      → Distinct xs
      → contains (key x) (map key xs) ≡ false
      → Distinct (xs ++ x ∷ [])
  unfolding contains
  Distinct-append [] x d c = (refl, tt)
  Distinct-append (y ∷ xs) x d c = (
    contains-append-false (key y) xs x d.0
        (ground (arith, eq_iff (key x) (key y), eq_iff (key y) (key x))),
    Distinct-append xs x d.1 (ground arith),
  )

  keys-update :
      (p : A → Bool) (f : A → A) (xs : List A)
      → ((x : A) → key (f x) ≡ key x)
      → map key (update p f xs) ≡ map key xs
  unfolding update
  keys-update p f [] h = refl
  keys-update p f (x ∷ xs) h = ground (arith, h x, keys-update p f xs h)

  pub Distinct-update :
      (p : A → Bool) (f : A → A) (xs : List A)
      → ((x : A) → key (f x) ≡ key x)
      → Distinct xs
      → Distinct (update p f xs)
  unfolding update
  Distinct-update p f [] h d = tt
  Distinct-update p f (x ∷ xs) h d =
      (ground (arith, d.0, h x, keys-update p f xs h), Distinct-update p f xs h d.1)

  absent-select :
      (id : String) (p : A → Bool) (xs : List A)
      → contains id (map key xs) ≡ false
      → contains id (map key (select p xs)) ≡ false
  unfolding select contains
  absent-select id p [] c = c
  absent-select id p (x ∷ xs) c = ground (arith, absent-select id p xs)

  pub Distinct-select : (p : A → Bool) (xs : List A) → Distinct xs → Distinct (select p xs)
  unfolding select
  Distinct-select p [] d = tt
  Distinct-select p (x ∷ xs) d = elim (Bool-cases (p x)) [
    | inl e ↦ rw e (absent-select (key x) p xs d.0, Distinct-select p xs d.1)
    | inr e ↦ rw e (Distinct-select p xs d.1)
  ]

  update-All-only :
      (P : A → Type 0) (id : String) (j : A) (f : A → A) (xs : List A)
      → All (λ r. (key r == id) ≡ true → r ≡ j) xs
      → P (f j)
      → All P xs
      → All P (update (λ r. key r == id) f xs)
  unfolding update
  update-All-only P id j f [] only pf h = tt
  update-All-only P id j f (x ∷ xs) only pf h = elim (Bool-cases (key x == id)) [
    | inl e ↦ rw (e, only.0 e) (pf, update-All-only P id j f xs only.1 pf h.1)
    | inr e ↦ rw e (h.0, update-All-only P id j f xs only.1 pf h.1)
  ]

  -- A row that is read by key and then updated by key.
  pub update-found-All :
      (P : A → Type 0) (id : String) (q : A → Bool) (f : A → A) (xs : List A) {j : A}
      → ((r : A) → q r ≡ true → key r ≡ id)
      → Distinct xs
      → find q xs ≡ some j
      → (P j → P (f j))
      → All P xs
      → All P (update (λ r. key r == id) f xs)
  update-found-All P id q f xs {j} h d e keep all =
      update-All-only P id j f xs (found-only id q xs {j = j} h d e) (keep (find-All P q xs all e))
        all
