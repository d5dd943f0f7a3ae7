-- ===== src/Api/Files/Indices.antt =====
-- The array of recorded chunk indices in server/api/files.go, and counting below a bound.
use moebius.Prelude.{
  ℕ, zero, suc, ◌≤◌, ◌<◌, ◌≡◌, ◌≢◌, refl, inl, inr, Bool, true, false, not, ◌||◌, ◌&&◌, List, [],
  ◌∷◌, ◌++◌, arith, eqb, length, delete, select, All, All-select, All-append, select-All, All-imp,
  All-zip, Bool-cases,
}
use moebius.Api.Files.{record_chunk}

abbrev pub NoRepeat : List ℕ → Type 0
NoRepeat [] = Unit
NoRepeat (x ∷ xs) = All (λ y. y ≢ x) xs × NoRepeat xs

unfoldable pub has_index : ℕ → List ℕ → Bool
has_index i [] = false
has_index i (x ∷ xs) = eqb x i || has_index i xs

NoRepeat-select : (p : ℕ → Bool) (xs : List ℕ) → NoRepeat xs → NoRepeat (select p xs)
unfolding select
NoRepeat-select p [] h = tt
NoRepeat-select p (x ∷ xs) h = elim (Bool-cases (p x)) [
  | inl e ↦ rw e (All-select _ p xs h.0, NoRepeat-select p xs h.1)
  | inr e ↦ rw e (NoRepeat-select p xs h.1)
]

NoRepeat-append :
    (i : ℕ) (xs : List ℕ) → All (λ y. y ≢ i) xs → NoRepeat xs → NoRepeat (xs ++ i ∷ [])
NoRepeat-append i [] a h = (tt, tt)
NoRepeat-append i (x ∷ xs) a h =
    (All-append _ xs (i ∷ []) h.0 (λ e. a.0 (ground arith), tt), NoRepeat-append i xs a.1 h.1)

kept_differ : (i : ℕ) (xs : List ℕ) → All (λ y. y ≢ i) (delete (λ j. eqb j i) xs)
unfolding delete
kept_differ i xs = All-imp _ _ (λ y h e. ground arith) _ (select-All (λ j. not (eqb j i)) xs)

pub record_chunk-NoRepeat : (i : ℕ) (xs : List ℕ) → NoRepeat xs → NoRepeat (record_chunk i xs)
unfolding record_chunk delete
record_chunk-NoRepeat i xs h =
    NoRepeat-append i _ (kept_differ i xs) (NoRepeat-select (λ j. not (eqb j i)) xs h)

pub record_chunk-bounded :
    (n i : ℕ) (xs : List ℕ) → i < n → All (λ j. j < n) xs → All (λ j. j < n) (record_chunk i xs)
unfolding record_chunk delete
record_chunk-bounded n i xs lt h =
    All-append _ _ (i ∷ []) (All-select _ (λ j. not (eqb j i)) xs h) (lt, tt)

same_length :
    (n : ℕ) (xs : List ℕ) → All (λ y. y ≢ n) xs → length (delete (λ j. eqb j n) xs) ≡ length xs
unfolding delete select
same_length n [] h = refl
same_length n (x ∷ xs) h = ground (arith, h.0, same_length n xs h.1)

drops_one :
    (n : ℕ) (xs : List ℕ) → NoRepeat xs → length xs ≤ suc (length (delete (λ j. eqb j n) xs))
unfolding delete select
drops_one n [] h = omega arith
drops_one n (x ∷ xs) h = elim (Bool-cases (eqb x n)) [
  | inl e ↦ ground (arith, e, same_length n xs (All-imp _ _ (λ y d f. d (ground arith)) xs h.0))
  | inr e ↦ ground (arith, e, drops_one n xs h.1)
]

-- Distinct numbers below n are at most n.
pub length-le : (n : ℕ) (xs : List ℕ) → NoRepeat xs → All (λ j. j < n) xs → length xs ≤ n
unfolding delete
length-le zero [] h b = omega arith
length-le zero (x ∷ xs) h b = absurd (omega (arith, b.0))
length-le (suc n) xs h b = omega (
  arith,
  drops_one n xs h,
  length-le n (delete (λ j. eqb j n) xs) (NoRepeat-select (λ j. not (eqb j n)) xs h) (
      All-imp _ _ (λ j p. omega (arith, p.0, p.1)) _
        (All-zip _ _ _ (All-select _ (λ j. not (eqb j n)) xs b) (kept_differ n xs))),
)

absent_differ : (i : ℕ) (xs : List ℕ) → has_index i xs ≡ false → All (λ y. y ≢ i) xs
unfolding has_index
absent_differ i [] h = tt
absent_differ i (x ∷ xs) h = (λ e. ground arith, absent_differ i xs (ground arith))

-- And where they are n, each of them is there.
pub has_every_index :
    (n i : ℕ) (xs : List ℕ)
    → NoRepeat xs
    → All (λ j. j < n) xs
    → length xs ≡ n
    → i < n
    → has_index i xs ≡ true
has_every_index n i xs h b full lt = elim (Bool-cases (has_index i xs)) [
  | inl e ↦ e
  | inr e ↦ absurd (omega (arith, full, length-le n (i ∷ xs) (absent_differ i xs e, h) (lt, b)))
]

unfoldable pub has_all : ℕ → List ℕ → Bool
has_all zero xs = true
has_all (suc n) xs = has_index n xs && has_all n xs

has_all-below :
    (n k : ℕ) (xs : List ℕ)
    → k ≤ n
    → NoRepeat xs
    → All (λ j. j < n) xs
    → length xs ≡ n
    → has_all k xs ≡ true
unfolding has_all
has_all-below n zero xs le h b full = refl
has_all-below n (suc k) xs le h b full = ground (
  arith,
  has_every_index n k xs h b full (omega (arith, le)),
  has_all-below n k xs (omega (arith, le)) h b full,
)

-- A full array of distinct indices below n holds all of them.
pub full-has_all :
    (n : ℕ) (xs : List ℕ) → NoRepeat xs → All (λ j. j < n) xs → length xs ≡ n → has_all n xs ≡ true
full-has_all n xs h b full = has_all-below n n xs (omega arith) h b full
