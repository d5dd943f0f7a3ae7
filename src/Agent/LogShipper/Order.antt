-- ===== src/Agent/LogShipper/Order.antt =====
-- The entries of agent/logshipper/shipper.go over a sequence of additions and flushes.
use moebius.Prelude.{
  ℕ, zero, suc, ◌+◌, ◌≤◌, ◌≡◌, sym, ap, ◌∙◌, refl, ◌⊎◌, inl, inr, false, none, List, [], ◌∷◌, ◌++◌,
  arith, length, length-append, length-take-le, take, drop, ltb, leb, if◌then◌else◌, Bool-cases,
  Option-cases, All,
}
use mathlib.Core.List.{append_assoc, append-nil}
use moebius.Agent.LogShipper.{
  LogEntry, Shipper, Outcome, unbuilt, unreachable, answered, add, begin_flush, split_batch, cut,
  pending, rebuffer, end_flush, default_max_buffer, default_max_batch,
}
use moebius.Agent.LogShipper.Steps.{
  Step, adding, beginning, ending, is_success, loses, is_final, in_flight, happen, run, entries,
  departed, delivered, held,
}

take-drop : (n : ℕ) (xs : List LogEntry) → take n xs ++ drop n xs ≡ xs
take-drop zero xs = refl
take-drop (suc n) [] = refl
take-drop (suc n) (x ∷ xs) = ap (λ ys. x ∷ ys) (take-drop n xs)

length-drop-le : (n : ℕ) (xs : List LogEntry) → length (drop n xs) ≤ length xs
length-drop-le zero xs = omega arith
length-drop-le (suc n) [] = omega arith
length-drop-le (suc n) (x ∷ xs) = omega (arith, length-drop-le n xs)

split_batch-join : (n : ℕ) (xs : List LogEntry) → (split_batch n xs).0 ++ (split_batch n xs).1 ≡ xs
unfolding split_batch
split_batch-join n xs = take-drop (if ltb n (length xs) then n else length xs) xs

length-split_batch : (n : ℕ) (xs : List LogEntry) → length (split_batch n xs).1 ≤ length xs
unfolding split_batch
length-split_batch n xs = length-drop-le (if ltb n (length xs) then n else length xs) xs

cut-all : (n : ℕ) (xs : List LogEntry) → length xs ≤ n → cut n xs ≡ xs
unfolding cut
cut-all n xs h = ground (arith, h)

length-cut-le : (n : ℕ) (xs : List LogEntry) → length (cut n xs) ≤ n
unfolding cut
length-cut-le n xs = ground (arith, length-take-le n xs)

add-held :
    (e : LogEntry) (s : Shipper)
    → suc (length (held s)) ≤ default_max_buffer
    → held (add e s) ≡ held s ++ e ∷ []
unfolding add
add-held e s h = elim (Bool-cases (leb default_max_buffer (length s.buffer))) [
  | inl f ↦ absurd (ground (arith, h, f, length-append (in_flight s) s.buffer))
  | inr f ↦ rw f (sym (append_assoc (in_flight s) s.buffer (e ∷ [])))
]

begin_flush-held : (s : Shipper) → s.batch ≡ none → held (begin_flush s) ≡ held s
unfolding begin_flush
begin_flush-held s h = ground (arith, h, split_batch-join default_max_batch s.buffer)

rebuffer-held :
    (b xs : List LogEntry) → length (b ++ xs) ≤ default_max_buffer → rebuffer b xs ≡ b ++ xs
unfolding rebuffer
rebuffer-held b xs h = cut-all default_max_buffer (b ++ xs) h

end_flush-held :
    (o : Outcome) (s : Shipper)
    → length (held s) ≤ default_max_buffer
    → (if is_final o then in_flight s else []) ++ held (end_flush o s) ≡ held s
unfolding end_flush
end_flush-held o s h = elim (Option-cases s.batch) [
  | inl e ↦ ground (arith, e)
  | inr (b, e) ↦
      let kept : rebuffer b s.buffer ≡ b ++ s.buffer =
        rebuffer-held b s.buffer (ground (arith, e, h)) in
      elim o as (λ o. (if is_final o then in_flight s else []) ++ held (end_flush o s) ≡ held s) [
        | unbuilt ↦ ground (arith, e)
        | unreachable ↦ ground (arith, e, kept)
        | answered status ↦ ground (arith, e, kept)
      ]
]

add-bounded :
    (e : LogEntry) (s : Shipper)
    → length s.buffer ≤ default_max_buffer
    → length (add e s).buffer ≤ default_max_buffer
unfolding add
add-bounded e s h = ground (arith, h, length-append s.buffer (e ∷ []))

begin_flush-bounded :
    (s : Shipper)
    → length s.buffer ≤ default_max_buffer
    → length (begin_flush s).buffer ≤ default_max_buffer
unfolding begin_flush
begin_flush-bounded s h = ground (arith, h, length-split_batch default_max_batch s.buffer)

end_flush-bounded :
    (o : Outcome) (s : Shipper)
    → length s.buffer ≤ default_max_buffer
    → length (end_flush o s).buffer ≤ default_max_buffer
unfolding end_flush rebuffer
end_flush-bounded o s h = elim (Option-cases s.batch) [
  | inl e ↦ ground (arith, e, h)
  | inr (b, e) ↦ ground (arith, e, h, length-cut-le default_max_buffer (b ++ s.buffer))
]

beginning_cases :
    (s : Shipper)
    → ((happen beginning s ≡ begin_flush s) × (s.batch ≡ none)) ⊎ (happen beginning s ≡ s)
unfolding happen
beginning_cases s = elim (Option-cases s.batch) [
  | inl e ↦ inl (ground (arith, e), e)
  | inr (b, e) ↦ inr (ground (arith, e))
]

beginning-held : (s : Shipper) → held (happen beginning s) ≡ held s
beginning-held s = elim (beginning_cases s) [
  | inl (f, e) ↦ ap held f ∙ begin_flush-held s e
  | inr f ↦ ap held f
]

adding-held :
    (e : LogEntry) (s : Shipper)
    → suc (length (held s)) ≤ default_max_buffer
    → held (happen (adding e) s) ≡ held s ++ e ∷ []
unfolding happen
adding-held e s h = add-held e s h

ending-held :
    (o : Outcome) (s : Shipper)
    → length (held s) ≤ default_max_buffer
    → (if is_final o then in_flight s else []) ++ held (happen (ending o) s) ≡ held s
unfolding happen
ending-held o s h = end_flush-held o s h

happen-bounded :
    (x : Step) (s : Shipper)
    → length s.buffer ≤ default_max_buffer
    → length (happen x s).buffer ≤ default_max_buffer
unfolding happen
happen-bounded (adding e) s h = add-bounded e s h
happen-bounded beginning s h = elim (beginning_cases s) [
  | inl (w, _) ↦ rw w (begin_flush-bounded s h)
  | inr w ↦ rw w h
]
happen-bounded (ending o) s h = end_flush-bounded o s h

-- Whatever entries are added and whatever becomes of the requests, in any interleaving, the buffer
-- never holds more than 5000 entries.
pub run-bounded :
    (xs : List Step) (s : Shipper)
    → pending s ≤ default_max_buffer
    → pending (run xs s) ≤ default_max_buffer
unfolding run pending
run-bounded [] s h = h
run-bounded (x ∷ xs) s h = run-bounded xs (happen x s) (happen-bounded x s h)

run-departed :
    (xs : List Step) (s : Shipper)
    → length (held s) + length (entries xs) ≤ default_max_buffer
    → departed xs s ++ held (run xs s) ≡ held s ++ entries xs
unfolding run departed entries
run-departed [] s h = sym (append-nil (held s))
run-departed (adding e ∷ xs) s h =
    let w = adding-held e s (ground (arith, h)) in
    run-departed xs (happen (adding e) s)
      (omega (arith, h, ap length w, length-append (held s) (e ∷ [])))
    ∙ ap (λ l. l ++ entries xs) w
    ∙ append_assoc (held s) (e ∷ []) (entries xs)
run-departed (beginning ∷ xs) s h =
    let w = beginning-held s in
    run-departed xs (happen beginning s) (omega (arith, h, ap length w))
    ∙ ap (λ l. l ++ entries xs) w
run-departed (ending o ∷ xs) s h =
    let gone = if is_final o then in_flight s else [] in
    let w = ending-held o s (omega (arith, h)) in
    append_assoc gone (departed xs (happen (ending o) s)) (held (run xs (happen (ending o) s)))
    ∙ ap (λ l. gone ++ l)
        (run-departed xs (happen (ending o) s)
          (omega (arith, h, ap length w, length-append gone (held (happen (ending o) s)))))
    ∙ sym (append_assoc gone (held (happen (ending o) s)) (entries xs))
    ∙ ap (λ l. l ++ entries xs) w

delivered-departed :
    (xs : List Step) (s : Shipper) → All (λ x. loses x ≡ false) xs → delivered xs s ≡ departed xs s
unfolding delivered departed
delivered-departed [] s h = refl
delivered-departed (adding e ∷ xs) s h = delivered-departed xs (happen (adding e) s) h.1
delivered-departed (beginning ∷ xs) s h = delivered-departed xs (happen beginning s) h.1
delivered-departed (ending o ∷ xs) s h =
    let same : is_final o ≡ is_success o = final-success o h.0 in
    rw (same, delivered-departed xs (happen (ending o) s) h.1) refl
  where
    final-success : (o : Outcome) → loses (ending o) ≡ false → is_final o ≡ is_success o
    final-success unbuilt l = ground (arith, l)
    final-success unreachable l = refl
    final-success (answered status) l = ground (arith, l)

-- As long as no more than 5000 entries come in altogether, and no batch is lost, that is, every
-- request is built and ends in an error of the connection, in a status from 200 to 299, or in
-- a status of at least 500: the entries of the batches answered with 200 to 299, those in flight and
-- those buffered are, in this order, exactly the entries that were there before and those that
-- were added, in the order in which they were added.
pub run-held :
    (xs : List Step) (s : Shipper)
    → length (held s) + length (entries xs) ≤ default_max_buffer
    → All (λ x. loses x ≡ false) xs
    → delivered xs s ++ held (run xs s) ≡ held s ++ entries xs
run-held xs s h kept = rw (delivered-departed xs s kept) (run-departed xs s h)
