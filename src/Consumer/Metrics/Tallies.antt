-- ===== src/Consumer/Metrics/Tallies.antt =====
-- What the counts of src/consumer.py count.
use text.Mathlib.TextEquality.{eq_iff}
use argo_workflows_exporter.Base.{
  ℕ, zero, suc, ◌+◌, ◌≤◌, String, ◌≡◌, ◌↔◌, refl, sym, ap, subst, ◌∙◌, inl, inr, Bool, false, ◌||◌,
  Option, none, some, some_injective, List, [], ◌∷◌, map, arith, Bool-cases, if◌then◌else◌,
}
use argo_workflows_exporter.Base.Text.{text_eq}
use argo_workflows_exporter.Base.Dict.{
  Dict, lookup, put, string_eq, UniqueKeys, lookup-put, put-UniqueKeys, In-lookup, lookup-In,
}
use argo_workflows_exporter.Base.Lists.{In, length, keep}
use argo_workflows_exporter.Rows.{RunRow}
use argo_workflows_exporter.Consumer.Metrics.{
  or_zero, count_in, tally, present, phase_of, phase_counts, rate, Rates, historical_rates, failing,
}

-- how often a key stands in a list
abbrev pub occurrences : String → List String → ℕ
occurrences k [] = 0
occurrences k (j ∷ js) = let rest = occurrences k js in if text_eq j k then suc rest else rest

-- a count, after a number of further occurrences
abbrev more : ℕ → Option ℕ → Option ℕ
more zero o = o
more (suc m) o = some (suc m + or_zero o)

more-some : (m : ℕ) (o : Option ℕ) → more m (some (suc (or_zero o))) ≡ more (suc m) o
more-some zero o = ap some (omega arith)
more-some (suc m) o = ap some (omega arith)

lookup-tally :
    (k : String) (ks : List String) (d : Dict String ℕ)
    → lookup k (tally ks d) ≡ more (occurrences k ks) (lookup k d)
unfolding tally
lookup-tally k [] d = refl
lookup-tally k (j ∷ js) d = elim (Bool-cases (text_eq j k)) [
  | inl e ↦
      rw
        (lookup-tally k js (put j (suc (count_in j d)) d), lookup-put j k (suc (count_in j d)) d, e)
        (subst
          (λ x.
            more (occurrences k js) (some (suc (or_zero (lookup x d))))
            ≡ more (suc (occurrences k js)) (lookup k d))
          (sym ((eq_iff j k).0 e)) (more-some (occurrences k js) (lookup k d)))
  | inr e ↦
      rw
        (lookup-tally k js (put j (suc (count_in j d)) d), lookup-put j k (suc (count_in j d)) d, e)
        refl
]

tally-UniqueKeys : (ks : List String) (d : Dict String ℕ) → UniqueKeys d → UniqueKeys (tally ks d)
unfolding tally
tally-UniqueKeys [] d u = u
tally-UniqueKeys (k ∷ ks) d u = tally-UniqueKeys ks _ (put-UniqueKeys k (suc (count_in k d)) d u)

more-count : (m : ℕ) → or_zero (more m none) ≡ m
more-count zero = refl
more-count (suc m) = omega arith

count_in-tally : (k : String) (ks : List String) → count_in k (tally ks []) ≡ occurrences k ks
unfolding lookup
count_in-tally k ks = ap or_zero (lookup-tally k ks []) ∙ more-count (occurrences k ks)

more_iff : (m n : ℕ) → (more m none ≡ some n) ↔ ((m ≡ n) × (1 ≤ n))
more_iff zero n = (λ h. absurd (cc h), λ (e, p). absurd (omega (arith, e, p)))
more_iff (suc m) n = (
  λ h. let e : suc m + 0 ≡ n = some_injective h in (omega (arith, e), omega (arith, e)),
  λ (e, p). ap some (omega (arith, e)),
)

-- An entry of a tally is a key that occurs, with the number of times that it does.
pub tally-In :
    (k : String) (n : ℕ) (ks : List String)
    → In (k, n) (tally ks []) ↔ ((occurrences k ks ≡ n) × (1 ≤ n))
unfolding lookup
tally-In k n ks = (
  λ h.
      (more_iff (occurrences k ks) n).0
        (sym (lookup-tally k ks []) ∙ lookup-In k n (tally ks []) (tally-UniqueKeys ks [] tt) h),
  λ p. In-lookup k n (tally ks []) (lookup-tally k ks [] ∙ (more_iff (occurrences k ks) n).1 p),
)

-- one row, or none
unfoldable pub one_if : Bool → ℕ
one_if b = if b then 1 else 0

module _ (p : RunRow → Bool) where
  pub count-cons :
      (row : RunRow) (rows : List RunRow)
      → length (keep p (row ∷ rows)) ≡ one_if (p row) + length (keep p rows)
  unfolding one_if
  count-cons row rows = ground arith

abbrev pub is_cell : String → Option String → Bool
is_cell k none = false
is_cell k (some s) = text_eq s k

abbrev pub is_phase : String → RunRow → Bool
is_phase phase row = is_cell phase (phase_of row)

abbrev pub is_terminal : RunRow → Bool
is_terminal row = is_phase "Succeeded" row || failing (phase_of row)

present-cons :
    (k : String) (o : Option String) (xs : List (Option String))
    → occurrences k (present (o ∷ xs)) ≡ one_if (is_cell k o) + occurrences k (present xs)
unfolding present one_if
present-cons k none xs = omega arith
present-cons k (some s) xs = ground arith

occurrences-present :
    (k : String) (rows : List RunRow)
    → occurrences k (present (map phase_of rows)) ≡ length (keep (is_phase k) rows)
unfolding present
occurrences-present k [] = refl
occurrences-present k (row ∷ rows) =
    present-cons k (phase_of row) (map phase_of rows)
    ∙ ap (λ n. one_if (is_phase k row) + n) (occurrences-present k rows)
    ∙ sym (count-cons (is_phase k) row rows)

phase_counts-count :
    (phase : String) (rows : List RunRow)
    → count_in phase (phase_counts rows) ≡ length (keep (is_phase phase) rows)
unfolding phase_counts
phase_counts-count phase rows =
    count_in-tally phase (present (map phase_of rows)) ∙ occurrences-present phase rows

failing_split :
    (o : Option String)
    → one_if (failing o) ≡ one_if (is_cell "Failed" o) + one_if (is_cell "Error" o)
unfolding one_if
failing_split none = omega arith
failing_split (some s) = elim (Bool-cases (text_eq s "Failed")) [
  | inl e ↦
      subst
        (λ x.
          (if text_eq x "Failed" || text_eq x "Error" then 1 else 0)
          ≡ (if text_eq x "Failed" then 1 else 0) + (if text_eq x "Error" then 1 else 0))
        (sym ((eq_iff s "Failed").0 e)) refl
  | inr e ↦ rw e (omega arith)
]

terminal_split :
    (o : Option String)
    → one_if (is_cell "Succeeded" o || failing o)
      ≡ one_if (is_cell "Succeeded" o) + one_if (failing o)
unfolding one_if
terminal_split none = omega arith
terminal_split (some s) = elim (Bool-cases (text_eq s "Succeeded")) [
  | inl e ↦
      subst
        (λ x.
          (if text_eq x "Succeeded" || (text_eq x "Failed" || text_eq x "Error") then 1 else 0)
          ≡ (if text_eq x "Succeeded" then 1 else 0)
            + (if text_eq x "Failed" || text_eq x "Error" then 1 else 0))
        (sym ((eq_iff s "Succeeded").0 e)) refl
  | inr e ↦ rw e (omega arith)
]

abbrev pub count : (RunRow → Bool) → List RunRow → ℕ
count p rows = length (keep p rows)

failing-count :
    (rows : List RunRow)
    → count (λ row. failing (phase_of row)) rows
      ≡ count (is_phase "Failed") rows + count (is_phase "Error") rows
failing-count [] = omega arith
failing-count (row ∷ rows) = omega (
  arith,
  count-cons (λ r. failing (phase_of r)) row rows,
  count-cons (is_phase "Failed") row rows,
  count-cons (is_phase "Error") row rows,
  failing_split (phase_of row),
  failing-count rows,
)

terminal-count :
    (rows : List RunRow)
    → count is_terminal rows
      ≡ count (is_phase "Succeeded") rows + count (λ row. failing (phase_of row)) rows
terminal-count [] = omega arith
terminal-count (row ∷ rows) = omega (
  arith,
  count-cons is_terminal row rows,
  count-cons (is_phase "Succeeded") row rows,
  count-cons (λ r. failing (phase_of r)) row rows,
  terminal_split (phase_of row),
  terminal-count rows,
)

one_if-le : (b : Bool) → one_if b ≤ 1
unfolding one_if
one_if-le b = ground arith

count-le : (p : RunRow → Bool) (rows : List RunRow) → count p rows ≤ length rows
count-le p [] = omega arith
count-le p (row ∷ rows) = omega (arith, count-cons p row rows, one_if-le (p row), count-le p rows)

-- what the rates of some rows are
pub record IsRates (rows : List RunRow) (r : Rates) : Type 0 where
  pub total_is : r.total ≡ length rows
  pub completed_is : r.completed ≡ count is_terminal rows
  pub succeeded_is : r.succeeded ≡ count (is_phase "Succeeded") rows
  pub failed_is : r.failed ≡ count (λ row. failing (phase_of row)) rows
  pub error_is : r.error ≡ count (is_phase "Error") rows
  pub splits : r.succeeded + r.failed ≡ r.completed
  pub bounded : r.completed ≤ r.total
  pub success_rate_is : r.success_rate ≡ rate r.succeeded r.completed
  pub failure_rate_is : r.failure_rate ≡ rate r.failed r.completed
  pub completion_rate_is : r.completion_rate ≡ rate r.completed r.total

-- The rates of the ledger count its rows by their phases: a run is completed if it succeeded, failed
-- or erred, each completed run is either a success or a failure, the success and failure rates are
-- shares of the completed runs, and the completion rate is their share of all rows.
pub historical_rates-IsRates : (rows : List RunRow) → IsRates rows (historical_rates rows)
unfolding historical_rates
historical_rates-IsRates rows =
    let s = phase_counts-count "Succeeded" rows in
    let f = phase_counts-count "Failed" rows in
    let e = phase_counts-count "Error" rows in
    record {
      total_is = refl;
      completed_is = omega (arith, s, f, e, terminal-count rows, failing-count rows);
      succeeded_is = s;
      failed_is = omega (arith, f, e, failing-count rows);
      error_is = e;
      splits = omega arith;
      bounded =
          omega
            (arith, s, f, e, terminal-count rows, failing-count rows, count-le is_terminal rows);
      success_rate_is = refl;
      failure_rate_is = refl;
      completion_rate_is = refl;
    }
