-- ===== src/Consumer/Metrics/Failures.antt =====
-- What the failure counts of src/consumer.py count.
use argo_workflows_exporter.Base.{
  ℕ, ◌+◌, ◌≤◌, String, ◌≡◌, ◌↔◌, refl, sym, ap, ◌∙◌, inl, inr, Bool, ◌&&◌, ◌||◌, Option, none, some,
  List, [], ◌∷◌, arith, Bool-cases, if◌then◌else◌,
}
use argo_workflows_exporter.Base.Text.{text_eq, is_empty}
use argo_workflows_exporter.Base.Lists.{In}
use argo_workflows_exporter.Base.Sort.{sort-In}
use argo_workflows_exporter.Rows.{RunRow}
use argo_workflows_exporter.Consumer.Metrics.{
  tally, phase_of, failing, or_unknown, FailureField, by_class, by_fingerprint, failure_value,
  failure_keys, entry_leb, failure_counts,
}
use argo_workflows_exporter.Consumer.Metrics.Tallies.{
  occurrences, tally-In, one_if, count-cons, is_cell, is_phase, count,
}

-- the column that is counted
abbrev pub column : FailureField → RunRow → Option String
column by_class row = row.shared.taxonomy.failure_class
column by_fingerprint row = row.shared.taxonomy.failure_fingerprint

-- a cell that holds the key; one that is null or empty counts as "unknown"
abbrev pub carries : Option String → String → Bool
carries none k = text_eq "unknown" k
carries (some s) k = if is_empty s then text_eq "unknown" k else text_eq s k

-- a row that failed or erred, with the key in the column
abbrev pub has_failure : FailureField → String → RunRow → Bool
has_failure field k row =
    (is_phase "Failed" row || is_phase "Error" row) && carries (column field row) k

abbrev failure_key : FailureField → String → RunRow → Bool
failure_key field k row = failing (phase_of row) && text_eq (or_unknown (failure_value field row)) k

carries-eq : (o : Option String) (k : String) → text_eq (or_unknown o) k ≡ carries o k
carries-eq none k = refl
carries-eq (some s) k = elim (Bool-cases (is_empty s)) [ inl e ↦ rw e refl | inr e ↦ rw e refl ]

failing-eq : (o : Option String) → failing o ≡ (is_cell "Failed" o || is_cell "Error" o)
failing-eq none = refl
failing-eq (some s) = refl

column-eq : (field : FailureField) (row : RunRow) → failure_value field row ≡ column field row
column-eq by_class row = refl
column-eq by_fingerprint row = refl

failure_key-eq :
    (field : FailureField) (k : String) (row : RunRow)
    → failure_key field k row ≡ has_failure field k row
failure_key-eq field k row =
    ap (λ x. x && text_eq (or_unknown (failure_value field row)) k) (failing-eq (phase_of row))
    ∙ ap (λ x. (is_phase "Failed" row || is_phase "Error" row) && x)
        (carries-eq (failure_value field row) k ∙ ap (λ o. carries o k) (column-eq field row))

count-eq :
    (p q : RunRow → Bool)
    → ((row : RunRow) → p row ≡ q row)
    → (rows : List RunRow) → count p rows ≡ count q rows
count-eq p q e [] = refl
count-eq p q e (row ∷ rows) =
    count-cons p row rows
    ∙ ap (λ n. one_if (p row) + n) (count-eq p q e rows)
    ∙ ap (λ b. one_if b + count q rows) (e row)
    ∙ sym (count-cons q row rows)

failure_keys-count :
    (field : FailureField) (k : String) (rows : List RunRow)
    → occurrences k (failure_keys field rows) ≡ count (failure_key field k) rows
failure_keys-count field k [] = refl
failure_keys-count field k (row ∷ rows) = elim (Bool-cases (failing (phase_of row))) [
  | inl e ↦ rw e (ground (arith, failure_keys-count field k rows))
  | inr e ↦ rw e (failure_keys-count field k rows)
]

-- The failure counts are those of the rows that failed or erred: an entry is a class (or a
-- fingerprint, or "unknown" for a cell that is null or empty) that some such row has, with the
-- number of such rows that have it.
pub failure_counts-In :
    (field : FailureField) (rows : List RunRow) (k : String) (n : ℕ)
    → In (k, n) (failure_counts field rows) ↔ ((count (has_failure field k) rows ≡ n) × (1 ≤ n))
unfolding failure_counts
failure_counts-In field rows k n =
    let same =
      failure_keys-count field k rows
      ∙ count-eq (failure_key field k) (has_failure field k) (failure_key-eq field k) rows in
    let (from, into) = tally-In k n (failure_keys field rows) in
    let (out, back) = sort-In entry_leb (tally (failure_keys field rows) []) (k, n) in
    (λ h. let (e, p) = from (out h) in (sym same ∙ e, p), λ (e, p). back (into (same ∙ e, p)))
