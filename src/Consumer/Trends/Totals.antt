-- ===== src/Consumer/Trends/Totals.antt =====
-- The entries of the trends of src/consumer.py count the rows of their periods.
use text.Mathlib.TextEquality.{eq_iff}
use argo_workflows_exporter.Base.{
  ℕ, ◌+◌, String, ◌≡◌, sym, subst, inl, inr, Bool, true, false, ◌&&◌, Option, none, some, List, [],
  ◌∷◌, arith, Bool-cases,
}
use argo_workflows_exporter.Base.Text.{text_eq}
use argo_workflows_exporter.Base.Dict.{Dict, string_eq, lookup-put}
use argo_workflows_exporter.Base.Results.{Result, ok, err, bind-eq-ok, ok_injective}
use argo_workflows_exporter.Rows.{RunRow}
use argo_workflows_exporter.Consumer.Metrics.{phase_of}
use argo_workflows_exporter.Consumer.Metrics.Tallies.{is_cell, is_phase, count, count-cons, one_if}
use argo_workflows_exporter.Consumer.Trends.{
  Bucket, row_period, Entry, entry_in, counted, observe, group_rows,
}

-- the row is of the period
abbrev pub falls_in : Result (Option String) → String → Bool
falls_in (ok (some q)) period = text_eq q period
falls_in (ok none) period = false
falls_in (err e) period = false

abbrev pub in_period : Bucket → String → RunRow → Bool
in_period bucket period row = falls_in (row_period bucket row) period

abbrev pub in_phase : Bucket → String → String → RunRow → Bool
in_phase bucket period phase row = in_period bucket period row && is_phase phase row

-- The entry grew by these numbers.
pub record Adds (n s f e : ℕ) (before after : Entry) : Type 0 where
  pub total_adds : after.total ≡ before.total + n
  pub succeeded_adds : after.succeeded ≡ before.succeeded + s
  pub failed_adds : after.failed ≡ before.failed + f
  pub error_adds : after.error ≡ before.error + e

-- The entry grew by one row of the phase.
abbrev AddsPhase : Option String → Entry → Entry → Type 0
AddsPhase phase =
    Adds 1 (one_if (is_cell "Succeeded" phase)) (one_if (is_cell "Failed" phase))
      (one_if (is_cell "Error" phase))

abbrev IsCounted : Entry → String → Type 0
IsCounted e phase = AddsPhase (some phase) e (counted (some phase) e)

counted-AddsPhase : (phase : Option String) (e : Entry) → AddsPhase phase e (counted phase e)
unfolding counted one_if
counted-AddsPhase none e = record {
  total_adds = omega arith;
  succeeded_adds = omega arith;
  failed_adds = omega arith;
  error_adds = omega arith;
}
counted-AddsPhase (some s) e = elim (Bool-cases (text_eq s "Succeeded")) [
  | inl p ↦ subst (IsCounted e) (sym ((eq_iff s "Succeeded").0 p)) (record {
    total_adds = omega arith;
    succeeded_adds = omega arith;
    failed_adds = omega arith;
    error_adds = omega arith;
  })
  | inr p ↦ elim (Bool-cases (text_eq s "Failed")) [
    | inl q ↦ subst (IsCounted e) (sym ((eq_iff s "Failed").0 q)) (record {
      total_adds = omega arith;
      succeeded_adds = omega arith;
      failed_adds = omega arith;
      error_adds = omega arith;
    })
    | inr q ↦ elim (Bool-cases (text_eq s "Error")) [
      | inl r ↦ subst (IsCounted e) (sym ((eq_iff s "Error").0 r)) (record {
        total_adds = omega arith;
        succeeded_adds = omega arith;
        failed_adds = omega arith;
        error_adds = omega arith;
      })
      | inr r ↦
          rw (p, q, r)
            (record {
              total_adds = omega arith;
              succeeded_adds = omega arith;
              failed_adds = omega arith;
              error_adds = omega arith;
            })
    ]
  ]
]

-- The entry grew by the rows of the period.
abbrev pub Grows : Bucket → String → List RunRow → Entry → Entry → Type 0
Grows bucket period rows =
    Adds (count (in_period bucket period) rows) (count (in_phase bucket period "Succeeded") rows)
      (count (in_phase bucket period "Failed") rows) (count (in_phase bucket period "Error") rows)

-- The entry grew by the row, if it is of the period.
abbrev AddsRow : Bool → Option String → Entry → Entry → Type 0
AddsRow falls phase =
    Adds (one_if falls) (one_if (falls && is_cell "Succeeded" phase))
      (one_if (falls && is_cell "Failed" phase)) (one_if (falls && is_cell "Error" phase))

same-AddsRow : (phase : Option String) (e : Entry) → AddsRow false phase e e
unfolding one_if
same-AddsRow phase e = record {
  total_adds = omega arith;
  succeeded_adds = omega arith;
  failed_adds = omega arith;
  error_adds = omega arith;
}

AddsPhase-AddsRow :
    (phase : Option String) (e f : Entry) → AddsPhase phase e f → AddsRow true phase e f
unfolding one_if
AddsPhase-AddsRow phase e f h = record {
  total_adds = h.total_adds;
  succeeded_adds = h.succeeded_adds;
  failed_adds = h.failed_adds;
  error_adds = h.error_adds;
}

observe-AddsRow :
    (q : Option String) (period : String) (row : RunRow) (d : Dict String Entry)
    → AddsRow
        (falls_in (ok q) period)
        (phase_of row)
        (entry_in period d)
        (entry_in period (observe q row d))
observe-AddsRow none period row d = same-AddsRow (phase_of row) (entry_in period d)
observe-AddsRow (some q) period row d = elim (Bool-cases (text_eq q period)) [
  | inl e ↦
      rw (lookup-put q period (counted (phase_of row) (entry_in q d)) d, e)
        (subst
          (λ x.
            AddsRow true (phase_of row) (entry_in period d) (counted (phase_of row) (entry_in x d)))
          (sym ((eq_iff q period).0 e))
          (AddsPhase-AddsRow (phase_of row) _ _
            (counted-AddsPhase (phase_of row) (entry_in period d))))
  | inr e ↦
      rw (lookup-put q period (counted (phase_of row) (entry_in q d)) d, e)
        (same-AddsRow (phase_of row) (entry_in period d))
]

cons-Grows :
    (b : Bucket) (period : String) (row : RunRow) (rows : List RunRow) (d e f : Entry)
    → AddsRow (in_period b period row) (phase_of row) d e
    → Grows b period rows e f
    → Grows b period (row ∷ rows) d f
cons-Grows b period row rows d e f h g = record {
  total_adds = omega (arith, h.total_adds, g.total_adds, count-cons (in_period b period) row rows);
  succeeded_adds = omega (
    arith,
    h.succeeded_adds,
    g.succeeded_adds,
    count-cons (in_phase b period "Succeeded") row rows,
  );
  failed_adds =
      omega (arith, h.failed_adds, g.failed_adds, count-cons (in_phase b period "Failed") row rows);
  error_adds =
      omega (arith, h.error_adds, g.error_adds, count-cons (in_phase b period "Error") row rows);
}

nil-Grows :
    (b : Bucket) (period : String) (d e : Dict String Entry)
    → d ≡ e
    → Grows b period [] (entry_in period d) (entry_in period e)
nil-Grows b period d e h =
    subst (λ x. Grows b period [] (entry_in period d) (entry_in period x)) h
      (record {
        total_adds = omega arith;
        succeeded_adds = omega arith;
        failed_adds = omega arith;
        error_adds = omega arith;
      })

pub group_rows-Grows :
    (b : Bucket) (period : String) (rows : List RunRow) (d e : Dict String Entry)
    → group_rows b rows d ≡ ok e
    → Grows b period rows (entry_in period d) (entry_in period e)
unfolding group_rows
group_rows-Grows b period [] d e h = nil-Grows b period d e (ok_injective h)
group_rows-Grows b period (row ∷ rows) d e h =
    let (q, r, h) = bind-eq-ok (row_period b row) _ h in
    cons-Grows b period row rows (entry_in period d) (entry_in period (observe q row d))
      (entry_in period e)
      (subst
        (λ x.
          AddsRow (falls_in x period) (phase_of row) (entry_in period d)
            (entry_in period (observe q row d)))
        (sym r) (observe-AddsRow q period row d))
      (group_rows-Grows b period rows (observe q row d) e h)
