-- ===== src/Ledger/Promise.antt =====
-- What src/ledger.py promises of the ledger, said of the columns themselves; the rows of Spec keep it.
use argo_workflows_exporter.Base.{
  String, ◌≡◌, ◌≢◌, refl, ap, ◌∙◌, ◌⊎◌, inl, inr, Bool, true, not, ◌&&◌, Bool-cases, Option, none,
  some, List, [], ◌∷◌, if◌then◌else◌, arith,
}
use text.Mathlib.TextEquality.{eq_iff}
use argo_workflows_exporter.Base.Text.{text_eq, text_leb, is_empty}
use argo_workflows_exporter.Taxonomy.{TextTools, Rule, failure_columns}
use argo_workflows_exporter.Rows.{SharedFields, WorkflowRow, RunRow, or_empty, cell}
use argo_workflows_exporter.Ledger.{identity, run_row, row_leb}
use argo_workflows_exporter.Ledger.Spec.{latest, last_run, last_observed, refreshed, expected}

-- the columns of a run: its cluster, and its uid, which is not empty
abbrev pub is_of : String → String → SharedFields → Bool
is_of cluster uid row =
    not (is_empty (or_empty row.uid))
    && (text_eq (or_empty row.cluster) cluster && text_eq (or_empty row.uid) uid)

-- the last stored row of a run
abbrev pub last_stored : String → String → List RunRow → Option RunRow
last_stored cluster uid [] = none
last_stored cluster uid (row ∷ rows) =
    latest (last_stored cluster uid rows) (if is_of cluster uid row.shared then some row else none)

-- its last observation
abbrev pub last_row : String → String → List WorkflowRow → Option WorkflowRow
last_row cluster uid [] = none
last_row cluster uid (row ∷ rows) =
    latest (last_row cluster uid rows) (if is_of cluster uid row.shared then some row else none)

last_stored-eq :
    (cluster uid : String) (rows : List RunRow)
    → last_stored cluster uid rows ≡ last_run (cluster, uid) rows
last_stored-eq cluster uid [] = refl
last_stored-eq cluster uid (row ∷ rows) =
    ap (λ o. latest o (if is_of cluster uid row.shared then some row else none))
      (last_stored-eq cluster uid rows)

last_row-eq :
    (cluster uid : String) (rows : List WorkflowRow)
    → last_row cluster uid rows ≡ last_observed (cluster, uid) rows
last_row-eq cluster uid [] = refl
last_row-eq cluster uid (row ∷ rows) =
    ap (λ o. latest o (if is_of cluster uid row.shared then some row else none))
      (last_row-eq cluster uid rows)

-- when the run was first seen: the stored row says it, and this cycle does if there is none
abbrev pub since : String → Option RunRow → Option String
since generated_at none = some generated_at
since generated_at (some stored) = stored.first_seen_at

module _ (T : TextTools) (rules : List Rule) (generated_at : String) where
  -- An observation has its own columns, its failure columns are those of its messages, and it was
  -- seen now; a run that was not observed keeps its stored row.
  abbrev pub row_of : Option WorkflowRow → Option RunRow → Option RunRow
  row_of none stored = stored
  row_of (some observed) stored = some (record {
    shared = record (observed.shared) {
      taxonomy =
          failure_columns T rules observed.shared.failed_step_message
            (cell observed.shared.message);
    };
    first_seen_at = since generated_at stored;
    last_seen_at = some generated_at;
  })

  -- the row of a run in the ledger
  abbrev pub promised : List RunRow → List WorkflowRow → String → String → Option RunRow
  promised existing_rows observed_rows cluster uid =
      row_of (last_row cluster uid observed_rows) (last_stored cluster uid existing_rows)

  row_of-eq :
      (o : Option WorkflowRow) (stored : Option RunRow)
      → row_of o stored ≡ refreshed T rules generated_at o stored
  unfolding run_row
  row_of-eq none stored = refl
  row_of-eq (some observed) none = refl
  row_of-eq (some observed) (some stored) = refl

  pub promised-eq :
      (existing_rows : List RunRow) (observed_rows : List WorkflowRow) (cluster uid : String)
      → promised existing_rows observed_rows cluster uid
        ≡ expected T rules generated_at existing_rows observed_rows (cluster, uid)
  promised-eq existing_rows observed_rows cluster uid =
      ap (λ o. row_of o (last_stored cluster uid existing_rows))
        (last_row-eq cluster uid observed_rows)
      ∙ ap (λ o. row_of (last_observed (cluster, uid) observed_rows) o)
          (last_stored-eq cluster uid existing_rows)
      ∙ row_of-eq (last_observed (cluster, uid) observed_rows)
          (last_run (cluster, uid) existing_rows)

-- the order of two texts that differ
abbrev pub IsBefore : String → String → Type 0
IsBefore a b = (a ≢ b) × (text_leb a b ≡ true)

-- The earlier row was first seen before the other; or at the same time, in a cluster before the
-- other's; or in the same cluster too, with a uid that is no later.
abbrev pub InOrder : RunRow → RunRow → Type 0
InOrder a b =
    IsBefore (or_empty a.first_seen_at) (or_empty b.first_seen_at)
    ⊎ ((or_empty a.first_seen_at ≡ or_empty b.first_seen_at)
        × (IsBefore (or_empty a.shared.cluster) (or_empty b.shared.cluster)
            ⊎ ((or_empty a.shared.cluster ≡ or_empty b.shared.cluster)
                × (text_leb (or_empty a.shared.uid) (or_empty b.shared.uid) ≡ true))))

text-cases : (a b : String) → (a ≡ b) ⊎ (a ≢ b)
text-cases a b = elim (Bool-cases (text_eq a b)) [
  | inl e ↦ inl ((eq_iff a b).0 e)
  | inr e ↦ inr (λ p. ground (arith, e, (eq_iff a b).1 p))
]

-- one step of a lexical order
pub lexical :
    (a x : String) (r : Bool)
    → (if text_eq a x then r else text_leb a x) ≡ true
    → IsBefore a x ⊎ ((a ≡ x) × (r ≡ true))
lexical a x r h = elim (Bool-cases (text_eq a x)) [
  | inl e ↦ inr ((eq_iff a x).0 e, rw e at h)
  | inr e ↦ inl (λ p. ground (arith, e, (eq_iff a x).1 p), rw e at h)
]

pub row_leb-InOrder : (a b : RunRow) → row_leb a b ≡ true → InOrder a b
row_leb-InOrder a b h = elim (lexical (or_empty a.first_seen_at) (or_empty b.first_seen_at) _ h) [
  | inl p ↦ inl p
  | inr (e, k) ↦ inr (e, lexical (or_empty a.shared.cluster) (or_empty b.shared.cluster) _ k)
]

-- Two rows differ in the cluster or in the uid.
abbrev pub AreDistinct : RunRow → RunRow → Type 0
AreDistinct a b =
    (or_empty a.shared.cluster ≢ or_empty b.shared.cluster)
    ⊎ (or_empty a.shared.uid ≢ or_empty b.shared.uid)

pub other-AreDistinct : (a b : RunRow) → identity a.shared ≢ identity b.shared → AreDistinct a b
other-AreDistinct a b n =
    elim (text-cases (or_empty a.shared.cluster) (or_empty b.shared.cluster)) [
      | inl c ↦ inr (λ u. n (cc (c, u)))
      | inr c ↦ inl c
    ]
