-- ===== src/Ledger/Spec.antt =====
-- What the ledger should hold for each key, said without a dictionary: the last observation of the
-- key if there is one, and else the last stored row, with the first-seen time of the stored row.
use argo_workflows_exporter.Base.{
  String, ◌≡◌, refl, sym, ap, ◌∙◌, Bool, ◌&&◌, Option, none, some, List, [], ◌∷◌, arith, Bool-cases,
  inl, inr, if◌then◌else◌,
}
use argo_workflows_exporter.Base.Dict.{lookup, put, lookup-put, string_eq}
use argo_workflows_exporter.Taxonomy.{TextTools, Rule}
use argo_workflows_exporter.Rows.{SharedFields, WorkflowRow, RunRow}
use argo_workflows_exporter.Ledger.{
  Key, key_eq, Index, identity, has_uid, index_rows, run_row, fold_observations, merged_index,
}

-- does a row count for the key
abbrev pub names : Key → SharedFields → Bool
names k row = has_uid row && key_eq.beq (identity row) k

abbrev pub latest : {A : Type 0} → Option A → Option A → Option A
latest none b = b
latest (some a) b = some a

latest-none : {A : Type 0} (o : Option A) → latest o none ≡ o
latest-none none = refl
latest-none (some a) = refl

-- the last row of the key
abbrev pub last_run : Key → List RunRow → Option RunRow
last_run k [] = none
last_run k (row ∷ rows) = latest (last_run k rows) (if names k row.shared then some row else none)

abbrev pub last_observed : Key → List WorkflowRow → Option WorkflowRow
last_observed k [] = none
last_observed k (row ∷ rows) =
    latest (last_observed k rows) (if names k row.shared then some row else none)

index_rows-lookup :
    (k : Key) (d : Index) (rows : List RunRow)
    → lookup k (index_rows d rows) ≡ latest (last_run k rows) (lookup k d)
unfolding index_rows
index_rows-lookup k d [] = refl
index_rows-lookup k d (row ∷ rows) = ground (
  arith,
  index_rows-lookup k d rows,
  index_rows-lookup k (put (identity row.shared) row d) rows,
  lookup-put (identity row.shared) k row d,
)

module _ (T : TextTools) (rules : List Rule) (generated_at : String) where
  -- the ledger row of a key: its last observation over its row so far
  abbrev pub refreshed : Option WorkflowRow → Option RunRow → Option RunRow
  refreshed none previous = previous
  refreshed (some observed) previous = some (run_row T rules generated_at previous observed)

  -- A second observation of a run in one cycle keeps the first-seen time of the first.
  run_row_twice :
      (p : Option RunRow) (a b : WorkflowRow)
      → run_row T rules generated_at (some (run_row T rules generated_at p a)) b
        ≡ run_row T rules generated_at p b
  unfolding run_row
  run_row_twice p a b = refl

  -- Putting the row of an observation first, and then any later one.
  refreshed-put :
      (k key : Key) (d : Index) (row : WorkflowRow) (later : Option WorkflowRow)
      → refreshed later (
          if key_eq.beq key k
          then some (run_row T rules generated_at (lookup key d) row)
          else lookup k d)
        ≡ refreshed (latest later (if key_eq.beq key k then some row else none)) (lookup k d)
  refreshed-put k key d row later = elim (Bool-cases (key_eq.beq key k)) [
    | inl e ↦ rw (e, (key_eq.beq_iff key k).0 e) (again later)
    | inr e ↦ rw e (ap (λ o. refreshed o (lookup k d)) (sym (latest-none later)))
  ]
    where
      again :
          (o : Option WorkflowRow)
          → refreshed o (some (run_row T rules generated_at (lookup k d) row))
            ≡ refreshed (latest o (some row)) (lookup k d)
      again none = refl
      again (some b) = ap some (run_row_twice (lookup k d) row b)

  fold_observations-lookup :
      (k : Key) (d : Index) (rows : List WorkflowRow)
      → lookup k (fold_observations T rules generated_at d rows)
        ≡ refreshed (last_observed k rows) (lookup k d)
  unfolding fold_observations
  fold_observations-lookup k d [] = refl
  fold_observations-lookup k d (row ∷ rows) = elim (Bool-cases (has_uid row.shared)) [
    | inl u ↦ rw u (
        fold_observations-lookup k
          (put (identity row.shared)
            (run_row T rules generated_at (lookup (identity row.shared) d) row) d)
          rows
        ∙ rw lookup-put (refreshed-put k (identity row.shared) d row (last_observed k rows)))
    | inr u ↦ rw u (
        fold_observations-lookup k d rows
        ∙ ap (λ o. refreshed o (lookup k d)) (sym (latest-none _)))
  ]

  abbrev pub expected : List RunRow → List WorkflowRow → Key → Option RunRow
  expected existing_rows observed_rows k =
      refreshed (last_observed k observed_rows) (last_run k existing_rows)

  -- What the two loops of `merge` leave for a key.
  pub merged_index-lookup :
      (existing_rows : List RunRow) (observed_rows : List WorkflowRow) (k : Key)
      → lookup k (merged_index T rules existing_rows observed_rows generated_at)
        ≡ expected existing_rows observed_rows k
  unfolding merged_index
  merged_index-lookup existing_rows observed_rows k =
      fold_observations-lookup k (index_rows [] existing_rows) observed_rows
      ∙ ap (refreshed (last_observed k observed_rows)) (
          index_rows-lookup k [] existing_rows
          ∙ unfold lookup in latest-none (last_run k existing_rows))
