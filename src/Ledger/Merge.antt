-- ===== src/Ledger/Merge.antt =====
-- `merge` returns exactly the expected row of each key, if that row is still retained.
use argo_workflows_exporter.Base.{
  ℕ, String, ◌≡◌, refl, sym, ap, ◌∙◌, true, Option, some, List, [], ◌∷◌, ◌↔◌, inl, inr, Bool-cases,
}
use argo_workflows_exporter.Base.Lists.{In, All, keep, In-keep, keep-In}
use argo_workflows_exporter.Base.Dict.{
  lookup, put, UniqueKeys, put-UniqueKeys, In-lookup, lookup-In,
}
use argo_workflows_exporter.Base.Sort.{sort, sort-In}
use argo_workflows_exporter.Base.Results.{ok}
use argo_workflows_exporter.Taxonomy.{TextTools, Rule}
use argo_workflows_exporter.Rows.{WorkflowRow, RunRow, or_empty}
use argo_workflows_exporter.Ledger.{
  Key, key_eq, Index, identity, has_uid, index_rows, run_row, fold_observations, is_retained,
  row_leb, values, merged_index, merge, cutoff,
}
use argo_workflows_exporter.Base.Text.{text_leb}
use argo_workflows_exporter.Ledger.Promise.{promised, promised-eq}
use argo_workflows_exporter.Ledger.Spec.{expected, merged_index-lookup}

-- Every row stands under its own identity, once.
abbrev pub IsKeyed : Index → Type 0
IsKeyed d = UniqueKeys d × All (λ (k, row). k ≡ identity row.shared) d

put-keyed :
    (k : Key) (row : RunRow) (d : Index)
    → k ≡ identity row.shared
    → All (λ (j, r). j ≡ identity r.shared) d
    → All (λ (j, r). j ≡ identity r.shared) (put k row d)
unfolding put
put-keyed k row [] p h = (p, tt)
put-keyed k row ((j, r) ∷ d) p h = elim (Bool-cases (key_eq.beq j k)) [
  | inl e ↦ rw e ((key_eq.beq_iff j k).0 e ∙ p, h.1)
  | inr e ↦ rw e (h.0, put-keyed k row d p h.1)
]

index_rows-IsKeyed : (d : Index) (rows : List RunRow) → IsKeyed d → IsKeyed (index_rows d rows)
unfolding index_rows
index_rows-IsKeyed d [] h = h
index_rows-IsKeyed d (row ∷ rows) h = elim (Bool-cases (has_uid row.shared)) [
  | inl u ↦ rw u (
      index_rows-IsKeyed (put (identity row.shared) row d) rows (
        put-UniqueKeys (identity row.shared) row d h.0,
        put-keyed (identity row.shared) row d refl h.1,
      ))
  | inr u ↦ rw u (index_rows-IsKeyed d rows h)
]

module _ (T : TextTools) (rules : List Rule) (generated_at : String) where
  identity-run_row :
      (previous : Option RunRow) (row : WorkflowRow)
      → identity row.shared ≡ identity (run_row T rules generated_at previous row).shared
  unfolding run_row
  identity-run_row previous row = refl

  fold_observations-IsKeyed :
      (d : Index) (rows : List WorkflowRow)
      → IsKeyed d
      → IsKeyed (fold_observations T rules generated_at d rows)
  unfolding fold_observations
  fold_observations-IsKeyed d [] h = h
  fold_observations-IsKeyed d (row ∷ rows) h = elim (Bool-cases (has_uid row.shared)) [
    | inl u ↦
        let key : Key = identity row.shared in
        let new : RunRow = run_row T rules generated_at (lookup key d) row in
        rw u (
          fold_observations-IsKeyed (put key new d) rows (
            put-UniqueKeys key new d h.0,
            put-keyed key new d (identity-run_row (lookup key d) row) h.1,
          ))
    | inr u ↦ rw u (fold_observations-IsKeyed d rows h)
  ]

  pub merged_index-IsKeyed :
      (existing_rows : List RunRow) (observed_rows : List WorkflowRow)
      → IsKeyed (merged_index T rules existing_rows observed_rows generated_at)
  unfolding merged_index
  merged_index-IsKeyed existing_rows observed_rows =
      fold_observations-IsKeyed (index_rows [] existing_rows) observed_rows
        (index_rows-IsKeyed [] existing_rows (tt, tt))

In-values : (k : Key) (row : RunRow) (d : Index) → In (k, row) d → In row (values d)
In-values k row [] h = absurd h
In-values k row ((j, r) ∷ d) (inl p) = inl (ap (λ (q : Key × RunRow). q.1) p)
In-values k row ((j, r) ∷ d) (inr h) = inr (In-values k row d h)

values-In :
    (row : RunRow) (d : Index)
    → All (λ (j, r). j ≡ identity r.shared) d
    → In row (values d)
    → In (identity row.shared, row) d
values-In row [] h i = absurd i
values-In row ((j, r) ∷ d) h (inl p) = inl (rw p (ap (λ k. (k, r)) (sym h.0)))
values-In row ((j, r) ∷ d) h (inr i) = inr (values-In row d h.1 i)

module _ (T : TextTools) (rules : List Rule) where
  In-merged_index :
      (existing_rows : List RunRow) (observed_rows : List WorkflowRow) (generated_at : String)
      (row : RunRow)
      → In row (values (merged_index T rules existing_rows observed_rows generated_at)) ↔ (
          expected T rules generated_at existing_rows observed_rows (identity row.shared)
          ≡ some row)
  In-merged_index existing_rows observed_rows generated_at row =
      let d = merged_index T rules existing_rows observed_rows generated_at in
      let keyed = merged_index-IsKeyed T rules generated_at existing_rows observed_rows in
      let found =
        merged_index-lookup T rules generated_at existing_rows observed_rows
          (identity row.shared) in
      (
        λ i. sym found ∙ lookup-In (identity row.shared) row d keyed.0 (values-In row d keyed.1 i),
        λ e.
            In-values (identity row.shared) row d
              (In-lookup (identity row.shared) row d (found ∙ e)),
      )

  pub merge_of_cutoff :
      (existing_rows : List RunRow) (observed_rows : List WorkflowRow) (generated_at : String)
      (retention_days : ℕ) (limit : String)
      → cutoff retention_days generated_at ≡ ok limit
      → merge T rules existing_rows observed_rows generated_at retention_days
        ≡ ok (
            sort row_leb (
              keep
                (is_retained limit)
                (values (merged_index T rules existing_rows observed_rows generated_at))))
  unfolding merge
  merge_of_cutoff existing_rows observed_rows generated_at retention_days limit p = rw p

  -- When the cutoff can be computed, `merge` returns a ledger, and a row is in it exactly if it is
  -- the promised row of its cluster and uid and was last seen no earlier than the cutoff. The
  -- promised row of a run that was observed is its last observation, seen now, with the first-seen
  -- time of the last stored row of that cluster and uid, or of this cycle if there is none; that of
  -- any other run is its last stored row.
  pub merge-In :
      (existing_rows : List RunRow) (observed_rows : List WorkflowRow) (generated_at : String)
      (retention_days : ℕ) (limit : String)
      → cutoff retention_days generated_at ≡ ok limit
      → (kept : List RunRow) × (merge T rules existing_rows observed_rows generated_at
            retention_days
          ≡ ok kept)
        × ((row : RunRow)
            → In row kept ↔ (
                (promised T rules generated_at existing_rows observed_rows
                    (or_empty row.shared.cluster)
                    (or_empty row.shared.uid)
                  ≡ some row)
                × (text_leb limit (or_empty row.last_seen_at) ≡ true)))
  merge-In existing_rows observed_rows generated_at retention_days limit p =
      let rows : List RunRow =
        values (merged_index T rules existing_rows observed_rows generated_at) in
      let kept : List RunRow = keep (is_retained limit) rows in
      (
        sort row_leb kept,
        merge_of_cutoff existing_rows observed_rows generated_at retention_days limit p,
        λ row.
            let (into, from) = In-merged_index existing_rows observed_rows generated_at row in
            let same =
              promised-eq T rules generated_at existing_rows observed_rows
                (or_empty row.shared.cluster) (or_empty row.shared.uid) in
            (
              λ i.
                  let (j, t) =
                    In-keep (is_retained limit) rows row ((sort-In row_leb kept row).0 i) in
                  (same ∙ into j, t),
              λ (e, t).
                  (sort-In row_leb kept row).1
                    (keep-In (is_retained limit) rows row (from (sym same ∙ e)) t),
            ),
      )
