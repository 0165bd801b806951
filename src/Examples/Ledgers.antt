-- ===== src/Examples/Ledgers.antt =====
-- The theorems on the ledger, on concrete rows.
use argo_workflows_exporter.Base.{◌≡◌, ◌↔◌, true, some, List, [], ◌∷◌}
use argo_workflows_exporter.Base.Lists.{In, IsPairwise}
use argo_workflows_exporter.Base.Text.{text_leb}
use argo_workflows_exporter.Base.Results.{ok}
use argo_workflows_exporter.Rows.{RunRow, or_empty}
use argo_workflows_exporter.Ledger.{merge}
use argo_workflows_exporter.Ledger.Promise.{promised, InOrder, AreDistinct}
use argo_workflows_exporter.Ledger.Merge.{merge-In}
use argo_workflows_exporter.Ledger.Order.{merge-IsSorted}
use argo_workflows_exporter.Examples.Data.{
  plain_text, oom_rules, observed_row, stored_row, new_time,
}
use argo_workflows_exporter.Examples.Facts.{cutoff-value}

merge-In_example :
    (kept : List RunRow) × (merge plain_text oom_rules
        (stored_row ∷ [])
        (observed_row ∷ [])
        new_time
        90
      ≡ ok kept)
    × ((row : RunRow)
        → In row kept ↔ (
            (promised plain_text oom_rules new_time
                (stored_row ∷ [])
                (observed_row ∷ [])
                (or_empty row.shared.cluster)
                (or_empty row.shared.uid)
              ≡ some row)
            × (text_leb "2024-02-01T10:05:00Z" (or_empty row.last_seen_at) ≡ true)))
merge-In_example =
    merge-In plain_text oom_rules (stored_row ∷ []) (observed_row ∷ []) new_time 90
      "2024-02-01T10:05:00Z" cutoff-value

merge-IsSorted_example :
    (kept : List RunRow) × (merge plain_text oom_rules
        (stored_row ∷ [])
        (observed_row ∷ [])
        new_time
        90
      ≡ ok kept)
    × IsPairwise InOrder kept
    × IsPairwise AreDistinct kept
merge-IsSorted_example =
    merge-IsSorted plain_text oom_rules (stored_row ∷ []) (observed_row ∷ []) new_time 90
      "2024-02-01T10:05:00Z" cutoff-value
