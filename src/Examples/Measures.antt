-- ===== src/Examples/Measures.antt =====
-- The theorems on the helpers of src/consumer.py, on a ledger of three runs and on a snapshot of two
-- clusters.
use argo_workflows_exporter.Json.{of_items, items, get, contains}
use argo_workflows_exporter.Consumer.Availability.{
  add_clusters, cluster_availability, snapshot_table, current_snapshot_rows,
}
use argo_workflows_exporter.Consumer.Trends.{
  counted, trend_period, timestamp, group_rows, Trend, week, bucket_of, historical_trends,
}
use argo_workflows_exporter.Base.Dict.{lookup, put}
use argo_workflows_exporter.Clock.Periods.{print_date, weekday}
use argo_workflows_exporter.Base.Sort.{sort}
use argo_workflows_exporter.Clock.{sub_days, strptime}
use argo_workflows_exporter.Base.{◌≤◌, String, ◌≡◌, ◌↔◌, refl, none, some, List, [], ◌∷◌}
use argo_workflows_exporter.Base.Int.{pos}
use argo_workflows_exporter.Base.Lists.{In, IsPairwise}
use argo_workflows_exporter.Base.Results.{Result, ok}
use argo_workflows_exporter.Rows.{WorkflowRow, RunRow}
use argo_workflows_exporter.Sidecar.{sidecar_value}
use argo_workflows_exporter.Storage.{Bytes}
use argo_workflows_exporter.Consumer.{Publication}
use argo_workflows_exporter.Consumer.Availability.Snapshot.{Answers, current_snapshot_rows-In}
use argo_workflows_exporter.Consumer.Metrics.{
  historical_rates, by_class, failure_counts, duration_history, DurationEntry,
}
use argo_workflows_exporter.Consumer.Metrics.Tallies.{count, IsRates, historical_rates-IsRates}
use argo_workflows_exporter.Consumer.Metrics.Failures.{has_failure, failure_counts-In}
use argo_workflows_exporter.Consumer.Trends.Periods.{Returns, IsBucket, historical_trends-Returns}
use argo_workflows_exporter.Consumer.Trends.Complete.{AreTrends, historical_trends-AreTrends}
use argo_workflows_exporter.Consumer.History.Durations.{IsOf, IsSooner, duration_history-IsSorted}
use argo_workflows_exporter.Examples.Data.{fields, stored_row, old_time, new_time}
use argo_workflows_exporter.Examples.Rows.{workflow_row, two_stats}
use argo_workflows_exporter.Examples.Settings.{two_sidecar, two_sidecar-accepted}

abbrev failed_run : String → String → RunRow
failed_run uid finished_at = record {
  shared = record (fields uid) {
    phase = some "Failed";
    finished_at = some finished_at;
    duration_seconds = some (pos 60);
    taxonomy = record { failure_fingerprint = none; failure_class = some "oom" };
  };
  first_seen_at = some old_time;
  last_seen_at = some new_time;
}

abbrev ledger : List RunRow
ledger =
    failed_run "u3" "2024-05-02T10:00:00Z"
    ∷ stored_row
    ∷ failed_run "u2" "2024-04-29T10:00:00Z"
    ∷ []

historical_rates-IsRates_example : IsRates ledger (historical_rates ledger)
historical_rates-IsRates_example = historical_rates-IsRates ledger

failure_counts-In_example :
    In ("oom", 2) (failure_counts by_class ledger)
    ↔ ((count (has_failure by_class "oom") ledger ≡ 2) × (1 ≤ 2))
failure_counts-In_example = failure_counts-In by_class ledger "oom" 2

duration_history-IsSorted_example :
    IsPairwise IsSooner (duration_history ledger)
    × ((e : DurationEntry) → In e (duration_history ledger) ↔ IsOf ledger e)
duration_history-IsSorted_example = duration_history-IsSorted ledger

-- all three runs ended in the week of Monday, 29 April 2024
abbrev week_trend : Trend
week_trend = record {
  period = "2024-04-29";
  total = 3;
  succeeded = 1;
  failed = 2;
  error = 0;
  completed = 3;
  success_rate = some (1, 3);
  failure_rate = some (2, 3);
}

week_trends : historical_trends ledger "week" ≡ ok (week_trend ∷ [])
unfolding historical_trends bucket_of group_rows timestamp strptime trend_period sub_days weekday
    sort put print_date lookup counted
week_trends = refl

historical_trends-Returns_example : Returns (historical_trends ledger "week") ↔ IsBucket "week"
historical_trends-Returns_example = historical_trends-Returns ledger "week"

historical_trends-AreTrends_example : AreTrends week ledger (week_trend ∷ [])
unfolding bucket_of
historical_trends-AreTrends_example =
    historical_trends-AreTrends ledger "week" week (week_trend ∷ []) refl week_trends

abbrev measured : Publication
measured = record { meta = sidecar_value two_sidecar; workflows = some []; runs = some (0 ∷ []) }

-- a row of the cluster that did not answer, and one of the cluster that did
abbrev west_row : WorkflowRow
west_row = record { shared = record (fields "u9") { cluster = some "west" }; observed_at = none }

abbrev read_both : Bytes → Result (List WorkflowRow)
read_both b = ok (west_row ∷ workflow_row ∷ [])

east_only : current_snapshot_rows read_both measured ≡ ok (workflow_row ∷ [])
unfolding current_snapshot_rows snapshot_table contains cluster_availability get add_clusters items
    of_items put
east_only = refl

current_snapshot_rows-In_example :
    In workflow_row (workflow_row ∷ [])
    ↔ (In workflow_row (west_row ∷ workflow_row ∷ []) × Answers two_stats (some "east"))
unfolding snapshot_table
current_snapshot_rows-In_example =
    current_snapshot_rows-In read_both measured two_sidecar (west_row ∷ workflow_row ∷ [])
      (workflow_row ∷ []) refl two_sidecar-accepted refl east_only workflow_row
