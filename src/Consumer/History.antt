-- ===== src/Consumer/History.antt =====
-- The historical helpers of src/consumer.py, from a publication, and the short forms of the
-- selection and of the read.
pub mod Durations
use argo_workflows_exporter.Base.{
  ℕ, String, Bool, true, false, Option, none, some, List, if◌then◌else◌,
}
use argo_workflows_exporter.Base.Text.{text_eq}
use argo_workflows_exporter.Base.Dict.{Dict}
use argo_workflows_exporter.Base.Results.{Result, ok, err, value_error, ◌>>=◌}
use argo_workflows_exporter.Json.{Value}
use argo_workflows_exporter.Rows.{RunRow}
use argo_workflows_exporter.Storage.{Bytes, GetOutcome, Pyarrow, stored_runs}
use argo_workflows_exporter.Consumer.{
  Publication, PublicationResult, PublicationReason, Moment, CycleBound, meta_id,
  footer_generation_id, rejection_reason,
}
use argo_workflows_exporter.Consumer.Read.{select_generation_result, read_generation_result}
use argo_workflows_exporter.Consumer.Metrics.{
  phase_counts, Rates, historical_rates, DurationEntry, duration_history, FailureField, by_class,
  by_fingerprint, failure_counts,
}
use argo_workflows_exporter.Consumer.Trends.{Trend, historical_trends}

-- `generation_ids`
pub record GenerationIds : Type 0 where
  pub meta : Option String
  pub workflows : Option String
  pub runs : Option String

abbrev pub is_absent_reason : Option PublicationReason → Bool
is_absent_reason none = true
is_absent_reason (some reason) = false

-- the columns that `historical_failure_counts` takes
unfoldable pub field_of : String → Result FailureField
field_of field =
    if text_eq field "failure_class"
    then ok by_class
    else if text_eq field "failure_fingerprint"
    then ok by_fingerprint
    else err value_error

pub record Metrics : Type 0 where
  pub rates : Rates
  pub phase_counts : Dict String ℕ
  pub trends : List Trend
  pub duration_history : List DurationEntry
  pub failure_counts : Dict String ℕ
  pub failure_fingerprint_counts : Dict String ℕ

module _ (P : Pyarrow) where
  unfoldable pub generation_ids : Publication → GenerationIds
  generation_ids p = record {
    meta = meta_id p.meta;
    workflows = footer_generation_id P p.workflows;
    runs = footer_generation_id P p.runs;
  }

  -- `is_complete_generation`
  unfoldable pub is_complete_generation : Option Publication → Bool
  is_complete_generation p = is_absent_reason (rejection_reason P p)

  -- `select_generation`
  unfoldable pub select_generation :
      Option Publication
      → Option Publication
      → Option CycleBound
      → Option Moment
      → ℕ
      → Result (Option Publication)
  select_generation candidate last_complete bound now clock = do
    result ← select_generation_result P candidate last_complete bound now clock
    ok result.publication

  -- `historical_run_rows`
  unfoldable pub historical_run_rows : Publication → Result (List RunRow)
  historical_run_rows p = stored_runs P p.runs

  -- `historical_failure_counts`: the field is tested before the rows are read
  unfoldable pub historical_failure_counts : Publication → String → Result (Dict String ℕ)
  historical_failure_counts p field = do
    f ← field_of field
    rows ← historical_run_rows p
    ok (failure_counts f rows)

  -- `historical_metrics`
  unfoldable pub historical_metrics : Publication → Result Metrics
  historical_metrics p = do
    rows ← historical_run_rows p
    trends ← historical_trends rows "day"
    ok (record {
      rates = historical_rates rows;
      phase_counts = phase_counts rows;
      trends = trends;
      duration_history = duration_history rows;
      failure_counts = failure_counts by_class rows;
      failure_fingerprint_counts = failure_counts by_fingerprint rows;
    })

module _ (P : Pyarrow) (loads : Bytes → Result Value) (get_object : ℕ → String → GetOutcome)
    (prefix : String) where
  -- `read_generation`, without the status
  unfoldable pub read_generation :
      Option Publication → Option CycleBound → Option Moment → ℕ → Result (Option Publication)
  read_generation last_complete bound now clock = do
    result ← read_generation_result P loads get_object prefix last_complete bound now clock
    ok result.publication
