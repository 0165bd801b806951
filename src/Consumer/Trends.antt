-- ===== src/Consumer/Trends.antt =====
-- `_timestamp`, `_trend_period` and `_historical_trends` of src/consumer.py.
pub mod Periods
pub mod Totals
pub mod Complete
use argo_workflows_exporter.Base.{
  ℕ, suc, ◌+◌, String, Bool, true, false, Option, none, some, List, [], ◌∷◌, map, if◌then◌else◌,
}
use argo_workflows_exporter.Base.Text.{text_eq, text_leb}
use argo_workflows_exporter.Base.Dict.{Dict, lookup, put, string_eq}
use argo_workflows_exporter.Base.Sort.{sort}
use argo_workflows_exporter.Base.Results.{Result, ok, err, value_error, ◌>>=◌}
use argo_workflows_exporter.Clock.{Datetime, strptime, sub_days}
use argo_workflows_exporter.Clock.Periods.{print_date, print_hour, weekday}
use argo_workflows_exporter.Rows.{RunRow}
use argo_workflows_exporter.Consumer.Metrics.{phase_of, rate}

-- `_TREND_BUCKETS`
pub data Bucket : Type 0 where
  hour day week : Bucket

unfoldable pub bucket_of : String → Result Bucket
bucket_of bucket =
    if text_eq bucket "hour"
    then ok hour
    else if text_eq bucket "day"
    then ok day
    else if text_eq bucket "week"
    then ok week
    else err value_error

abbrev pub time_of : Option String → Option Datetime
time_of none = none
time_of (some value) = strptime value

abbrev pub or_next : Option Datetime → Option Datetime → Option Datetime
or_next none next = next
or_next (some t) next = some t

-- `_timestamp`
unfoldable pub timestamp : RunRow → Option Datetime
timestamp row =
    or_next (time_of row.shared.finished_at)
      (or_next (time_of row.last_seen_at) (time_of row.first_seen_at))

-- `_trend_period`
unfoldable pub trend_period : Datetime → Bucket → Result String
trend_period value hour = ok (print_hour value)
trend_period value day = ok (print_date value)
trend_period value week = do week_start ← sub_days value (weekday value); ok (print_date week_start)

-- the period of a row with a time
abbrev pub period_at : Bucket → Option Datetime → Result (Option String)
period_at bucket none = ok none
period_at bucket (some t) = do period ← trend_period t bucket; ok (some period)

abbrev pub row_period : Bucket → RunRow → Result (Option String)
row_period bucket row = period_at bucket (timestamp row)

-- the numbers of an entry of `grouped`
pub record Entry : Type 0 where
  pub total : ℕ
  pub succeeded : ℕ
  pub failed : ℕ
  pub error : ℕ

abbrev pub empty_entry : Entry
empty_entry = record { total = 0; succeeded = 0; failed = 0; error = 0 }

abbrev pub or_empty_entry : Option Entry → Entry
or_empty_entry none = empty_entry
or_empty_entry (some e) = e

abbrev pub entry_in : String → Dict String Entry → Entry
entry_in period grouped = or_empty_entry (lookup period grouped)

-- the increments of the loop
unfoldable pub counted : Option String → Entry → Entry
counted none e = record (e) { total = suc e.total }
counted (some phase) e =
    if text_eq phase "Succeeded"
    then record (e) { total = suc e.total; succeeded = suc e.succeeded }
    else if text_eq phase "Failed"
    then record (e) { total = suc e.total; failed = suc e.failed }
    else if text_eq phase "Error"
    then record (e) { total = suc e.total; error = suc e.error }
    else record (e) { total = suc e.total }

abbrev pub observe : Option String → RunRow → Dict String Entry → Dict String Entry
observe none row grouped = grouped
observe (some period) row grouped =
    put period (counted (phase_of row) (entry_in period grouped)) grouped

-- the loop over the rows
unfoldable pub group_rows : Bucket → List RunRow → Dict String Entry → Result (Dict String Entry)
group_rows bucket [] grouped = ok grouped
group_rows bucket (row ∷ rows) grouped = do
  period ← row_period bucket row
  group_rows bucket rows (observe period row grouped)

pub record Trend : Type 0 where
  pub period : String
  pub total : ℕ
  pub succeeded : ℕ
  pub failed : ℕ
  pub error : ℕ
  pub completed : ℕ
  pub success_rate : Option (ℕ × ℕ)
  pub failure_rate : Option (ℕ × ℕ)

abbrev pub trend_of : String → Entry → Trend
trend_of period e = record {
  period = period;
  total = e.total;
  succeeded = e.succeeded;
  failed = e.failed;
  error = e.error;
  completed = e.succeeded + e.failed + e.error;
  success_rate = rate e.succeeded (e.succeeded + e.failed + e.error);
  failure_rate = rate (e.failed + e.error) (e.succeeded + e.failed + e.error);
}

abbrev pub keys : Dict String Entry → List String
keys = map (λ (e : String × Entry). e.0)

abbrev pub trends_of : Dict String Entry → List Trend
trends_of grouped =
    map (λ period. trend_of period (entry_in period grouped)) (sort text_leb (keys grouped))

-- `_historical_trends`
unfoldable pub historical_trends : List RunRow → String → Result (List Trend)
historical_trends rows bucket = do
  b ← bucket_of bucket
  grouped ← group_rows b rows []
  ok (trends_of grouped)
