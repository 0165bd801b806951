-- ===== src/Consumer/Metrics.antt =====
-- The historical measures of src/consumer.py, from the rows of runs.parquet. A rate is kept as its
-- numerator and its denominator: the code divides them as floats.
pub mod Tallies
pub mod Failures
use argo_workflows_exporter.Base.{
  ℕ, zero, suc, ◌+◌, leb, String, Bool, true, false, ◌||◌, Option, none, some, List, [], ◌∷◌, map,
  if◌then◌else◌,
}
use argo_workflows_exporter.Base.Text.{text_eq, text_leb, is_empty}
use argo_workflows_exporter.Base.Int.{ℤ}
use argo_workflows_exporter.Base.Dict.{Dict, lookup, put, string_eq}
use argo_workflows_exporter.Base.Lists.{length, keep}
use argo_workflows_exporter.Base.Sort.{sort}
use argo_workflows_exporter.Base.Results.{Result, ok, err, value_error, ◌>>=◌}
use argo_workflows_exporter.Ledger.{triple_leb}
use argo_workflows_exporter.Rows.{RunRow, or_empty}

-- `d.get(k, 0)`
abbrev pub or_zero : Option ℕ → ℕ
or_zero none = 0
or_zero (some n) = n

abbrev pub count_in : String → Dict String ℕ → ℕ
count_in k d = or_zero (lookup k d)

-- `Counter`: its keys in the order in which they come first
unfoldable pub tally : List String → Dict String ℕ → Dict String ℕ
tally [] counts = counts
tally (k ∷ ks) counts = tally ks (put k (suc (count_in k counts)) counts)

-- the values that are there
unfoldable pub present : List (Option String) → List String
present [] = []
present (none ∷ xs) = present xs
present (some s ∷ xs) = s ∷ present xs

abbrev pub phase_of : RunRow → Option String
phase_of row = row.shared.phase

-- `_phase_counts`
unfoldable pub phase_counts : List RunRow → Dict String ℕ
phase_counts rows = tally (present (map phase_of rows)) []

-- `_rate`
abbrev pub rate : ℕ → ℕ → Option (ℕ × ℕ)
rate numerator zero = none
rate numerator (suc d) = some (numerator, suc d)

pub record Rates : Type 0 where
  pub total : ℕ
  pub completed : ℕ
  pub succeeded : ℕ
  pub failed : ℕ
  pub error : ℕ
  pub success_rate : Option (ℕ × ℕ)
  pub failure_rate : Option (ℕ × ℕ)
  pub completion_rate : Option (ℕ × ℕ)

-- the sum over `_TERMINAL_PHASES`
abbrev pub terminal_in : Dict String ℕ → ℕ
terminal_in counts =
    count_in "Succeeded" counts + count_in "Failed" counts + count_in "Error" counts

abbrev pub rates_of : ℕ → Dict String ℕ → Rates
rates_of total counts = record {
  total = total;
  completed = terminal_in counts;
  succeeded = count_in "Succeeded" counts;
  failed = count_in "Failed" counts + count_in "Error" counts;
  error = count_in "Error" counts;
  success_rate = rate (count_in "Succeeded" counts) (terminal_in counts);
  failure_rate = rate (count_in "Failed" counts + count_in "Error" counts) (terminal_in counts);
  completion_rate = rate (terminal_in counts) total;
}

-- `_historical_rates`
unfoldable pub historical_rates : List RunRow → Rates
historical_rates rows = rates_of (length rows) (phase_counts rows)

-- an entry of the duration history
pub record DurationEntry : Type 0 where
  pub cluster : Option String
  pub uid : Option String
  pub name : Option String
  pub phase : Option String
  pub started_at : Option String
  pub finished_at : Option String
  pub duration_seconds : ℤ

abbrev pub entry_of : RunRow → ℤ → DurationEntry
entry_of row duration = record {
  cluster = row.shared.cluster;
  uid = row.shared.uid;
  name = row.shared.name;
  phase = row.shared.phase;
  started_at = row.shared.started_at;
  finished_at = row.shared.finished_at;
  duration_seconds = duration;
}

abbrev pub with_duration : RunRow → Option ℤ → List DurationEntry → List DurationEntry
with_duration row none history = history
with_duration row (some duration) history = entry_of row duration ∷ history

-- the loop over the rows
unfoldable pub duration_entries : List RunRow → List DurationEntry
duration_entries [] = []
duration_entries (row ∷ rows) =
    with_duration row row.shared.duration_seconds (duration_entries rows)

-- `a or b or ""`
abbrev pub first_text : Option String → Option String → String
first_text none b = or_empty b
first_text (some a) b = if is_empty a then or_empty b else a

abbrev pub history_key : DurationEntry → String × String × String
history_key e = (first_text e.finished_at e.started_at, or_empty e.cluster, or_empty e.uid)

abbrev pub failing : Option String → Bool
failing none = false
failing (some phase) = text_eq phase "Failed" || text_eq phase "Error"

-- `row.get(field) or "unknown"`
abbrev pub or_unknown : Option String → String
or_unknown none = "unknown"
or_unknown (some s) = if is_empty s then "unknown" else s

pub data FailureField : Type 0 where
  by_class by_fingerprint : FailureField

abbrev pub failure_value : FailureField → RunRow → Option String
failure_value by_class row = row.shared.taxonomy.failure_class
failure_value by_fingerprint row = row.shared.taxonomy.failure_fingerprint

abbrev pub failure_keys : FailureField → List RunRow → List String
failure_keys field rows =
    map (λ row. or_unknown (failure_value field row)) (keep (λ row. failing (phase_of row)) rows)

-- `sorted` of the items
abbrev pub entry_leb : String × ℕ → String × ℕ → Bool
entry_leb (j, m) (k, n) = if text_eq j k then leb m n else text_leb j k

-- `_failure_counts`
unfoldable pub failure_counts : FailureField → List RunRow → Dict String ℕ
failure_counts field rows = sort entry_leb (tally (failure_keys field rows) [])

abbrev pub entry_before : DurationEntry → DurationEntry → Bool
entry_before d e = triple_leb (history_key d) (history_key e)

-- `_historical_duration_history`
unfoldable pub duration_history : List RunRow → List DurationEntry
duration_history rows = sort entry_before (duration_entries rows)
