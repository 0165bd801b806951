-- ===== src/Examples/Facts.antt =====
-- What the concrete cycle computes.
use argo_workflows_exporter.Base.{
  some_injective, ℕ, ◌≡◌, ◌≢◌, refl, sym, ap, ◌∙◌, true, false, some, [], ◌∷◌, arith,
}
use argo_workflows_exporter.Base.Int.{pos, ◌+ℤ◌, ◌-ℤ◌}
use argo_workflows_exporter.Base.Results.{ok_injective, Result, ok}
use argo_workflows_exporter.Base.Dict.{has, lookup, put}
use argo_workflows_exporter.Base.Text.{digit?, text_eq}
use argo_workflows_exporter.Json.{get, items, of_items, entries, value_eq}
use argo_workflows_exporter.Sidecar.{sidecar_value}
use argo_workflows_exporter.Ledger.{
  merge, cutoff, merged_index, fold_observations, index_rows, run_row,
}
use argo_workflows_exporter.Base.Sort.{sort, insert}
use argo_workflows_exporter.Taxonomy.{
  normalize_usable, class_of_usable, failure_columns, failure_class, first_match, normalize_failure,
  usable_message,
}
use argo_workflows_exporter.Clock.{strptime, strftime, sub_days, days_in_month, is_leap, to_ordinal}
use argo_workflows_exporter.MetaSchema.CrossField.{
  validate, cross_field_violations, clusters_violations, cluster_violations, sortable, duplicated,
  listed_names, count, accounted, accounted_rows, id_violations, not_ok_violations,
}
use argo_workflows_exporter.MetaSchema.Schema.{
  check, check_properties, check_required, check_expected, check_string, matches, check_integer,
  check_items, fits, full_match,
}
use argo_workflows_exporter.Storage.{
  Bytes, download_bytes, stored_runs, stamp_generation, read_generation_id,
  workflows_to_parquet_bytes, runs_to_parquet_bytes,
}
use argo_workflows_exporter.Consumer.{
  aware, whole, meta_id, freshness_age, freshness_threshold, instant,
}
use argo_workflows_exporter.Consumer.Selection.{IsCurrent}
use argo_workflows_exporter.Cycle.Completes.{Succeeds}
use argo_workflows_exporter.Cycle.{
  new_generation_id, compute_generation, run_cycle, after_fetch, cycle_with, publish_generation,
  publish_all, read_ledger, completed,
}
use argo_workflows_exporter.Cycle.Publish.{IsComputed}
use argo_workflows_exporter.Cycle.Parts.{IsStamped}
use argo_workflows_exporter.Cycle.Atomic.{IsNew}
use argo_workflows_exporter.Examples.Data.{
  new_id, plain_text, oom_rules, pyarrow, dumps, loads, config, calls, new_generation, old_id,
  old_sidecar, new_time, new_sidecar, old_store, observed_row, stored_row, merged_row, stat,
}

byte_injective : {b : Bytes} → Result.ok (1 ∷ []) ≡ ok b → (1 ∷ []) ≡ b
byte_injective h = cc h

pub stamped : IsStamped pyarrow (new_generation_id calls)
unfolding stamp_generation read_generation_id
stamped table b h = rw (sym (byte_injective h)) refl

pub ledger-value : read_ledger pyarrow calls ≡ ok (stored_row ∷ [])
unfolding read_ledger download_bytes stored_runs
ledger-value = refl

pub cutoff-value : cutoff 90 new_time ≡ ok "2024-02-01T10:05:00Z"
unfolding cutoff strptime strftime sub_days
cutoff-value = refl

sidecar-valid : validate (sidecar_value new_sidecar) ≡ ok tt
unfolding validate cross_field_violations check check_properties clusters_violations get
    cluster_violations sortable duplicated listed_names items of_items count check_required has
    check_expected check_string strptime matches check_integer check_items lookup ◌+ℤ◌ digit?
    days_in_month is_leap entries value_eq accounted accounted_rows id_violations not_ok_violations
    fits full_match
sidecar-valid = refl

merge-value :
    merge plain_text oom_rules (stored_row ∷ []) (observed_row ∷ []) new_time 90
    ≡ ok (merged_row ∷ [])
unfolding merge merged_index index_rows fold_observations run_row lookup put sort insert
    failure_columns failure_class first_match normalize_failure usable_message normalize_usable
    class_of_usable
merge-value = rw cutoff-value refl

pub computation :
    compute_generation plain_text oom_rules pyarrow dumps config calls
      (observed_row ∷ [])
      (stat ∷ [])
      (stored_row ∷ [])
    ≡ ok new_generation
unfolding compute_generation workflows_to_parquet_bytes runs_to_parquet_bytes stamp_generation
    lookup
computation = rw (merge-value, sidecar-valid) refl

pub computed : IsComputed plain_text oom_rules pyarrow dumps config calls new_generation
computed = record {
  rows = observed_row ∷ [];
  stats = stat ∷ [];
  runs = stored_row ∷ [];
  was_fetched = refl;
  was_read = ledger-value;
  was_computed = computation;
}

pub succeeds : Succeeds plain_text oom_rules pyarrow dumps config calls new_generation
unfolding computed
succeeds = record { computed = computed; has_answer = refl; puts_stored = ([], refl) }

pub cycle-end : (run_cycle plain_text oom_rules pyarrow dumps config calls old_store).1 ≡ completed
unfolding run_cycle after_fetch cycle_with publish_generation publish_all
cycle-end = rw (ledger-value, computation) refl

abbrev pub clock : ℕ
clock = 63850154710000000

pub current : IsCurrent (sidecar_value new_sidecar) (some (whole (pos 60))) (aware clock)
unfolding freshness_age freshness_threshold get strptime digit? days_in_month is_leap instant
    to_ordinal ◌-ℤ◌
current = (pos 10000000, 360000000, refl, refl, omega arith)

old_meta_id : meta_id (sidecar_value old_sidecar) ≡ some old_id
unfolding meta_id get
old_meta_id = refl

true≢false : true ≢ false
true≢false h = cc h

pub old≢new : old_id ≢ new_id
old≢new h = true≢false (ap (text_eq old_id) h)

pub calls-IsNew : IsNew loads config (new_generation_id calls) old_store
calls-IsNew b v h l e =
    let same : loads b ≡ ok (sidecar_value old_sidecar) = rw (sym (some_injective h)) refl in
    let id : some old_id ≡ some (new_generation_id calls) =
      sym old_meta_id ∙ ap meta_id (ok_injective (sym same ∙ l)) ∙ e in
    true≢false (ap (text_eq old_id) (some_injective id))
