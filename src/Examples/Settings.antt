-- ===== src/Examples/Settings.antt =====
-- The theorems on the configuration and on the sidecar of a cycle that follows it, with an
-- environment that names two clusters.
use argo_workflows_exporter.Base.Sort.{insert, sort}
use argo_workflows_exporter.Base.Dict.{put, Dict, lookup, string_eq}
use argo_workflows_exporter.Ledger.{run_row, fold_observations, index_rows, merged_index, merge}
use argo_workflows_exporter.MetaSchema.Schema.{full_match}
use argo_workflows_exporter.Storage.{
  normalize_s3_prefix, Pyarrow, workflows_to_parquet_bytes, runs_to_parquet_bytes,
}
use argo_workflows_exporter.Sidecar.{Sidecar, sidecar_value}
use argo_workflows_exporter.MetaSchema.CrossField.{validate}
use argo_workflows_exporter.Config.{
  text_of, log_level, positive_int, read_version, optional, s3_addressing_style, load_endpoint,
  required, Environment, Settings, load,
}
use argo_workflows_exporter.Config.Integers.{parse_int}
use argo_workflows_exporter.Config.Clusters.{
  check_clusters, parse_cluster, parse_all, parse_clusters,
}
use argo_workflows_exporter.Json.{get, items, Value, obj, arr, text, field, end, of_items}
use argo_workflows_exporter.Base.Text.{strip}
use argo_workflows_exporter.Clock.{days_in_month, Datetime, IsDatetime, strftime}
use argo_workflows_exporter.Base.{String, ◌≡◌, refl, ◌⊎◌, inl, some, List, [], ◌∷◌, arith}
use argo_workflows_exporter.Base.Results.{
  Result, ok, err, Raises, type_error, os_error, json_decode_error,
}
use argo_workflows_exporter.MetaSchema.Contract.Publishable.{IsPublishable, validate-IsPublishable}
use argo_workflows_exporter.Config.Loaded.{IsLoaded, load-IsLoaded}
use argo_workflows_exporter.Config.Raises.{IsExpected, load-IsConfigError}
use argo_workflows_exporter.Cycle.{Calls, new_generation_id, sidecar_of, compute_generation}
use argo_workflows_exporter.Cycle.Accepted.{
  cycle_config, IsTimed, load-IsPublishable, compute_generation-error,
}
use argo_workflows_exporter.Examples.Data.{
  plain_text, oom_rules, pyarrow, dumps, calls, new_time, stored_row,
}
use argo_workflows_exporter.Examples.Facts.{cutoff-value}
use argo_workflows_exporter.Rows.{RunRow}
use argo_workflows_exporter.Examples.Rows.{
  tools, two_servers, east, west, workflow_row, two_stats, two_clusters-value,
}

abbrev five_past : Datetime
five_past = record { year = 2024; month = 5; day = 1; hour = 10; minute = 5; second = 0 }

five_past-IsDatetime : IsDatetime five_past
unfolding days_in_month
five_past-IsDatetime = (
  omega arith,
  omega arith,
  omega arith,
  omega arith,
  omega arith,
  omega arith,
  omega arith,
  omega arith,
  omega arith,
)

abbrev pub variables : Dict String String
variables =
    ("CLUSTERS_JSON", "[east, west]")
    ∷ ("DEST_S3_ENDPOINT", " https://s3 ")
    ∷ ("DEST_S3_ACCESS_KEY_ID", "id")
    ∷ ("DEST_S3_SECRET_ACCESS_KEY", "key")
    ∷ ("DEST_S3_BUCKET", "bucket")
    ∷ ("DEST_S3_PREFIX", "/argo/")
    ∷ ("RUN_RETENTION_DAYS", "9_0")
    ∷ ("LOG_LEVEL", "WARN")
    ∷ []

abbrev pub environment : Environment
environment name = lookup name variables

abbrev pub decode : String → Result Value
decode s = ok (
    arr (
      of_items (
        obj (field "name" (text "east") end)
        ∷ obj (
            field "name" (text "west")
              (field "base_url" (text "https://west") (field "namespace" (text "ci") end)))
        ∷ [])))

abbrev pub no_file : String → Result String
no_file path = err os_error

abbrev pub settings : Settings
settings = record {
  clusters = east ∷ west ∷ [];
  namespace = "";
  dest = record {
    endpoint_url = "https://s3";
    access_key_id = "id";
    secret_access_key = "key";
    bucket = "bucket";
    addressing_style = "virtual";
    region = "us-east-1";
  };
  dest_prefix = "argo";
  version = "unknown";
  poll_interval_seconds = 300;
  run_retention_days = 90;
  http_timeout_seconds = 10;
  page_size = 500;
  health_port = 8080;
  log_level = "WARNING";
}

pub loads-settings : load (λ s. s) decode no_file environment ≡ ok settings
unfolding load required strip lookup parse_clusters items of_items parse_all parse_cluster get
    check_clusters load_endpoint s3_addressing_style optional read_version positive_int parse_int
    log_level normalize_s3_prefix
loads-settings = refl

load-IsLoaded_example : IsLoaded settings
load-IsLoaded_example = load-IsLoaded (λ s. s) decode no_file environment settings loads-settings

load-IsConfigError_example :
    Raises
      (IsExpected (λ s. err json_decode_error) (strip (text_of (environment "CLUSTERS_JSON"))))
      (load (λ s. s) (λ s. err json_decode_error) no_file environment)
load-IsConfigError_example =
    load-IsConfigError (λ s. s) (λ s. err json_decode_error) no_file environment (λ s. inl refl)
      (λ path. inl refl)

-- a cycle of that configuration
abbrev new_calls : Calls
new_calls = record (calls) { fetched = ok ((workflow_row ∷ []), two_stats) }

timed : IsTimed five_past new_calls
unfolding strftime full_match
timed = record {
  in_calendar = five_past-IsDatetime;
  four_digits = omega arith;
  is_now = refl;
  is_suffix = refl;
}

load-IsPublishable_example :
    IsPublishable
      (sidecar_of (cycle_config settings) new_calls (workflow_row ∷ []) two_stats (stored_row ∷ []))
load-IsPublishable_example =
    load-IsPublishable (λ s. s) decode no_file tools two_servers 1 environment settings five_past
      new_calls (workflow_row ∷ []) two_stats (stored_row ∷ []) loads-settings timed
      two_clusters-value

-- a table that cannot be made
abbrev no_table : Pyarrow
no_table = record (pyarrow) { from_workflow_rows = λ rows. err type_error }

no_generation :
    compute_generation plain_text oom_rules no_table dumps
      (cycle_config settings)
      new_calls
      (workflow_row ∷ [])
      two_stats
      []
    ≡ err type_error
unfolding compute_generation workflows_to_parquet_bytes merge merged_index index_rows
    fold_observations run_row lookup put sort insert
no_generation = rw cutoff-value refl

compute_generation-error_example :
    (merge plain_text oom_rules [] (workflow_row ∷ []) new_time 90 ≡ err type_error)
    ⊎ (workflows_to_parquet_bytes no_table (workflow_row ∷ []) (some (new_generation_id new_calls))
        ≡ err type_error)
    ⊎ ((merged : List RunRow) × (merge plain_text oom_rules [] (workflow_row ∷ []) new_time 90
          ≡ ok merged)
        × (runs_to_parquet_bytes no_table merged (some (new_generation_id new_calls))
            ≡ err type_error))
compute_generation-error_example =
    compute_generation-error (λ s. s) decode no_file tools two_servers 1 plain_text oom_rules
      no_table dumps environment settings five_past new_calls (workflow_row ∷ []) two_stats []
      type_error loads-settings timed two_clusters-value no_generation

-- the sidecar of that cycle
abbrev pub two_sidecar : Sidecar
two_sidecar =
    sidecar_of (cycle_config settings) new_calls (workflow_row ∷ []) two_stats (stored_row ∷ [])

pub two_sidecar-accepted : validate (sidecar_value two_sidecar) ≡ ok tt
two_sidecar-accepted = (validate-IsPublishable two_sidecar).1 (
    load-IsPublishable (λ s. s) decode no_file tools two_servers 1 environment settings five_past
      new_calls (workflow_row ∷ []) two_stats (stored_row ∷ []) loads-settings timed
      two_clusters-value)
