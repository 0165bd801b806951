-- ===== src/Config.antt =====
-- src/config.py. `Settings` is its `Config`; an environment says what each variable holds.
pub mod Integers
pub mod Clusters
pub mod Loaded
pub mod Raises
use argo_workflows_exporter.Base.{
  ℕ, suc, String, Bool, true, false, Option, none, some, List, [], ◌∷◌, if◌then◌else◌,
}
use argo_workflows_exporter.Base.Text.{strip, is_empty, text_eq}
use argo_workflows_exporter.Base.Int.{ℤ, pos, negsuc}
use argo_workflows_exporter.Base.Dict.{Dict, lookup, string_eq}
use argo_workflows_exporter.Base.Lists.{any}
use argo_workflows_exporter.Base.Results.{
  Result, ok, err, Error, os_error, decode_error, config_error, ◌>>=◌, require,
}
use argo_workflows_exporter.Json.{Value}
use argo_workflows_exporter.Storage.{normalize_s3_prefix}
use argo_workflows_exporter.Workflows.Collect.{Cluster}
use argo_workflows_exporter.Config.Integers.{parse_int}
use argo_workflows_exporter.Config.Clusters.{parse_clusters}

-- `os.environ.get`
abbrev pub Environment : Type 0
Environment = String → Option String

abbrev pub text_of : Option String → String
text_of none = ""
text_of (some s) = s

-- `_require`
unfoldable pub required : Environment → String → Result String
required env name =
    let value = strip (text_of (env name)) in if is_empty value then err config_error else ok value

-- `_optional`
unfoldable pub optional : Environment → String → String → String
optional env name default =
    let value = strip (text_of (env name)) in if is_empty value then default else value

abbrev pub positive : Option ℤ → Result ℕ
positive none = err config_error
positive (some (pos (suc n))) = ok (suc n)
positive (some _) = err config_error

-- `_positive_int`
unfoldable pub positive_int : Environment → String → String → Result ℕ
positive_int env name default = positive (parse_int (optional env name default))

-- `_LOG_LEVEL_ALIASES`
abbrev pub log_level_aliases : Dict String String
log_level_aliases =
    ("CRITICAL", "CRITICAL")
    ∷ ("ERROR", "ERROR")
    ∷ ("FATAL", "CRITICAL")
    ∷ ("WARN", "WARNING")
    ∷ ("WARNING", "WARNING")
    ∷ ("INFO", "INFO")
    ∷ ("DEBUG", "DEBUG")
    ∷ ("NOTSET", "NOTSET")
    ∷ []

abbrev or_config_error {ℓ} : {A : Type ℓ} → Option A → Result A
or_config_error none = err config_error
or_config_error (some a) = ok a

-- `_log_level`; `upper` is `str.upper`
unfoldable pub log_level : (String → String) → Environment → Result String
log_level upper env =
    or_config_error (lookup (upper (optional env "LOG_LEVEL" "INFO")) log_level_aliases)

-- `_S3_ADDRESSING_STYLES`
abbrev pub s3_addressing_styles : List String
s3_addressing_styles = "auto" ∷ "virtual" ∷ "path" ∷ []

-- `_s3_addressing_style`
unfoldable pub s3_addressing_style : Environment → Result String
s3_addressing_style env =
    let raw = optional env "DEST_S3_ADDRESSING_STYLE" "virtual" in
    if any (text_eq raw) s3_addressing_styles then ok raw else err config_error

abbrev or_unknown : String → String
or_unknown s = if is_empty s then "unknown" else s

-- `OSError` and `UnicodeError`
abbrev is_unreadable : Error → Bool
is_unreadable os_error = true
is_unreadable decode_error = true
is_unreadable _ = false

-- `_read_version`, from what the reading of the file comes to
unfoldable pub read_version : Result String → Result String
read_version (ok version) = ok (or_unknown (strip version))
read_version (err e) = if is_unreadable e then ok "unknown" else err e

pub record S3Endpoint : Type 0 where
  pub endpoint_url : String
  pub access_key_id : String
  pub secret_access_key : String
  pub bucket : String
  pub addressing_style : String
  pub region : String

pub record Settings : Type 0 where
  pub clusters : List Cluster
  pub namespace : String
  pub dest : S3Endpoint
  pub dest_prefix : String
  pub version : String
  pub poll_interval_seconds : ℕ
  pub run_retention_days : ℕ
  pub http_timeout_seconds : ℕ
  pub page_size : ℕ
  pub health_port : ℕ
  pub log_level : String

abbrev prefix_or : Option String → String
prefix_or none = "argo/data"
prefix_or (some prefix) = prefix

unfoldable pub load_endpoint : Environment → Result S3Endpoint
load_endpoint env = do
  endpoint_url ← required env "DEST_S3_ENDPOINT"
  access_key_id ← required env "DEST_S3_ACCESS_KEY_ID"
  secret_access_key ← required env "DEST_S3_SECRET_ACCESS_KEY"
  bucket ← required env "DEST_S3_BUCKET"
  addressing_style ← s3_addressing_style env
  ok (record {
    endpoint_url = endpoint_url;
    access_key_id = access_key_id;
    secret_access_key = secret_access_key;
    bucket = bucket;
    addressing_style = addressing_style;
    region = optional env "DEST_S3_REGION" "us-east-1";
  })

module _ (upper : String → String) (loads : String → Result Value)
    (read_file : String → Result String) where
  -- `load`
  unfoldable pub load : Environment → Result Settings
  load env = do
    raw ← required env "CLUSTERS_JSON"
    clusters ← parse_clusters loads raw
    dest ← load_endpoint env
    version ← read_version (read_file (optional env "VERSION_FILE" "VERSION"))
    poll_interval_seconds ← positive_int env "POLL_INTERVAL_SECONDS" "300"
    run_retention_days ← positive_int env "RUN_RETENTION_DAYS" "7"
    http_timeout_seconds ← positive_int env "HTTP_TIMEOUT_SECONDS" "10"
    page_size ← positive_int env "LIST_PAGE_SIZE" "500"
    health_port ← positive_int env "HEALTH_PORT" "8080"
    level ← log_level upper env
    ok (record {
      clusters = clusters;
      namespace = optional env "WORKFLOW_NAMESPACE" "";
      dest = dest;
      dest_prefix = normalize_s3_prefix (prefix_or (env "DEST_S3_PREFIX"));
      version = version;
      poll_interval_seconds = poll_interval_seconds;
      run_retention_days = run_retention_days;
      http_timeout_seconds = http_timeout_seconds;
      page_size = page_size;
      health_port = health_port;
      log_level = level;
    })
