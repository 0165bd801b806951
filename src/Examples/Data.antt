-- ===== src/Examples/Data.antt =====
-- Concrete data: two generations, the rows of one cluster, and instances of the parameters.
use argo_workflows_exporter.Base.{
  suc, String, ◌≡◌, refl, true, Option, none, some, List, [], ◌∷◌, if◌then◌else◌,
}
use argo_workflows_exporter.Base.Text.{text_eq}
use argo_workflows_exporter.Base.Dict.{lookup, string_eq}
use argo_workflows_exporter.Base.Results.{Result, ok}
use argo_workflows_exporter.Json.{Value, null}
use argo_workflows_exporter.Taxonomy.{TextTools, Rule, Columns}
use argo_workflows_exporter.Rows.{SharedFields, WorkflowRow, RunRow}
use argo_workflows_exporter.Sidecar.{ClusterStat, Sidecar, sidecar_value}
use argo_workflows_exporter.Storage.{Bytes, body, Pyarrow, generation_id_key}
use argo_workflows_exporter.Cycle.{
  Store, Config, Calls, Generation, stored, new_generation_id, sidecar_of,
}

-- a taxonomy that finds nothing
abbrev pub plain_text : TextTools
plain_text = record {
  search = λ pattern text. text_eq pattern text;
  sub = λ pattern replacement text. text;
  lower = λ text. text;
  sha256 = λ text. text;
}

abbrev pub oom_rules : List Rule
oom_rules = ("oom", "OOMKilled" ∷ []) ∷ []

abbrev pub columns : Columns
columns = record { failure_fingerprint = none; failure_class = none }

abbrev pub fields : String → SharedFields
fields uid = record {
  uid = some uid;
  cluster = some "east";
  namespace = some "ci";
  name = some "build";
  template = none;
  template_scope = none;
  trigger_kind = none;
  trigger_name = none;
  phase = some "Succeeded";
  message = none;
  progress = none;
  created_at = none;
  started_at = none;
  finished_at = none;
  duration_seconds = none;
  resources_duration_cpu = none;
  resources_duration_memory = none;
  failed_step = null;
  failed_step_message = null;
  taxonomy = columns;
}

abbrev pub old_time : String
old_time = "2024-05-01T10:00:00Z"

abbrev pub new_time : String
new_time = "2024-05-01T10:05:00Z"

abbrev pub observed_row : WorkflowRow
observed_row = record { shared = fields "u1"; observed_at = some new_time }

abbrev pub stored_row : RunRow
stored_row = record {
  shared = fields "u1";
  first_seen_at = some old_time;
  last_seen_at = some old_time;
}

-- what the ledger makes of the two
abbrev pub merged_row : RunRow
merged_row = record (stored_row) { last_seen_at = some new_time }

abbrev pub stat : ClusterStat
stat = record { name = "east"; answered = true; workflows = 1 }

abbrev pub old_id : String
old_id = "2024-05-01T10:00:00Z-0123456789ab"

abbrev pub new_id : String
new_id = "2024-05-01T10:05:00Z-abcdefabcdef"

-- A file of one byte: 1 is the new generation's, 0 the old one's.
abbrev pub id_of : Bytes → Result String
id_of (suc n ∷ bs) = ok new_id
id_of _ = ok old_id

abbrev byte_of : Option String → Result Bytes
byte_of none = ok (0 ∷ [])
byte_of (some id) = if text_eq id new_id then ok (1 ∷ []) else ok (0 ∷ [])

abbrev pub pyarrow : Pyarrow
pyarrow = record {
  Table = Option String;
  from_workflow_rows = λ rows. ok none;
  from_run_rows = λ rows. ok none;
  replace_schema_metadata = λ table d. lookup generation_id_key d;
  write_table = byte_of;
  read_metadata = λ b. ok (some ((generation_id_key, b) ∷ []));
  read_run_rows = λ b. ok (stored_row ∷ []);
  decode = id_of;
}

abbrev pub config : Config
config = record {
  cluster_names = "east" ∷ [];
  dest_prefix = "argo";
  version = "1.0";
  poll_interval_seconds = 300;
  run_retention_days = 90;
}

abbrev pub calls : Calls
calls = record {
  generated_at = new_time;
  suffix = "abcdefabcdef";
  fetched = ok ((observed_row ∷ []), (stat ∷ []));
  runs_object = body (0 ∷ []);
  puts = stored ∷ stored ∷ stored ∷ [];
}

abbrev pub new_sidecar : Sidecar
new_sidecar = sidecar_of config calls (observed_row ∷ []) (stat ∷ []) (stored_row ∷ [])

abbrev pub old_sidecar : Sidecar
old_sidecar = record (new_sidecar) { generated_at = old_time; generation_id = old_id }

-- the marker of a generation
abbrev pub loads : Bytes → Result Value
loads (suc n ∷ bs) = ok (sidecar_value new_sidecar)
loads _ = ok (sidecar_value old_sidecar)

abbrev pub dumps : Value → Bytes
dumps v = 1 ∷ []

abbrev pub new_generation : Generation
new_generation = record {
  sidecar = new_sidecar;
  workflows_payload = 1 ∷ [];
  runs_payload = 1 ∷ [];
  meta_payload = 1 ∷ [];
}

-- the bucket with the old generation
abbrev pub old_store : Store
old_store key = some (0 ∷ [])

pub new_id-id : new_generation_id calls ≡ new_id
new_id-id = refl
