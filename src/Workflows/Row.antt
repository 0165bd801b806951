-- ===== src/Workflows/Row.antt =====
-- `to_row` of src/workflows.py. What it takes from other packages and from the failure taxonomy is
-- gathered in a record.
pub mod Identity
use argo_workflows_exporter.Base.{String, Option, none, some, List}
use argo_workflows_exporter.Base.Results.{Result, ok, err, ◌>>=◌}
use argo_workflows_exporter.Json.{Value, text, Fields, end, get, as_text, as_int}
use argo_workflows_exporter.Clock.Iso.{Stamp}
use argo_workflows_exporter.Taxonomy.{TextTools, Rule, failure_columns}
use argo_workflows_exporter.Rows.{WorkflowRow}
use argo_workflows_exporter.Workflows.{require_mapping, validate_workflow}
use argo_workflows_exporter.Workflows.Times.{normalize_timestamp, duration_seconds}
use argo_workflows_exporter.Workflows.Extract.{mapping_at, truthy_text, template_of, trigger_of}
use argo_workflows_exporter.Workflows.Failures.{failed_step}

pub record RowTools : Type 0 where
  -- `datetime.fromisoformat`, `none` where it raises `ValueError`
  pub fromisoformat : String → Option Stamp
  -- `json.loads(gzip.decompress(base64.b64decode(value, validate=True)))`
  pub inflate : String → Result Value
  pub text_tools : TextTools
  -- `_FAILURE_RULES`
  pub rules : List Rule

abbrev pub name_of : Option (String × String) → Option String
name_of none = none
name_of (some (name, kind)) = some name

abbrev pub trigger_kind_of : Option (String × String) → Option String
trigger_kind_of none = none
trigger_kind_of (some (kind, name)) = some kind

abbrev pub trigger_name_of : Option (String × String) → Option String
trigger_name_of none = none
trigger_name_of (some (kind, name)) = some name

abbrev pub template_scope_of : Option (String × String) → Option String
template_scope_of none = none
template_scope_of (some (name, scope)) = some scope

-- `status.get("phase") or "Pending"`
abbrev pub phase_or : Option String → String
phase_or none = "Pending"
phase_or (some s) = s

-- `meta.get(k, "")`, of a text that is there
abbrev pub text_or_empty : Option String → String
text_or_empty none = ""
text_or_empty (some s) = s

module _ (R : RowTools) where
  -- the row of a workflow that has been validated
  unfoldable pub row_of : Fields → String → String → Result WorkflowRow
  row_of wf cluster_name observed_at = do
    let meta = mapping_at "metadata" wf
    let status = mapping_at "status" wf
    let resources = mapping_at "resourcesDuration" status
    (step_name, step_message) ← failed_step R.fromisoformat R.inflate wf
    created_at ← normalize_timestamp R.fromisoformat (get "creationTimestamp" meta)
    started_at ← normalize_timestamp R.fromisoformat (get "startedAt" status)
    finished_at ← normalize_timestamp R.fromisoformat (get "finishedAt" status)
    duration ← duration_seconds R.fromisoformat (get "startedAt" status) (get "finishedAt" status)
    ok (record {
      shared = record {
        uid = some (text_or_empty (as_text (get "uid" meta)));
        cluster = some cluster_name;
        namespace = some (text_or_empty (as_text (get "namespace" meta)));
        name = some (text_or_empty (as_text (get "name" meta)));
        template = name_of (template_of wf);
        template_scope = template_scope_of (template_of wf);
        trigger_kind = trigger_kind_of (trigger_of wf);
        trigger_name = trigger_name_of (trigger_of wf);
        phase = some (phase_or (truthy_text (get "phase" status)));
        message = as_text (get "message" status);
        progress = as_text (get "progress" status);
        created_at = created_at;
        started_at = started_at;
        finished_at = finished_at;
        duration_seconds = duration;
        resources_duration_cpu = as_int (get "cpu" resources);
        resources_duration_memory = as_int (get "memory" resources);
        failed_step = step_name;
        failed_step_message = step_message;
        taxonomy = failure_columns R.text_tools R.rules step_message (get "message" status);
      };
      observed_at = some observed_at;
    })

  unfoldable pub to_row : Value → String → String → Result WorkflowRow
  to_row wf cluster_name observed_at = do
    valid ← validate_workflow wf
    fs ← require_mapping wf
    row_of fs cluster_name observed_at
