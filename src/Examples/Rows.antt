-- ===== src/Examples/Rows.antt =====
-- The theorems on src/workflows.py, on a workflow with two failed pods that one cluster lists.
use argo_workflows_exporter.Json.{items, get, Value, Fields, obj, arr, text, field, end, of_items}
use argo_workflows_exporter.Kubernetes.{
  fetch_json, read_page, turn_on, turn_of_page, turn, list_pages, list_items, HttpOutcome, response,
}
use argo_workflows_exporter.Workflows.Collect.{
  convert, part_of_rows, part_of_listing, list_cluster, Cluster, fetch_workflows,
}
use argo_workflows_exporter.Base.Text.{strip, is_blank, text_eq}
use argo_workflows_exporter.Taxonomy.{
  usable_message, normalize_with, normalize_usable, normalize_failure, first_match, class_of_usable,
  failure_class, failure_columns,
}
use argo_workflows_exporter.Clock.Iso.{seconds_between, print_utc, to_utc, Stamp, aware}
use argo_workflows_exporter.Workflows.Extract.{trigger_of, template_of}
use argo_workflows_exporter.Workflows.Times.{duration_seconds, normalize_timestamp, parse_ts}
use argo_workflows_exporter.Workflows.Row.{row_of, RowTools, to_row}
use argo_workflows_exporter.Workflows.{validate_workflow}
use argo_workflows_exporter.Workflows.Failures.{
  least, selection_key, with_keys, failures_of, failed_step,
}
use argo_workflows_exporter.Base.{
  ℕ, String, ◌≡◌, refl, true, false, Option, none, some, List, [], ◌∷◌, if◌then◌else◌,
}
use argo_workflows_exporter.Base.Int.{pos}
use argo_workflows_exporter.Base.Results.{ok, err, value_error}
use argo_workflows_exporter.Rows.{WorkflowRow}
use argo_workflows_exporter.Sidecar.{ClusterStat}
use argo_workflows_exporter.Workflows.Failures.First.{IsStep, failed_step-IsFirst}
use argo_workflows_exporter.Workflows.Extract.{mapping_at}
use argo_workflows_exporter.Workflows.Failures.{Nodes, nodes_or}
use argo_workflows_exporter.Workflows.Row.Identity.{IsIdentified, to_row-IsIdentified}
use argo_workflows_exporter.Workflows.Collect.Accounts.{IsCollected, fetch_workflows-IsCollected}
use argo_workflows_exporter.Examples.Data.{plain_text, oom_rules, new_time}

abbrev iso : String → Option Stamp
iso s =
    if text_eq s "2024-05-01T10:00:00+00:00"
    then some (aware 63850154400000000 (pos 0))
    else if text_eq s "2024-05-01T12:01:00+02:00"
    then some (aware 63850161660000000 (pos 7200000000))
    else none

abbrev pub tools : RowTools
tools = record {
  fromisoformat = iso;
  inflate = λ s. err value_error;
  text_tools = plain_text;
  rules = oom_rules;
}

abbrev pod : String → String → Value
pod name started_at = obj (
    field "type" (text "Pod") (
      field "phase" (text "Failed") (
        field "displayName" (text name)
          (field "startedAt" (text started_at) (field "message" (text "OOMKilled") end)))))

abbrev pods : Value
pods = obj (
    field "n2" (pod "test" "2024-05-01T12:01:00+02:00")
      (field "n1" (pod "compile" "2024-05-01T10:00:00Z") end))

abbrev metadata : Value
metadata =
    obj (field "uid" (text "u1") (field "name" (text "build") (field "namespace" (text "ci") end)))

abbrev status : Value
status = obj (
    field "phase" (text "Failed") (
      field "startedAt" (text "2024-05-01T10:00:00Z")
        (field "finishedAt" (text "2024-05-01T12:01:00+02:00") (field "nodes" pods end))))

abbrev pub failed_workflow : Fields
failed_workflow = field "metadata" metadata (field "spec" (obj end) (field "status" status end))

first_step :
    failed_step iso (λ s. err value_error) failed_workflow ≡ ok (text "compile", text "OOMKilled")
unfolding failed_step failures_of get with_keys selection_key parse_ts to_utc least
first_step = refl

-- the row of the workflow
abbrev pub workflow_row : WorkflowRow
workflow_row = record {
  shared = record {
    uid = some "u1";
    cluster = some "east";
    namespace = some "ci";
    name = some "build";
    template = none;
    template_scope = none;
    trigger_kind = none;
    trigger_name = none;
    phase = some "Failed";
    message = none;
    progress = none;
    created_at = none;
    started_at = some "2024-05-01T10:00:00Z";
    finished_at = some "2024-05-01T10:01:00Z";
    duration_seconds = some (pos 60);
    resources_duration_cpu = none;
    resources_duration_memory = none;
    failed_step = text "compile";
    failed_step_message = text "OOMKilled";
    taxonomy = record { failure_fingerprint = some "OOMKilled"; failure_class = some "oom" };
  };
  observed_at = some new_time;
}

pub row-value : to_row tools (obj failed_workflow) "east" new_time ≡ ok workflow_row
unfolding to_row validate_workflow get is_blank row_of failed_step failures_of with_keys
    selection_key least parse_ts to_utc normalize_timestamp duration_seconds template_of trigger_of
    print_utc seconds_between failure_columns failure_class class_of_usable first_match
    normalize_failure normalize_usable normalize_with usable_message strip
row-value = refl

failed_step-IsFirst_example :
    (nodes : Nodes) × (nodes_or
        (λ s. err value_error)
        (get "nodes" (mapping_at "status" failed_workflow))
        (get "compressedNodes" (mapping_at "status" failed_workflow))
      ≡ ok nodes)
    × IsStep iso nodes (text "compile") (text "OOMKilled")
failed_step-IsFirst_example =
    failed_step-IsFirst iso (λ s. err value_error) failed_workflow (text "compile")
      (text "OOMKilled") first_step

to_row-IsIdentified_example : IsIdentified (obj failed_workflow) "east" new_time workflow_row
to_row-IsIdentified_example =
    to_row-IsIdentified tools (obj failed_workflow) "east" new_time workflow_row row-value

abbrev pub east : Cluster
east = record { name = "east"; base_url = none; namespace = none }

abbrev pub west : Cluster
west = record { name = "west"; base_url = some "https://west"; namespace = some "ci" }

-- the first cluster lists the workflow, the second one does not answer
abbrev pub two_servers : Cluster → String → ℕ → Option String → HttpOutcome
two_servers cluster path i token =
    if text_eq cluster.name "east"
    then response 200 (
        some (
          obj (
            field "items" (arr (of_items (obj failed_workflow ∷ [])))
              (field "metadata" (obj end) end))))
    else response 503 none

abbrev pub two_stats : List ClusterStat
two_stats =
    (record { name = "east"; answered = true; workflows = 1 })
    ∷ (record { name = "west"; answered = false; workflows = 0 })
    ∷ []

pub two_clusters-value :
    fetch_workflows tools two_servers 1 "" new_time (east ∷ west ∷ [])
    ≡ some (ok ((workflow_row ∷ []), two_stats))
unfolding fetch_workflows list_cluster part_of_listing part_of_rows convert validate_workflow get
    is_blank list_items list_pages turn turn_of_page turn_on read_page fetch_json items of_items
two_clusters-value = rw row-value refl

fetch_workflows-IsCollected_example :
    IsCollected tools two_servers 1 "" new_time (east ∷ west ∷ []) ((workflow_row ∷ []), two_stats)
fetch_workflows-IsCollected_example =
    fetch_workflows-IsCollected tools two_servers 1 "" new_time (east ∷ west ∷ [])
      ((workflow_row ∷ []), two_stats) two_clusters-value
