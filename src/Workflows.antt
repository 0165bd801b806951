-- ===== src/Workflows.antt =====
-- src/workflows.py: `_validate_workflow`. Its children hold the timestamps, the extraction of a row,
-- and the collection from the clusters. The message of a `MalformedWorkflowError` is left out.
pub mod Times
pub mod Extract
pub mod Failures
pub mod Row
pub mod Collect
use argo_workflows_exporter.Base.{
  String, Bool, true, false, not, ◌&&◌, Option, none, some, List, [], ◌∷◌, if◌then◌else◌,
}
use argo_workflows_exporter.Base.Text.{is_empty, is_blank}
use argo_workflows_exporter.Base.Dict.{Dict}
use argo_workflows_exporter.Base.Results.{Result, ok, err, malformed_workflow, ◌>>=◌, require}
use argo_workflows_exporter.Json.{
  Value, null, bool, text, obj, Fields, end, get, contains, entries, as_int, as_bool, is_some,
}

-- `_require_workflow_mapping`, and the mapping
abbrev pub require_mapping : Value → Result Fields
require_mapping (obj fs) = ok fs
require_mapping _ = err malformed_workflow

-- `_require_workflow_string` with `required=True`
abbrev pub require_string : Value → Result (Unit {0})
require_string (text s) = require (not (is_blank s)) malformed_workflow
require_string _ = err malformed_workflow

-- `_require_workflow_string` with `required=False`; a field that is not there passes as `null`
abbrev pub optional_string : Value → Result (Unit {0})
optional_string null = ok tt
optional_string (text s) = ok tt
optional_string _ = err malformed_workflow

abbrev pub each_field : (Value → Result (Unit {0})) → Fields → List String → Result (Unit {0})
each_field check fs [] = ok tt
each_field check fs (k ∷ ks) = do checked ← check (get k fs); each_field check fs ks

abbrev pub each_value : (Value → Result (Unit {0})) → Dict String Value → Result (Unit {0})
each_value check [] = ok tt
each_value check ((k, v) ∷ d) = do checked ← check v; each_value check d

-- a value that may be `None`, with a check of the mapping that it is otherwise
abbrev pub if_mapping : Value → (Fields → Result (Unit {0})) → Result (Unit {0})
if_mapping null check = ok tt
if_mapping v check = do fs ← require_mapping v; check fs

-- `field in d` requires the test
abbrev pub if_there : String → (Value → Bool) → Fields → Result (Unit {0})
if_there k test fs = if contains k fs then require (test (get k fs)) malformed_workflow else ok tt

abbrev pub check_labels : Fields → Result (Unit {0})
check_labels labels = each_value require_string (entries labels)

abbrev pub check_template_ref : Fields → Result (Unit {0})
check_template_ref ref = do
  named ← require_string (get "name" ref)
  if_there "clusterScope" (λ v. is_some (as_bool v)) ref

abbrev pub check_resources : Fields → Result (Unit {0})
check_resources resources = do
  cpu ← if_there "cpu" (λ v. is_some (as_int v)) resources
  if_there "memory" (λ v. is_some (as_int v)) resources

abbrev pub node_fields : List String
node_fields = "phase" ∷ "type" ∷ "displayName" ∷ "name" ∷ "startedAt" ∷ "message" ∷ []

abbrev pub check_node : Value → Result (Unit {0})
check_node node = do fs ← require_mapping node; each_field optional_string fs node_fields

abbrev pub check_nodes : Fields → Result (Unit {0})
check_nodes nodes = each_value check_node (entries nodes)

abbrev pub status_fields : List String
status_fields = "phase" ∷ "message" ∷ "progress" ∷ "startedAt" ∷ "finishedAt" ∷ []

abbrev pub check_status : Fields → Result (Unit {0})
check_status status = do
  texts ← each_field optional_string status status_fields
  resources ← if_mapping (get "resourcesDuration" status) check_resources
  if_mapping (get "nodes" status) check_nodes

abbrev pub identity_fields : List String
identity_fields = "uid" ∷ "name" ∷ "namespace" ∷ []

unfoldable pub validate_workflow : Value → Result (Unit {0})
validate_workflow wf = do
  fs ← require_mapping wf
  metadata ← require_mapping (get "metadata" fs)
  identified ← each_field require_string metadata identity_fields
  labels ← if_mapping (get "labels" metadata) check_labels
  spec ← require_mapping (get "spec" fs)
  ref ← if_mapping (get "workflowTemplateRef" spec) check_template_ref
  if_mapping (get "status" fs) check_status
