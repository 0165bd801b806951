-- ===== src/Workflows/Extract.antt =====
-- `template_of` and `trigger_of` of src/workflows.py, of a workflow that `_validate_workflow` has let
-- through: a field that holds a mapping holds one or is null.
use argo_workflows_exporter.Base.{String, Bool, false, Option, none, some, if◌then◌else◌}
use argo_workflows_exporter.Base.Text.{is_empty, is_blank}
use argo_workflows_exporter.Json.{Value, text, Fields, end, get, as_obj, as_bool}

-- `d.get(k) or {}`
abbrev pub or_end : Option Fields → Fields
or_end none = end
or_end (some fs) = fs

abbrev pub mapping_at : String → Fields → Fields
mapping_at k fs = or_end (as_obj (get k fs))

-- a text that is not empty
abbrev pub truthy_text : Value → Option String
truthy_text (text s) = if is_empty s then none else some s
truthy_text _ = none

-- a text with a character that is no space
abbrev pub solid_text : Value → Option String
solid_text (text s) = if is_blank s then none else some s
solid_text _ = none

abbrev pub label_template : String
label_template = "workflows.argoproj.io/workflow-template"

abbrev pub label_cluster_template : String
label_cluster_template = "workflows.argoproj.io/cluster-workflow-template"

abbrev pub label_cron : String
label_cron = "workflows.argoproj.io/cron-workflow"

abbrev pub label_creator : String
label_creator = "workflows.argoproj.io/creator"

abbrev pub label_sensor : String
label_sensor = "events.argoproj.io/sensor"

abbrev pub label_trigger : String
label_trigger = "events.argoproj.io/trigger"

-- `(wf.get("metadata") or {}).get("labels") or {}`
abbrev pub labels_of : Fields → Fields
labels_of wf = mapping_at "labels" (mapping_at "metadata" wf)

abbrev pub template_ref_of : Fields → Fields
template_ref_of wf = mapping_at "workflowTemplateRef" (mapping_at "spec" wf)

abbrev is_true : Option Bool → Bool
is_true none = false
is_true (some b) = b

abbrev pub scope_of : Fields → String
scope_of ref = if is_true (as_bool (get "clusterScope" ref)) then "cluster" else "namespaced"

-- the two label sources, in their order
abbrev pub template_by_label : Option String → Option String → Option (String × String)
template_by_label (some name) namespaced = some (name, "cluster")
template_by_label none (some name) = some (name, "namespaced")
template_by_label none none = none

abbrev pub template_by_ref :
    Option String → String → Option (String × String) → Option (String × String)
template_by_ref (some name) scope by_label = some (name, scope)
template_by_ref none scope by_label = by_label

-- `template_of`; `none` is `(None, None)`
unfoldable pub template_of : Fields → Option (String × String)
template_of wf =
    template_by_ref (truthy_text (get "name" (template_ref_of wf))) (scope_of (template_ref_of wf))
      (template_by_label (truthy_text (get label_cluster_template (labels_of wf)))
        (truthy_text (get label_template (labels_of wf))))

abbrev or_text : Option String → String → String
or_text none s = s
or_text (some t) s = t

-- the three sources, in their order
abbrev pub trigger_by :
    Option String → Option String → Option String → Option String → Option (String × String)
trigger_by (some cron) sensor trigger creator = some ("cron", cron)
trigger_by none (some sensor) trigger creator = some ("event", or_text trigger sensor)
trigger_by none none trigger (some creator) = some ("user", creator)
trigger_by none none trigger none = none

-- `trigger_of`; `none` is `(None, None)`
unfoldable pub trigger_of : Fields → Option (String × String)
trigger_of wf =
    trigger_by (solid_text (get label_cron (labels_of wf)))
      (solid_text (get label_sensor (labels_of wf))) (solid_text (get label_trigger (labels_of wf)))
      (solid_text (get label_creator (labels_of wf)))
