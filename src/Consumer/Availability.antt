-- ===== src/Consumer/Availability.antt =====
-- `cluster_availability` and `current_snapshot_rows` of src/consumer.py. `read_rows` stands for the
-- rows of `conform(pq.read_table(…), WORKFLOWS_SCHEMA)`.
pub mod Snapshot
use argo_workflows_exporter.Base.{
  String, Bool, true, false, not, Option, none, some, List, [], ◌∷◌, if◌then◌else◌,
}
use argo_workflows_exporter.Base.Text.{is_empty}
use argo_workflows_exporter.Base.Dict.{Dict, lookup, has, put, string_eq}
use argo_workflows_exporter.Base.Lists.{keep}
use argo_workflows_exporter.Base.Results.{Result, ok, err, value_error, ◌>>=◌, require}
use argo_workflows_exporter.Json.{Value, get, contains, as_obj, as_arr, as_text, as_bool}
use argo_workflows_exporter.Rows.{WorkflowRow}
use argo_workflows_exporter.Storage.{Bytes}
use argo_workflows_exporter.Consumer.{Publication}

-- an `isinstance` test that raises `ValueError`
abbrev pub expected {ℓ} : {A : Type ℓ} → Option A → Result A
expected none = err value_error
expected (some a) = ok a

abbrev pub named : Option String → Result String
named none = err value_error
named (some s) = if is_empty s then err value_error else ok s

-- the loop over the clusters
unfoldable pub add_clusters : List Value → Dict String Bool → Result (Dict String Bool)
add_clusters [] availability = ok availability
add_clusters (cluster ∷ clusters) availability = do
  fs ← expected (as_obj cluster)
  name ← named (as_text (get "name" fs))
  answered ← expected (as_bool (get "ok" fs))
  new ← require (not (has name availability)) value_error
  add_clusters clusters (put name answered availability)

-- `cluster_availability`, from the sidecar
unfoldable pub cluster_availability : Value → Result (Dict String Bool)
cluster_availability meta = do
  fs ← expected (as_obj meta)
  clusters ← expected (as_arr (get "clusters" fs))
  add_clusters clusters []

abbrev pub is_true : Option Bool → Bool
is_true none = false
is_true (some b) = b

-- `row.get("cluster") in available_clusters`
abbrev pub is_available : Dict String Bool → Option String → Bool
is_available availability none = false
is_available availability (some name) = is_true (lookup name availability)

-- `isinstance(meta, Mapping)` and `"clusters" in meta`
abbrev pub has_clusters : Value → Bool
has_clusters meta = elim (as_obj meta) [ none ↦ false | some fs ↦ contains "clusters" fs ]

abbrev pub of_available : Dict String Bool → List WorkflowRow → List WorkflowRow
of_available availability rows = keep (λ row. is_available availability row.shared.cluster) rows

abbrev pub snapshot_with : Bool → Value → List WorkflowRow → Result (List WorkflowRow)
snapshot_with false meta rows = ok rows
snapshot_with true meta rows = do
  availability ← cluster_availability meta
  ok (of_available availability rows)

module _ (read_rows : Bytes → Result (List WorkflowRow)) where
  -- `_rows(publication, "workflows", WORKFLOWS_SCHEMA)`
  unfoldable pub snapshot_table : Option Bytes → Result (List WorkflowRow)
  snapshot_table none = ok []
  snapshot_table (some b) = read_rows b

  unfoldable pub current_snapshot_rows : Publication → Result (List WorkflowRow)
  current_snapshot_rows p = do
    rows ← snapshot_table p.workflows
    snapshot_with (has_clusters p.meta) p.meta rows
