-- ===== src/Workflows/Collect.antt =====
-- `fetch_workflows` of src/workflows.py: the listing of each cluster, its conversion, and what the
-- cycle is told of it.
pub mod Accounts
pub mod Bounded
pub mod Aborted
use argo_workflows_exporter.Base.{
  ℕ, String, Bool, true, false, Option, none, some, List, [], ◌∷◌, ◌++◌,
}
use argo_workflows_exporter.Base.Lists.{length}
use argo_workflows_exporter.Base.Results.{Result, ok, err, Error, response_error, ◌>>=◌}
use argo_workflows_exporter.Json.{Value}
use argo_workflows_exporter.Rows.{WorkflowRow}
use argo_workflows_exporter.Sidecar.{ClusterStat}
use argo_workflows_exporter.Kubernetes.{HttpOutcome, list_path, list_items}
use argo_workflows_exporter.Workflows.{validate_workflow}
use argo_workflows_exporter.Workflows.Row.{RowTools, to_row}

-- `Cluster` of src/config.py
pub record Cluster : Type 0 where
  pub name : String
  pub base_url : Option String
  pub namespace : Option String

-- `cluster.namespace if cluster.namespace is not None else default_namespace`
abbrev pub namespace_or : Option String → String → String
namespace_or none default_namespace = default_namespace
namespace_or (some namespace) default_namespace = namespace

-- the entries that are appended to `stats`
abbrev pub failed_stat : String → ClusterStat
failed_stat name = record { name = name; answered = false; workflows = 0 }

abbrev pub ok_stat : String → List WorkflowRow → ClusterStat
ok_stat name cluster_rows = record { name = name; answered = true; workflows = length cluster_rows }

abbrev pub Part : Type 0
Part = List WorkflowRow × ClusterStat

module _ (R : RowTools) where
  -- the loop over the items of a cluster
  unfoldable pub convert : String → String → List Value → Result (List WorkflowRow)
  convert cluster_name observed_at [] = ok []
  convert cluster_name observed_at (wf ∷ items) = do
    valid ← validate_workflow wf
    row ← to_row R wf cluster_name observed_at
    rows ← convert cluster_name observed_at items
    ok (row ∷ rows)

-- the handlers of the conversion: every exception discards the cluster
unfoldable pub part_of_rows : String → Result (List WorkflowRow) → Part
part_of_rows name (err e) = ([], failed_stat name)
part_of_rows name (ok cluster_rows) = (cluster_rows, ok_stat name cluster_rows)

-- the handler of the listing
abbrev is_response_error : Error → Bool
is_response_error response_error = true
is_response_error _ = false

abbrev pub part_of_error : Bool → String → Error → Result Part
part_of_error true name e = ok ([], failed_stat name)
part_of_error false name e = err e

module _ (R : RowTools) where
  -- one turn of the loop over the clusters, from what `list_items` comes to
  unfoldable pub part_of_listing : String → String → Result (List Value × Bool) → Result Part
  part_of_listing name observed_at (err e) = part_of_error (is_response_error e) name e
  part_of_listing name observed_at (ok (items, false)) = ok ([], failed_stat name)
  part_of_listing name observed_at (ok (items, true)) =
      ok (part_of_rows name (convert R name observed_at items))

abbrev pub with_part :
    Part → List WorkflowRow × List ClusterStat → List WorkflowRow × List ClusterStat
with_part (cluster_rows, stat) (rows, stats) = (cluster_rows ++ rows, stat ∷ stats)

-- a listing that goes on for ever is `none`
abbrev pub finished {ℓ κ} : {A : Type ℓ} {B : Type κ} → Option A → (A → Option B) → Option B
finished none f = none
finished (some a) f = f a

-- the rest of the loop, behind a turn that may raise
abbrev pub with_rest :
    Result Part
    → Option (Result (List WorkflowRow × List ClusterStat))
    → Option (Result (List WorkflowRow × List ClusterStat))
with_rest (err e) rest = some (err e)
with_rest (ok part) rest =
    finished rest (λ others. some (do collected ← others; ok (with_part part collected)))

module _ (request : Cluster → String → ℕ → Option String → HttpOutcome) (fuel : ℕ)
    (default_namespace : String) where
  unfoldable pub list_cluster : Cluster → Option (Result (List Value × Bool))
  list_cluster cluster =
      list_items
        (request cluster (list_path (namespace_or cluster.namespace default_namespace) "workflows"))
        fuel

module _ (R : RowTools) (request : Cluster → String → ℕ → Option String → HttpOutcome) (fuel : ℕ)
    (default_namespace observed_at : String) where
  -- `fetch_workflows`, with at most `fuel` requests for each cluster
  unfoldable pub fetch_workflows :
      List Cluster → Option (Result (List WorkflowRow × List ClusterStat))
  fetch_workflows [] = some (ok ([], []))
  fetch_workflows (cluster ∷ clusters) =
      finished (list_cluster request fuel default_namespace cluster) (λ listing.
        with_rest (part_of_listing R cluster.name observed_at listing) (fetch_workflows clusters))
