-- ===== src/Workflows/Collect/Bounded.antt =====
-- The collection of src/workflows.py ends where the listings of the clusters do.
use argo_workflows_exporter.Base.{ℕ, suc, String, ◌≡◌, refl, Option, some, List, [], ◌∷◌}
use argo_workflows_exporter.Base.Lists.{length}
use argo_workflows_exporter.Base.Results.{Result, ok, err}
use argo_workflows_exporter.Kubernetes.{HttpOutcome, list_path}
use argo_workflows_exporter.Kubernetes.Bounded.{IssuesOnly, list_items-returns}
use argo_workflows_exporter.Workflows.Row.{RowTools}
use argo_workflows_exporter.Workflows.Collect.{
  Cluster, Part, namespace_or, part_of_listing, with_rest, list_cluster, fetch_workflows,
}
use argo_workflows_exporter.Workflows.Collect.Accounts.{Collected}

with_rest-returns :
    (o : Result Part) (rest : Option (Result Collected)) (r : Result Collected)
    → rest ≡ some r
    → (c : Result Collected) × (with_rest o rest ≡ some c)
with_rest-returns (err e) rest r h = (err e, refl)
with_rest-returns (ok part) rest r h = rw h (_, refl)

module _ (R : RowTools) (request : Cluster → String → ℕ → Option String → HttpOutcome)
    (tokens : List String) (default_namespace observed_at : String)
    (issues : (cluster : Cluster) (path : String) → IssuesOnly (request cluster path) tokens) where
  -- Let the tokens of the pages of all clusters stand in one list. Then the collection returns or
  -- raises, whatever the servers answer, with one request for each cluster more than the list has
  -- tokens.
  pub fetch_workflows-returns :
      (clusters : List Cluster)
      → (c : Result Collected) × (fetch_workflows R request
            (suc (length tokens))
            default_namespace
            observed_at
            clusters
          ≡ some c)
  unfolding fetch_workflows list_cluster
  fetch_workflows-returns [] = (ok ([], []), refl)
  fetch_workflows-returns (cluster ∷ clusters) =
      let path = list_path (namespace_or cluster.namespace default_namespace) "workflows" in
      let (listing, l) = list_items-returns (request cluster path) tokens (issues cluster path) in
      let (rest, e) = fetch_workflows-returns clusters in
      rw l (with_rest-returns (part_of_listing R cluster.name observed_at listing) _ rest e)
