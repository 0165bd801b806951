-- ===== src/Sidecar.antt =====
-- meta.json as `_run_cycle` of src/main.py builds it, and the entries of `cluster_stats`.
use argo_workflows_exporter.Base.{ℕ, ◌+◌, String, Bool, List, [], ◌∷◌, map, if◌then◌else◌}
use argo_workflows_exporter.Base.Int.{pos}
use argo_workflows_exporter.Json.{Value, Fields, field, end, of_items}

-- an entry of `stats` in `fetch_workflows`
pub record ClusterStat : Type 0 where
  pub name : String
  pub answered : Bool
  pub workflows : ℕ

pub record Sidecar : Type 0 where
  pub version : String
  pub generated_at : String
  pub generation_id : String
  pub poll_interval_seconds : ℕ
  pub run_retention_days : ℕ
  pub clusters : List ClusterStat
  pub workflows : ℕ
  pub runs : ℕ

abbrev pub stat_value : ClusterStat → Value
stat_value c = Value.obj (
    field "name" (Value.text c.name)
      (field "ok" (Value.bool c.answered) (field "workflows" (Value.int (pos c.workflows)) end)))

abbrev pub sidecar_fields : Sidecar → Fields
sidecar_fields s = field "version" (Value.text s.version) (
    field "generated_at" (Value.text s.generated_at) (
      field "generation_id" (Value.text s.generation_id) (
        field "poll_interval_seconds" (Value.int (pos s.poll_interval_seconds)) (
          field "run_retention_days" (Value.int (pos s.run_retention_days)) (
            field "clusters" (Value.arr (of_items (map stat_value s.clusters))) (
              field "workflows" (Value.int (pos s.workflows))
                (field "runs" (Value.int (pos s.runs)) end)))))))

-- the dict `meta`
abbrev pub sidecar_value : Sidecar → Value
sidecar_value s = Value.obj (sidecar_fields s)

abbrev pub stat_names : List ClusterStat → List String
stat_names = map (λ c. c.name)

-- the rows that the clusters with an answer account for
abbrev pub included_rows : List ClusterStat → ℕ
included_rows [] = 0
included_rows (c ∷ cs) = (if c.answered then c.workflows else 0) + included_rows cs
