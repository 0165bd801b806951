-- ===== src/Cycle/Accepted.antt =====
-- The sidecar of a cycle whose configuration was loaded and whose listing was collected.
use Prim.Native.String
use argo_workflows_exporter.Base.{
  ℕ, ◌≤◌, String, ◌≡◌, ◌≢◌, ◌⊎◌, inl, inr, refl, sym, ap, subst, Option, true, some, List, [], ◌∷◌,
  map, arith,
}
use argo_workflows_exporter.Base.Lists.{All, IsPairwise, length}
use argo_workflows_exporter.Base.Results.{Result, ok, err, Error, bind-eq-err}
use argo_workflows_exporter.Json.{Value}
use argo_workflows_exporter.Clock.{Datetime, IsDatetime, strftime, strptime}
use argo_workflows_exporter.Clock.RoundTrip.{strptime-strftime}
use argo_workflows_exporter.Rows.{WorkflowRow, RunRow}
use argo_workflows_exporter.Sidecar.{ClusterStat, stat_names}
use argo_workflows_exporter.Storage.{
  Bytes, Pyarrow, workflows_to_parquet_bytes, runs_to_parquet_bytes,
}
use argo_workflows_exporter.Taxonomy.{TextTools, Rule}
use argo_workflows_exporter.Ledger.{merge}
use argo_workflows_exporter.Kubernetes.{HttpOutcome}
use argo_workflows_exporter.MetaSchema.Schema.{char_count, matches, generation_id, full_match}
use argo_workflows_exporter.MetaSchema.Contract.Publishable.{IsPublishable, validate-IsPublishable}
use argo_workflows_exporter.MetaSchema.Contract.Ids.{hex_classes, id-matches}
use argo_workflows_exporter.Workflows.Row.{RowTools}
use argo_workflows_exporter.Workflows.Collect.{Cluster, fetch_workflows}
use argo_workflows_exporter.Workflows.Collect.Accounts.{
  AddsUp, fetch_workflows-IsCollected, IsCollected-AddsUp,
}
use argo_workflows_exporter.Config.{Environment, Settings, load}
use argo_workflows_exporter.Config.Loaded.{IsLoaded, load-IsLoaded}
use argo_workflows_exporter.Cycle.{Config, Calls, new_generation_id, sidecar_of, compute_generation}
use argo_workflows_exporter.Cycle.Fresh.{id-extends}

-- `_cluster_names`
abbrev pub cluster_names : List Cluster → List String
cluster_names = map (λ c. c.name)

-- the part of the configuration that a cycle reads
abbrev pub cycle_config : Settings → Config
cycle_config s = record {
  cluster_names = cluster_names s.clusters;
  dest_prefix = s.dest_prefix;
  version = s.version;
  poll_interval_seconds = s.poll_interval_seconds;
  run_retention_days = s.run_retention_days;
}

All-map :
    {A B : Type 0} (P : B → Type 0) (f : A → B) (xs : List A)
    → All (λ x. P (f x)) xs
    → All P (map f xs)
All-map P f [] h = tt
All-map P f (x ∷ xs) h = (h.0, All-map P f xs h.1)

map-All :
    {A B : Type 0} (P : B → Type 0) (f : A → B) (xs : List A)
    → All P (map f xs)
    → All (λ x. P (f x)) xs
map-All P f [] h = tt
map-All P f (x ∷ xs) h = (h.0, map-All P f xs h.1)

length-map : {A B : Type 0} (f : A → B) (xs : List A) → length (map f xs) ≡ length xs
length-map f [] = refl
length-map f (x ∷ xs) = omega (arith, length-map f xs)

same_length :
    (stats : List ClusterStat) (clusters : List Cluster)
    → stat_names stats ≡ cluster_names clusters
    → length stats ≡ length clusters
same_length stats clusters h =
    omega (arith, length-map (λ c. c.name) stats, length-map (λ c. c.name) clusters, ap length h)

-- The facts that the sidecar's rules need: a time that the clock can show, and the suffix of a UUID.
pub record IsTimed (now : Datetime) (calls : Calls) : Type 0 where
  pub in_calendar : IsDatetime now
  pub four_digits : 1000 ≤ now.year
  pub is_now : calls.generated_at ≡ strftime now
  pub is_suffix : full_match hex_classes calls.suffix ≡ true

collected-IsPublishable :
    (s : Settings) (now : Datetime) (calls : Calls) (rows : List WorkflowRow)
    (stats : List ClusterStat) (merged : List RunRow)
    → IsLoaded s
    → IsTimed now calls
    → AddsUp (cluster_names s.clusters) (rows, stats)
    → IsPublishable (sidecar_of (cycle_config s) calls rows stats merged)
collected-IsPublishable s now calls rows stats merged loaded timed sums = record {
  has_version = loaded.has_version;
  is_time = (
    now,
    subst (λ x. strptime x ≡ some now) (sym timed.is_now)
        (strptime-strftime now timed.in_calendar timed.four_digits),
  );
  is_id =
      subst (λ x. matches generation_id (String.◌++◌ x (String.◌++◌ "-" calls.suffix)) ≡ true)
        (sym timed.is_now)
        (id-matches now calls.suffix timed.in_calendar timed.four_digits timed.is_suffix);
  extends_time = id-extends calls.generated_at calls.suffix;
  polls = loaded.polls;
  retains = loaded.retains;
  has_clusters =
      subst (λ n. 1 ≤ n) (sym (same_length stats s.clusters sums.named))
        loaded.valid_clusters.has_clusters;
  names_clusters =
      map-All (λ n. 1 ≤ char_count n) (λ c. c.name) stats
        (subst (All (λ n. 1 ≤ char_count n)) (sym sums.named) (
          All-map (λ n. 1 ≤ char_count n) (λ c. c.name) s.clusters
            loaded.valid_clusters.names_clusters));
  unique_names = subst (IsPairwise ◌≢◌) (sym sums.named) loaded.valid_clusters.unique_names;
  sums_up = sums.sums_up;
  empty_if_failed = sums.empty_if_failed;
}

module _ (upper : String → String) (loads : String → Result Value)
    (read_file : String → Result String) (R : RowTools)
    (request : Cluster → String → ℕ → Option String → HttpOutcome) (fuel : ℕ) where
  -- Load a configuration and collect its clusters. With a time of the clock from the year 1000 on
  -- and twelve hexadecimal digits of a UUID, the sidecar of the rows and entries that were collected
  -- keeps every promise of the documentation, whatever the ledger holds.
  pub load-IsPublishable :
      (env : Environment) (s : Settings) (now : Datetime) (calls : Calls) (rows : List WorkflowRow)
      (stats : List ClusterStat) (merged : List RunRow)
      → load upper loads read_file env ≡ ok s
      → IsTimed now calls
      → fetch_workflows R request fuel s.namespace calls.generated_at s.clusters
        ≡ some (ok (rows, stats))
      → IsPublishable (sidecar_of (cycle_config s) calls rows stats merged)
  load-IsPublishable env s now calls rows stats merged l timed f =
      collected-IsPublishable s now calls rows stats merged
        (load-IsLoaded upper loads read_file env s l) timed
        (IsCollected-AddsUp R request fuel s.namespace calls.generated_at s.clusters (rows, stats)
          (fetch_workflows-IsCollected R request fuel s.namespace calls.generated_at s.clusters
            (rows, stats) f))

  module _ (T : TextTools) (rules : List Rule) (P : Pyarrow) (dumps : Value → Bytes) where
    -- what the compute phase can fail on: the ledger's times, or the encoding of a file
    abbrev IsComputeFailure : Settings → Calls → List WorkflowRow → List RunRow → Error → Type 0
    IsComputeFailure s calls rows runs e =
        (merge T rules runs rows calls.generated_at s.run_retention_days ≡ err e)
        ⊎ (workflows_to_parquet_bytes P rows (some (new_generation_id calls)) ≡ err e)
        ⊎ ((merged : List RunRow) × (merge T rules runs rows calls.generated_at s.run_retention_days
              ≡ ok merged)
            × (runs_to_parquet_bytes P merged (some (new_generation_id calls)) ≡ err e))

    -- Under the same conditions `validate` never refuses the sidecar: the compute phase raises only
    -- what the merge of the ledger or the encoding of a Parquet file raises.
    pub compute_generation-error :
        (env : Environment) (s : Settings) (now : Datetime) (calls : Calls)
        (rows : List WorkflowRow) (stats : List ClusterStat) (runs : List RunRow) (e : Error)
        → load upper loads read_file env ≡ ok s
        → IsTimed now calls
        → fetch_workflows R request fuel s.namespace calls.generated_at s.clusters
          ≡ some (ok (rows, stats))
        → compute_generation T rules P dumps (cycle_config s) calls rows stats runs ≡ err e
        → IsComputeFailure s calls rows runs e
    unfolding compute_generation
    compute_generation-error env s now calls rows stats runs e l timed f h =
        elim (bind-eq-err (merge T rules runs rows calls.generated_at s.run_retention_days) _ h) [
          | inl m ↦ inl m
          | inr (merged, m, h) ↦
              elim (bind-eq-err (workflows_to_parquet_bytes P rows (some (new_generation_id calls)))
                _ h) [
                  | inl w ↦ inr (inl w)
                  | inr (b, w, h) ↦
                      elim (bind-eq-err
                        (runs_to_parquet_bytes P merged (some (new_generation_id calls))) _ h) [
                          | inl r ↦ inr (inr (merged, m, r))
                          | inr (c, r, h) ↦ absurd (
                              cc (
                                rw
                                  ((validate-IsPublishable _).1 (
                                    load-IsPublishable env s now calls rows stats merged l timed f))
                                  at h))
                        ]
                ]
        ]
