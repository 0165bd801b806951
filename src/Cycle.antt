-- ===== src/Cycle.antt =====
-- `_run_cycle` of src/main.py, and `upload_bytes` of src/s3io.py. An argument of the cycle says
-- what each call that leaves the process comes to: the clock, the random suffix, the listing of the
-- clusters, the download of the ledger and the three uploads.
pub mod Keys
pub mod Publish
pub mod Commit
pub mod Fresh
pub mod Parts
pub mod Atomic
pub mod Completes
pub mod Accepted
use Prim.Native.String
use argo_workflows_exporter.Base.{
  ℕ, String, ◌≡◌, refl, Bool, true, false, not, Option, none, some, List, [], ◌∷◌, ◌++◌, map,
  if◌then◌else◌,
}
use argo_workflows_exporter.Base.Text.{text_eq}
use argo_workflows_exporter.Base.Lists.{length, keep, any}
use argo_workflows_exporter.Base.Results.{Result, ok, err, Error, ◌>>=◌}
use argo_workflows_exporter.Json.{Value}
use argo_workflows_exporter.Taxonomy.{TextTools, Rule}
use argo_workflows_exporter.Rows.{WorkflowRow, RunRow}
use argo_workflows_exporter.Ledger.{merge}
use argo_workflows_exporter.Sidecar.{ClusterStat, Sidecar, sidecar_value, stat_names}
use argo_workflows_exporter.MetaSchema.CrossField.{validate}
use argo_workflows_exporter.Storage.{
  Bytes, GetOutcome, download_bytes, object_key, Pyarrow, workflows_to_parquet_bytes,
  runs_to_parquet_bytes, stored_runs,
}

-- The objects of the bucket.
abbrev pub Store : Type 0
Store = String → Option Bytes

abbrev pub write : String → Bytes → Store → Store
write key payload store k = if text_eq k key then some payload else store k

-- What a `put_object` call comes to: the object is stored, or the call raises, before the object is
-- stored or after it.
pub data PutOutcome : Type 0 where
  stored : PutOutcome
  lost : Error → PutOutcome
  unacknowledged : Error → PutOutcome

-- the fields of the configuration that a cycle reads
pub record Config : Type 0 where
  pub cluster_names : List String
  pub dest_prefix : String
  pub version : String
  pub poll_interval_seconds : ℕ
  pub run_retention_days : ℕ

pub data Phase : Type 0 where
  read compute publish : Phase

-- what `_annotate_cycle_failure` attaches to the exception
pub record CycleFailure : Type 0 where
  pub phase : Phase
  pub affected_clusters : List String
  pub failed_clusters : List String
  pub published : List String
  pub skipped : List String

-- How a cycle ends: it returns `True`, returns `False`, raises, or the process is killed between
-- two uploads.
pub data CycleEnd : Type 0 where
  completed : CycleEnd
  unanswered : CycleFailure → CycleEnd
  raised : Error → CycleFailure → CycleEnd
  killed : CycleEnd

-- `_PUBLICATION_OBJECTS`
abbrev pub publication_objects : List String
publication_objects = "workflows.parquet" ∷ "runs.parquet" ∷ "meta.json" ∷ []

-- `_failed_cluster_names`
abbrev pub failed_cluster_names : List ClusterStat → List String
failed_cluster_names stats = stat_names (keep (λ c. not c.answered) stats)

abbrev names_or : List String → List String → List String
names_or [] names = names
names_or (n ∷ ns) names = n ∷ ns

-- `failed_clusters`, at the handler of the cycle
abbrev failed_in : Phase → List String → List String → List String
failed_in read failed affected = names_or failed affected
failed_in compute failed affected = failed
failed_in publish failed affected = failed

abbrev pub failure : Config → List ClusterStat → List String → Phase → CycleFailure
failure cfg stats published phase = record {
  phase = phase;
  affected_clusters = cfg.cluster_names;
  failed_clusters = failed_in phase (failed_cluster_names stats) cfg.cluster_names;
  published = published;
  skipped = keep (λ name. not (any (text_eq name) published)) publication_objects;
}

-- the three payloads of a generation, with the sidecar that describes them
pub record Generation : Type 0 where
  pub sidecar : Sidecar
  pub workflows_payload : Bytes
  pub runs_payload : Bytes
  pub meta_payload : Bytes

-- `uploads`, in the order of the loop: the object's name, and its payload
abbrev pub uploads : Generation → List (String × Bytes)
uploads g =
    ("workflows.parquet", g.workflows_payload)
    ∷ ("runs.parquet", g.runs_payload)
    ∷ ("meta.json", g.meta_payload)
    ∷ []

-- What the calls of a cycle come to. The cycle is killed where the outcomes of the uploads end.
pub record Calls : Type 0 where
  -- `_now()`
  pub generated_at : String
  -- `uuid.uuid4().hex[:12]`
  pub suffix : String
  pub fetched : Result (List WorkflowRow × List ClusterStat)
  pub runs_object : GetOutcome
  pub puts : List PutOutcome

abbrev pub new_generation_id : Calls → String
new_generation_id calls = String.◌++◌ calls.generated_at (String.◌++◌ "-" calls.suffix)

module _ (cfg : Config) where
  -- the dict `meta`
  abbrev pub sidecar_of : Calls → List WorkflowRow → List ClusterStat → List RunRow → Sidecar
  sidecar_of calls rows stats merged = record {
    version = cfg.version;
    generated_at = calls.generated_at;
    generation_id = new_generation_id calls;
    poll_interval_seconds = cfg.poll_interval_seconds;
    run_retention_days = cfg.run_retention_days;
    clusters = stats;
    workflows = length rows;
    runs = length merged;
  }

module _ (cfg : Config) (stats : List ClusterStat) where
  -- the loop over `uploads`, and the handler of its exceptions
  unfoldable pub publish_all :
      List (String × Bytes) → List PutOutcome → List String → Store → Store × CycleEnd
  publish_all [] puts published store = (store, completed)
  publish_all (u ∷ us) [] published store = (store, killed)
  publish_all ((name, payload) ∷ us) (stored ∷ puts) published store =
      publish_all us puts (published ++ (name ∷ []))
        (write (object_key cfg.dest_prefix name) payload store)
  publish_all (u ∷ us) (lost e ∷ puts) published store =
      (store, raised e (failure cfg stats published publish))
  publish_all ((name, payload) ∷ us) (unacknowledged e ∷ puts) published store = (
    write (object_key cfg.dest_prefix name) payload store,
    raised e (failure cfg stats published publish),
  )

module _ (cfg : Config) where
  unfoldable pub publish_generation :
      Calls → List ClusterStat → Result Generation → Store → Store × CycleEnd
  publish_generation calls stats (err e) store = (store, raised e (failure cfg stats [] compute))
  publish_generation calls stats (ok g) store =
      publish_all cfg stats (uploads g) calls.puts [] store

module _ (P : Pyarrow) where
  -- the stored ledger
  unfoldable pub read_ledger : Calls → Result (List RunRow)
  read_ledger calls = do data_bytes ← download_bytes calls.runs_object; stored_runs P data_bytes

module _ (T : TextTools) (rules : List Rule) (P : Pyarrow) (dumps : Value → Bytes)
    (cfg : Config) where
  -- the compute phase
  unfoldable pub compute_generation :
      Calls → List WorkflowRow → List ClusterStat → List RunRow → Result Generation
  compute_generation calls rows stats runs = do
    merged ← merge T rules runs rows calls.generated_at cfg.run_retention_days
    workflows_payload ← workflows_to_parquet_bytes P rows (some (new_generation_id calls))
    runs_payload ← runs_to_parquet_bytes P merged (some (new_generation_id calls))
    checked ← validate (sidecar_value (sidecar_of cfg calls rows stats merged))
    ok (record {
      sidecar = sidecar_of cfg calls rows stats merged;
      workflows_payload = workflows_payload;
      runs_payload = runs_payload;
      meta_payload = dumps (sidecar_value (sidecar_of cfg calls rows stats merged));
    })

  -- the phases after the listing
  unfoldable pub cycle_with :
      Calls → List WorkflowRow → List ClusterStat → Result (List RunRow) → Store → Store × CycleEnd
  cycle_with calls rows stats (err e) store = (store, raised e (failure cfg stats [] read))
  cycle_with calls rows stats (ok runs) store =
      publish_generation cfg calls stats (compute_generation calls rows stats runs) store

  unfoldable pub after_fetch :
      Calls → Result (List WorkflowRow × List ClusterStat) → Store → Store × CycleEnd
  after_fetch calls (err e) store = (store, raised e (failure cfg [] [] read))
  after_fetch calls (ok (rows, stats)) store =
      if any (λ c. c.answered) stats
      then cycle_with calls rows stats (read_ledger P calls) store
      else (store, unanswered (failure cfg stats [] read))

  unfoldable pub run_cycle : Calls → Store → Store × CycleEnd
  run_cycle calls store = after_fetch calls calls.fetched store
