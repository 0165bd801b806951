-- ===== src/Cycle/Publish.antt =====
-- What a cycle leaves in the store: `meta.json` is the commit marker.
use argo_workflows_exporter.Base.{◌≡◌, ◌≢◌, refl, ◌⊎◌, inl, inr, List, [], ◌∷◌, Bool-cases}
use argo_workflows_exporter.Base.Lists.{any}
use argo_workflows_exporter.Base.Results.{Result, ok, err}
use argo_workflows_exporter.Json.{Value}
use argo_workflows_exporter.Taxonomy.{TextTools, Rule}
use argo_workflows_exporter.Rows.{WorkflowRow, RunRow}
use argo_workflows_exporter.Sidecar.{ClusterStat}
use argo_workflows_exporter.Storage.{Bytes, object_key, Pyarrow}
use argo_workflows_exporter.Cycle.{
  Store, write, PutOutcome, stored, lost, unacknowledged, Config, CycleEnd, completed, Generation,
  uploads, Calls, publish_all, compute_generation, publish_generation, read_ledger, cycle_with,
  after_fetch, run_cycle,
}

-- The store after the first, the second and the third upload of a generation.
module _ (cfg : Config) (g : Generation) (store : Store) where
  abbrev pub with_workflows : Store
  with_workflows = write (object_key cfg.dest_prefix "workflows.parquet") g.workflows_payload store

  abbrev pub with_runs : Store
  with_runs = write (object_key cfg.dest_prefix "runs.parquet") g.runs_payload with_workflows

  abbrev pub with_meta : Store
  with_meta = write (object_key cfg.dest_prefix "meta.json") g.meta_payload with_runs

  -- how far the publish phase has come
  pub data Stage (s : Store) (end : CycleEnd) : Type 0 where
    none_put : s ≡ store → end ≢ completed → Stage s end
    workflows_put : s ≡ with_workflows → end ≢ completed → Stage s end
    runs_put : s ≡ with_runs → end ≢ completed → Stage s end
    meta_put : s ≡ with_meta → Stage s end

  publish_all-Stage :
      (stats : List ClusterStat) (puts : List PutOutcome)
      → let (s, end) = publish_all cfg stats (uploads g) puts [] store in Stage s end
  unfolding publish_all
  publish_all-Stage stats [] = none_put refl (λ h. cc h)
  publish_all-Stage stats (lost e ∷ puts) = none_put refl (λ h. cc h)
  publish_all-Stage stats (unacknowledged e ∷ puts) = workflows_put refl (λ h. cc h)
  publish_all-Stage stats (stored ∷ []) = workflows_put refl (λ h. cc h)
  publish_all-Stage stats (stored ∷ (lost e ∷ puts)) = workflows_put refl (λ h. cc h)
  publish_all-Stage stats (stored ∷ (unacknowledged e ∷ puts)) = runs_put refl (λ h. cc h)
  publish_all-Stage stats (stored ∷ (stored ∷ [])) = runs_put refl (λ h. cc h)
  publish_all-Stage stats (stored ∷ (stored ∷ (lost e ∷ puts))) = runs_put refl (λ h. cc h)
  publish_all-Stage stats (stored ∷ (stored ∷ (unacknowledged e ∷ puts))) = meta_put refl
  publish_all-Stage stats (stored ∷ (stored ∷ (stored ∷ puts))) = meta_put refl

module _ (T : TextTools) (rules : List Rule) (P : Pyarrow) (dumps : Value → Bytes) (cfg : Config)
    (calls : Calls) where
  -- The generation is what the compute phase made of the listing and the stored ledger.
  pub record IsComputed (g : Generation) : Type 0 where
    pub rows : List WorkflowRow
    pub stats : List ClusterStat
    pub runs : List RunRow
    pub was_fetched : calls.fetched ≡ ok (rows, stats)
    pub was_read : read_ledger P calls ≡ ok runs
    pub was_computed : compute_generation T rules P dumps cfg calls rows stats runs ≡ ok g

  -- nothing was put, or a computed generation is on its way
  abbrev Outcome : Store → Store → CycleEnd → Type 0
  Outcome store s end =
      ((s ≡ store) × (end ≢ completed))
      ⊎ ((g : Generation) × IsComputed g × Stage cfg g store s end)

  publish_generation-cases :
      (rows : List WorkflowRow) (stats : List ClusterStat) (runs : List RunRow)
      (o : Result Generation) (store : Store)
      → calls.fetched ≡ ok (rows, stats)
      → read_ledger P calls ≡ ok runs
      → compute_generation T rules P dumps cfg calls rows stats runs ≡ o
      → let (s, end) = publish_generation cfg calls stats o store in Outcome store s end
  unfolding publish_generation
  publish_generation-cases rows stats runs (err e) store f l c = inl (refl, λ h. cc h)
  publish_generation-cases rows stats runs (ok g) store f l c = inr (
    g,
    record {
      rows = rows;
      stats = stats;
      runs = runs;
      was_fetched = f;
      was_read = l;
      was_computed = c;
    },
    publish_all-Stage cfg g store stats calls.puts,
  )

  cycle_with-cases :
      (rows : List WorkflowRow) (stats : List ClusterStat) (o : Result (List RunRow))
      (store : Store)
      → calls.fetched ≡ ok (rows, stats)
      → read_ledger P calls ≡ o
      → let (s, end) = cycle_with T rules P dumps cfg calls rows stats o store in
        Outcome store s end
  unfolding cycle_with
  cycle_with-cases rows stats (err e) store f l = inl (refl, λ h. cc h)
  cycle_with-cases rows stats (ok runs) store f l =
      publish_generation-cases rows stats runs _ store f l refl

  after_fetch-cases :
      (o : Result (List WorkflowRow × List ClusterStat)) (store : Store)
      → calls.fetched ≡ o
      → let (s, end) = after_fetch T rules P dumps cfg calls o store in Outcome store s end
  unfolding after_fetch
  after_fetch-cases (err e) store f = inl (refl, λ h. cc h)
  after_fetch-cases (ok (rows, stats)) store f = elim (Bool-cases (any (λ c. c.answered) stats)) [
    | inl e ↦ rw e (cycle_with-cases rows stats (read_ledger P calls) store f refl)
    | inr e ↦ rw e (inl (refl, λ h. cc h))
  ]

  pub run_cycle-cases :
      (store : Store)
      → let (s, end) = run_cycle T rules P dumps cfg calls store in Outcome store s end
  unfolding run_cycle
  run_cycle-cases store = after_fetch-cases calls.fetched store refl
