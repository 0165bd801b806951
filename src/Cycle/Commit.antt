-- ===== src/Cycle/Commit.antt =====
-- The store after a cycle, object by object.
use argo_workflows_exporter.Base.{String, ◌≡◌, ◌≢◌, ap, ◌∙◌, ◌⊎◌, inl, inr, some, List}
use argo_workflows_exporter.Json.{Value}
use argo_workflows_exporter.Taxonomy.{TextTools, Rule}
use argo_workflows_exporter.Storage.{Bytes, object_key, Pyarrow}
use argo_workflows_exporter.Cycle.{Store, Config, CycleEnd, completed, Generation, Calls, run_cycle}
use argo_workflows_exporter.Cycle.Keys.{object_key-Injective, write-same, write-other}
use argo_workflows_exporter.Cycle.Publish.{
  with_workflows, with_runs, with_meta, Stage, none_put, workflows_put, runs_put, meta_put,
  IsComputed, run_cycle-cases,
}

-- The store holds the three objects of the generation.
pub record Holds (cfg : Config) (g : Generation) (s : Store) : Type 0 where
  pub workflows_held : s (object_key cfg.dest_prefix "workflows.parquet") ≡ some g.workflows_payload
  pub runs_held : s (object_key cfg.dest_prefix "runs.parquet") ≡ some g.runs_payload
  pub meta_held : s (object_key cfg.dest_prefix "meta.json") ≡ some g.meta_payload

module _ (cfg : Config) (g : Generation) (store : Store) where
  pub key_differs :
      (a b : String) → a ≢ b → object_key cfg.dest_prefix a ≢ object_key cfg.dest_prefix b
  key_differs a b n h = n (object_key-Injective cfg.dest_prefix a b h)

  workflows_put-other :
      (k : String)
      → k ≢ object_key cfg.dest_prefix "workflows.parquet"
      → with_workflows cfg g store k ≡ store k
  workflows_put-other =
      write-other (object_key cfg.dest_prefix "workflows.parquet") g.workflows_payload store

  runs_put-other :
      (k : String)
      → k ≢ object_key cfg.dest_prefix "runs.parquet"
      → with_runs cfg g store k ≡ with_workflows cfg g store k
  runs_put-other =
      write-other (object_key cfg.dest_prefix "runs.parquet") g.runs_payload
        (with_workflows cfg g store)

  meta_put-other :
      (k : String)
      → k ≢ object_key cfg.dest_prefix "meta.json"
      → with_meta cfg g store k ≡ with_runs cfg g store k
  meta_put-other =
      write-other (object_key cfg.dest_prefix "meta.json") g.meta_payload (with_runs cfg g store)

  pub with_workflows-meta :
      with_workflows cfg g store (object_key cfg.dest_prefix "meta.json")
      ≡ store (object_key cfg.dest_prefix "meta.json")
  with_workflows-meta =
      workflows_put-other _ (key_differs "meta.json" "workflows.parquet" (λ h. cc h))

  pub with_runs-meta :
      with_runs cfg g store (object_key cfg.dest_prefix "meta.json")
      ≡ store (object_key cfg.dest_prefix "meta.json")
  with_runs-meta =
      runs_put-other _ (key_differs "meta.json" "runs.parquet" (λ h. cc h)) ∙ with_workflows-meta

  pub with_runs-workflows :
      with_runs cfg g store (object_key cfg.dest_prefix "workflows.parquet")
      ≡ some g.workflows_payload
  with_runs-workflows =
      runs_put-other _ (key_differs "workflows.parquet" "runs.parquet" (λ h. cc h))
      ∙ write-same (object_key cfg.dest_prefix "workflows.parquet") g.workflows_payload store

  pub workflows_put-same :
      with_workflows cfg g store (object_key cfg.dest_prefix "workflows.parquet")
      ≡ some g.workflows_payload
  workflows_put-same =
      write-same (object_key cfg.dest_prefix "workflows.parquet") g.workflows_payload store

  pub with_meta-Holds : Holds cfg g (with_meta cfg g store)
  with_meta-Holds = record {
    workflows_held =
        meta_put-other _ (key_differs "workflows.parquet" "meta.json" (λ h. cc h))
        ∙ with_runs-workflows;
    runs_held =
        meta_put-other _ (key_differs "runs.parquet" "meta.json" (λ h. cc h))
        ∙ write-same (object_key cfg.dest_prefix "runs.parquet") g.runs_payload
            (with_workflows cfg g store);
    meta_held =
        write-same (object_key cfg.dest_prefix "meta.json") g.meta_payload (with_runs cfg g store);
  }

  -- the marker is the old one, or the generation is whole
  abbrev Committed : Store → CycleEnd → Type 0
  Committed s end =
      ((s (object_key cfg.dest_prefix "meta.json") ≡ store (object_key cfg.dest_prefix "meta.json"))
        × (end ≢ completed))
      ⊎ Holds cfg g s

  Stage-Committed : (s : Store) (end : CycleEnd) → Stage cfg g store s end → Committed s end
  Stage-Committed s end (none_put e n) =
      inl (ap (λ x. x (object_key cfg.dest_prefix "meta.json")) e, n)
  Stage-Committed s end (workflows_put e n) =
      inl (ap (λ x. x (object_key cfg.dest_prefix "meta.json")) e ∙ with_workflows-meta, n)
  Stage-Committed s end (runs_put e n) =
      inl (ap (λ x. x (object_key cfg.dest_prefix "meta.json")) e ∙ with_runs-meta, n)
  Stage-Committed s end (meta_put e) = inr (rw e with_meta-Holds)

  Stage-frame :
      (s : Store) (end : CycleEnd) (k : String)
      → k ≢ object_key cfg.dest_prefix "workflows.parquet"
      → k ≢ object_key cfg.dest_prefix "runs.parquet"
      → k ≢ object_key cfg.dest_prefix "meta.json"
      → Stage cfg g store s end
      → s k ≡ store k
  Stage-frame s end k w r m (none_put e n) = ap (λ x. x k) e
  Stage-frame s end k w r m (workflows_put e n) = ap (λ x. x k) e ∙ workflows_put-other k w
  Stage-frame s end k w r m (runs_put e n) =
      ap (λ x. x k) e ∙ runs_put-other k r ∙ workflows_put-other k w
  Stage-frame s end k w r m (meta_put e) =
      ap (λ x. x k) e ∙ meta_put-other k m ∙ runs_put-other k r ∙ workflows_put-other k w

module _ (T : TextTools) (rules : List Rule) (P : Pyarrow) (dumps : Value → Bytes) (cfg : Config)
    (calls : Calls) (store : Store) where
  -- Whatever its calls come to, a cycle leaves `meta.json` as it was, and then it has not
  -- completed, or leaves the three objects of one generation that it computed in the store.
  pub run_cycle-commit :
      let (s, end) = run_cycle T rules P dumps cfg calls store in
      ((s (object_key cfg.dest_prefix "meta.json") ≡ store (object_key cfg.dest_prefix "meta.json"))
        × (end ≢ completed))
      ⊎ ((g : Generation) × IsComputed T rules P dumps cfg calls g × Holds cfg g s)
  run_cycle-commit = elim (run_cycle-cases T rules P dumps cfg calls store) [
    | inl (e, n) ↦ inl (ap (λ x. x (object_key cfg.dest_prefix "meta.json")) e, n)
    | inr (g, c, stage) ↦ elim (Stage-Committed cfg g store _ _ stage) [
      | inl x ↦ inl x
      | inr x ↦ inr (g, c, x)
    ]
  ]

  -- A cycle changes no object but the three of the publication.
  pub run_cycle-frame :
      (k : String)
      → k ≢ object_key cfg.dest_prefix "workflows.parquet"
      → k ≢ object_key cfg.dest_prefix "runs.parquet"
      → k ≢ object_key cfg.dest_prefix "meta.json"
      → (run_cycle T rules P dumps cfg calls store).0 k ≡ store k
  run_cycle-frame k w r m = elim (run_cycle-cases T rules P dumps cfg calls store) [
    | inl (e, n) ↦ ap (λ x. x k) e
    | inr (g, c, stage) ↦ Stage-frame cfg g store _ _ k w r m stage
  ]
