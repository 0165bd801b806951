-- ===== src/Cycle/Parts.antt =====
-- What the compute phase promises of a generation, and a store as a reader finds it.
use argo_workflows_exporter.Base.{ℕ, String, ◌≡◌, refl, sym, ap, ◌∙◌, Option, none, some, List}
use argo_workflows_exporter.Base.Results.{Result, ok, bind-eq-ok}
use argo_workflows_exporter.Json.{Value}
use argo_workflows_exporter.Taxonomy.{TextTools, Rule}
use argo_workflows_exporter.Rows.{WorkflowRow, RunRow}
use argo_workflows_exporter.Ledger.{merge}
use argo_workflows_exporter.Sidecar.{ClusterStat, sidecar_value}
use argo_workflows_exporter.MetaSchema.CrossField.{validate}
use argo_workflows_exporter.Storage.{
  Bytes, GetOutcome, body, no_such_key, Pyarrow, stamp_generation, read_generation_id,
  workflows_to_parquet_bytes, runs_to_parquet_bytes,
}
use argo_workflows_exporter.Cycle.{
  Store, Config, Generation, Calls, new_generation_id, sidecar_of, compute_generation,
}
use argo_workflows_exporter.Cycle.Publish.{IsComputed}

-- what `get_object` answers of a store that no write changes during the read
abbrev pub answer : Option Bytes → GetOutcome
answer none = no_such_key
answer (some b) = body b

abbrev pub get_from : Store → ℕ → String → GetOutcome
get_from s i key = answer (s key)

body_injective : {b c : Bytes} → body b ≡ body c → b ≡ c
body_injective h = cc h

made_injective : {g k : Generation} → Result.ok g ≡ ok k → g ≡ k
made_injective h = cc h

pub answer-body : (o : Option Bytes) (b : Bytes) → answer o ≡ body b → o ≡ some b
answer-body none b h = absurd (cc h)
answer-body (some c) b h = ap some (body_injective h)

-- A table stamped with the id is read back with it.
abbrev pub IsStamped : Pyarrow → String → Type 0
IsStamped P id =
    (table : P.Table) (b : Bytes)
    → P.write_table (stamp_generation P table id) ≡ ok b
    → read_generation_id P b ≡ ok (some id)

module _ (P : Pyarrow) (id : String) (stamped : IsStamped P id) where
  pub workflows-id :
      (rows : List WorkflowRow) (b : Bytes)
      → workflows_to_parquet_bytes P rows (some id) ≡ ok b
      → read_generation_id P b ≡ ok (some id)
  unfolding workflows_to_parquet_bytes
  workflows-id rows b h =
      let (table, e, w) = bind-eq-ok (P.from_workflow_rows rows) _ h in stamped table b w

  pub runs-id :
      (rows : List RunRow) (b : Bytes)
      → runs_to_parquet_bytes P rows (some id) ≡ ok b
      → read_generation_id P b ≡ ok (some id)
  unfolding runs_to_parquet_bytes
  runs-id rows b h = let (table, e, w) = bind-eq-ok (P.from_run_rows rows) _ h in stamped table b w

module _ (T : TextTools) (rules : List Rule) (P : Pyarrow) (dumps : Value → Bytes) (cfg : Config)
    (calls : Calls) where
  -- the parts of a generation that was computed
  pub record Parts (g : Generation) : Type 0 where
    pub rows : List WorkflowRow
    pub merged : List RunRow
    pub stats : List ClusterStat
    pub workflows_made :
        workflows_to_parquet_bytes P rows (some (new_generation_id calls)) ≡ ok g.workflows_payload
    pub runs_made :
        runs_to_parquet_bytes P merged (some (new_generation_id calls)) ≡ ok g.runs_payload
    pub sidecar_is : g.sidecar ≡ sidecar_of cfg calls rows stats merged
    pub sidecar_valid : validate (sidecar_value g.sidecar) ≡ ok tt
    pub meta_is : g.meta_payload ≡ dumps (sidecar_value g.sidecar)

  pub computed-Parts : (g : Generation) → IsComputed T rules P dumps cfg calls g → Parts g
  unfolding compute_generation
  computed-Parts g c =
      let (merged, m, h1) =
        bind-eq-ok (merge T rules c.runs c.rows calls.generated_at cfg.run_retention_days) _
          c.was_computed in
      let (w, wm, h2) =
        bind-eq-ok (workflows_to_parquet_bytes P c.rows (some (new_generation_id calls))) _ h1 in
      let (r, rm, h3) =
        bind-eq-ok (runs_to_parquet_bytes P merged (some (new_generation_id calls))) _ h2 in
      let (u, v, h4) =
        bind-eq-ok (validate (sidecar_value (sidecar_of cfg calls c.rows c.stats merged))) _ h3 in
      let same = made_injective h4 in
      record {
        rows = c.rows;
        merged = merged;
        stats = c.stats;
        workflows_made = wm ∙ ap (λ x. ok x.workflows_payload) same;
        runs_made = rm ∙ ap (λ x. ok x.runs_payload) same;
        sidecar_is = sym (ap (λ x. x.sidecar) same);
        sidecar_valid = ap (λ x. validate (sidecar_value x.sidecar)) (sym same) ∙ v ∙ ap ok refl;
        meta_is =
            ap (λ x. x.meta_payload) (sym same) ∙ ap (λ x. dumps (sidecar_value x.sidecar)) same;
      }
