-- ===== src/Cycle/Fresh.antt =====
-- A cycle that completes is what the next reader sees.
use argo_workflows_exporter.Base.{
  ℕ, String, ◌≡◌, refl, sym, ap, subst, ◌∙◌, inl, inr, true, false, Option, some, List,
}
use argo_workflows_exporter.Base.Results.{ok_injective, Result, ok}
use argo_workflows_exporter.Json.{Value}
use argo_workflows_exporter.Taxonomy.{TextTools, Rule}
use argo_workflows_exporter.Rows.{WorkflowRow, RunRow}
use argo_workflows_exporter.Sidecar.{ClusterStat, sidecar_value}
use argo_workflows_exporter.Storage.{Bytes, Pyarrow}
use argo_workflows_exporter.Consumer.{Publication, Moment, CycleBound, meta_id, generated_at_of}
use argo_workflows_exporter.Consumer.Complete.{IsComplete}
use argo_workflows_exporter.Consumer.Read.{checked_at, fresh_result, read_generation_result}
use argo_workflows_exporter.Consumer.Reading.{IsRead}
use argo_workflows_exporter.Cycle.{
  Store, Config, CycleEnd, Generation, Calls, new_generation_id, sidecar_of, compute_generation,
  run_cycle, completed,
}
use argo_workflows_exporter.Cycle.Publish.{
  Stage, none_put, workflows_put, runs_put, meta_put, IsComputed, run_cycle-cases,
}
use argo_workflows_exporter.Cycle.Commit.{Holds, with_meta-Holds}
use argo_workflows_exporter.Cycle.Parts.{
  get_from, answer, IsStamped, workflows-id, runs-id, Parts, computed-Parts,
}
use Prim.Native.String
use text.Mathlib.Text.{starts_with}
use text.Mathlib.TextLemmas.{nil-append, cons-append, append_assoc}
use text.Mathlib.TextPositions.{starts_with-append}
use argo_workflows_exporter.Base.Text.{is_empty}
use argo_workflows_exporter.MetaSchema.CrossField.{id_prefix}
use argo_workflows_exporter.Consumer.Accepts.{read_generation_result-fresh}
use argo_workflows_exporter.Consumer.Selection.{IsCurrent}

id-not_empty : (s t : String) → is_empty (String.◌++◌ s (String.◌++◌ "-" t)) ≡ false
id-not_empty String.[] t = rw (nil-append (String.◌++◌ "-" t), cons-append _ "" t) refl
id-not_empty (String.◌∷◌ c s) t = rw (cons-append c s (String.◌++◌ "-" t)) refl

pub id-extends :
    (s t : String) → starts_with (String.◌++◌ s (String.◌++◌ "-" t)) (id_prefix s) ≡ true
id-extends s t = rw (sym (append_assoc s "-" t)) (starts_with-append (id_prefix s) t)

module _ (cfg : Config) (calls : Calls) where
  pub sidecar-meta_id :
      (rows : List WorkflowRow) (stats : List ClusterStat) (merged : List RunRow)
      → meta_id (sidecar_value (sidecar_of cfg calls rows stats merged))
        ≡ some (new_generation_id calls)
  unfolding meta_id
  sidecar-meta_id rows stats merged = rw (id-not_empty calls.generated_at calls.suffix) refl

  sidecar-generated_at :
      (rows : List WorkflowRow) (stats : List ClusterStat) (merged : List RunRow)
      → generated_at_of (sidecar_value (sidecar_of cfg calls rows stats merged))
        ≡ calls.generated_at
  unfolding generated_at_of
  sidecar-generated_at rows stats merged = refl

-- the publication whose objects are a generation's payloads
abbrev pub published : Generation → Publication
published g = record {
  meta = sidecar_value g.sidecar;
  workflows = some g.workflows_payload;
  runs = some g.runs_payload;
}

module _ (T : TextTools) (rules : List Rule) (P : Pyarrow) (dumps : Value → Bytes)
    (loads : Bytes → Result Value) (cfg : Config) (calls : Calls) where
  pub computed-IsComplete :
      (g : Generation)
      → IsStamped P (new_generation_id calls)
      → Parts T rules P dumps cfg calls g
      → IsComplete P (published g)
  unfolding generated_at_of
  computed-IsComplete g stamped parts = record {
    valid = parts.sidecar_valid;
    workflows_bytes = g.workflows_payload;
    has_workflows = refl;
    runs_bytes = g.runs_payload;
    has_runs = refl;
    id = new_generation_id calls;
    sidecar_id =
        ap (λ x. meta_id (sidecar_value x)) parts.sidecar_is
        ∙ sidecar-meta_id cfg calls parts.rows parts.stats parts.merged;
    workflows_id =
        workflows-id P (new_generation_id calls) stamped parts.rows g.workflows_payload
          parts.workflows_made;
    runs_id =
        runs-id P (new_generation_id calls) stamped parts.merged g.runs_payload parts.runs_made;
    extends_time =
        ap
          (λ x.
            starts_with (new_generation_id calls) (id_prefix (generated_at_of (sidecar_value x))))
          parts.sidecar_is
        ∙ id-extends calls.generated_at calls.suffix;
  }

  pub Holds-IsRead :
      (g : Generation) (s : Store) (bound : Option CycleBound) (now : Moment)
      → IsStamped P (new_generation_id calls)
      → loads g.meta_payload ≡ ok (sidecar_value g.sidecar)
      → Parts T rules P dumps cfg calls g
      → Holds cfg g s
      → IsCurrent (sidecar_value g.sidecar) bound now
      → IsRead P loads (get_from s) cfg.dest_prefix bound now (published g)
  unfolding computed-IsComplete
  Holds-IsRead g s bound now stamped decodes parts held current = record {
    meta_bytes = g.meta_payload;
    meta_stored = ap answer held.meta_held;
    meta_decodes = decodes;
    complete = computed-IsComplete g stamped parts;
    workflows_stored = ap answer held.workflows_held;
    runs_stored = ap answer held.runs_held;
    current = current;
  }

  Stage-completed :
      (g : Generation) (store s : Store) (end : CycleEnd)
      → end ≡ completed
      → Stage cfg g store s end
      → Holds cfg g s
  Stage-completed g store s end h (none_put e n) = absurd (n h)
  Stage-completed g store s end h (workflows_put e n) = absurd (n h)
  Stage-completed g store s end h (runs_put e n) = absurd (n h)
  Stage-completed g store s end h (meta_put e) = rw e (with_meta-Holds cfg g store)

  pub computed_unique :
      (g k : Generation)
      → IsComputed T rules P dumps cfg calls g
      → IsComputed T rules P dumps cfg calls k
      → g ≡ k
  computed_unique g k c d = ok_injective (
      sym c.was_computed
      ∙ ap (λ (x, y). compute_generation T rules P dumps cfg calls x y c.runs)
          (ok_injective (sym c.was_fetched ∙ d.was_fetched))
      ∙ ap (compute_generation T rules P dumps cfg calls d.rows d.stats)
          (ok_injective (sym c.was_read ∙ d.was_read))
      ∙ d.was_computed)

  -- Let Parquet give back the id that it was stamped with, and `json.loads` the sidecar that the
  -- marker was written from. After a cycle that completes, a reader to whom that sidecar is current
  -- returns the generation that the cycle computed, as fresh.
  pub run_cycle-fresh :
      (g : Generation) (store : Store) (last_complete : Option Publication)
      (bound : Option CycleBound) (now : Option Moment) (clock : ℕ)
      → IsStamped P (new_generation_id calls)
      → IsComputed T rules P dumps cfg calls g
      → loads g.meta_payload ≡ ok (sidecar_value g.sidecar)
      → IsCurrent (sidecar_value g.sidecar) bound (checked_at now clock)
      → (run_cycle T rules P dumps cfg calls store).1 ≡ completed
      → read_generation_result P loads
          (get_from (run_cycle T rules P dumps cfg calls store).0)
          cfg.dest_prefix
          last_complete
          bound
          now
          clock
        ≡ ok (fresh_result (published g))
  run_cycle-fresh g store last_complete bound now clock stamped computed decodes current h =
      elim (run_cycle-cases T rules P dumps cfg calls store) [
        | inl (e, n) ↦ absurd (n h)
        | inr (k, c, stage) ↦
            read_generation_result-fresh P loads _ cfg.dest_prefix last_complete bound now clock
              (published g)
              (Holds-IsRead g _ bound (checked_at now clock) stamped decodes
                (computed-Parts T rules P dumps cfg calls g computed)
                (subst (λ x. Holds cfg x (run_cycle T rules P dumps cfg calls store).0)
                  (computed_unique k g c computed) (Stage-completed k store _ _ h stage))
                current)
      ]
