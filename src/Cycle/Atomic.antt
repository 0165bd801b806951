-- ===== src/Cycle/Atomic.antt =====
-- A reader after a cycle sees the publication that was stored before it, or the new one, and never
-- objects of both.
use argo_workflows_exporter.Base.{
  some_injective, ℕ, String, ◌≡◌, ◌≢◌, sym, ap, subst, ◌∙◌, ◌⊎◌, inl, inr, Option, none, some, List,
}
use argo_workflows_exporter.Base.Results.{ok_injective, Result, ok}
use argo_workflows_exporter.Json.{Value}
use argo_workflows_exporter.Taxonomy.{TextTools, Rule}
use argo_workflows_exporter.Storage.{Bytes, GetOutcome, object_key, Pyarrow, read_generation_id}
use argo_workflows_exporter.Consumer.{
  Publication, PublicationReason, Moment, CycleBound, meta_id, retained_result,
}
use argo_workflows_exporter.Consumer.Read.{checked_at, fresh_result, read_generation_result}
use argo_workflows_exporter.Consumer.Reading.{IsRead, read-Outcome}
use argo_workflows_exporter.Cycle.{
  Store, Config, CycleEnd, Generation, Calls, new_generation_id, run_cycle,
}
use argo_workflows_exporter.Cycle.Publish.{
  Stage, none_put, workflows_put, runs_put, meta_put, IsComputed, run_cycle-cases,
}
use argo_workflows_exporter.Cycle.Commit.{
  Holds, with_workflows-meta, with_runs-meta, with_runs-workflows, with_meta-Holds,
  workflows_put-same,
}
use argo_workflows_exporter.Cycle.Parts.{
  get_from, answer-body, IsStamped, workflows-id, computed-Parts,
}

no_reason : {reason : PublicationReason} → none ≢ some reason
no_reason h = cc h

module _ (loads : Bytes → Result Value) (cfg : Config) where
  -- the three objects of the publication are those that the store has
  pub record IsStored (p : Publication) (store : Store) : Type 0 where
    pub marker : Bytes
    pub marker_stored : store (object_key cfg.dest_prefix "meta.json") ≡ some marker
    pub marker_decodes : loads marker ≡ ok p.meta
    pub workflows_stored : store (object_key cfg.dest_prefix "workflows.parquet") ≡ p.workflows
    pub runs_stored : store (object_key cfg.dest_prefix "runs.parquet") ≡ p.runs

  -- no sidecar in the store carries the id
  abbrev pub IsNew : String → Store → Type 0
  IsNew id store =
      (b : Bytes) (v : Value)
      → store (object_key cfg.dest_prefix "meta.json") ≡ some b
      → loads b ≡ ok v
      → meta_id v ≢ some id

  module _ (P : Pyarrow) (bound : Option CycleBound) (now : Moment) (p : Publication) where
    pub IsRead-IsStored :
        (s : Store) → IsRead P loads (get_from s) cfg.dest_prefix bound now p → IsStored p s
    IsRead-IsStored s r = record {
      marker = r.meta_bytes;
      marker_stored = answer-body _ _ r.meta_stored;
      marker_decodes = r.meta_decodes;
      workflows_stored = answer-body _ _ r.workflows_stored ∙ sym r.complete.has_workflows;
      runs_stored = answer-body _ _ r.runs_stored ∙ sym r.complete.has_runs;
    }

    -- New workflow rows under an old marker are not accepted.
    torn-absurd :
        (s store : Store) (id : String) (b : Bytes)
        → IsNew id store
        → s (object_key cfg.dest_prefix "meta.json")
          ≡ store (object_key cfg.dest_prefix "meta.json")
        → s (object_key cfg.dest_prefix "workflows.parquet") ≡ some b
        → read_generation_id P b ≡ ok (some id)
        → IsRead P loads (get_from s) cfg.dest_prefix bound now p
        → ⊥
    torn-absurd s store id b new marker held stamped r =
        let same : b ≡ r.complete.workflows_bytes =
          some_injective (sym held ∙ answer-body _ _ r.workflows_stored) in
        let ids : some id ≡ some r.complete.id =
          ok_injective (sym stamped ∙ ap (read_generation_id P) same ∙ r.complete.workflows_id) in
        new r.meta_bytes p.meta (sym marker ∙ answer-body _ _ r.meta_stored) r.meta_decodes
          (r.complete.sidecar_id ∙ sym ids)

    pub Stage-IsRead :
        (g : Generation) (store s : Store) (end : CycleEnd) (id : String)
        → IsNew id store
        → read_generation_id P g.workflows_payload ≡ ok (some id)
        → Stage cfg g store s end
        → IsRead P loads (get_from s) cfg.dest_prefix bound now p
        → IsRead P loads (get_from store) cfg.dest_prefix bound now p
          ⊎ (IsStored p s × Holds cfg g s)
    Stage-IsRead g store s end id new stamped (none_put e n) r =
        inl (subst (λ x. IsRead P loads (get_from x) cfg.dest_prefix bound now p) e r)
    Stage-IsRead g store s end id new stamped (workflows_put e n) r = absurd (
        torn-absurd s store id g.workflows_payload new
          (ap (λ x. x (object_key cfg.dest_prefix "meta.json")) e ∙ with_workflows-meta cfg g store)
          (ap (λ x. x (object_key cfg.dest_prefix "workflows.parquet")) e
            ∙ workflows_put-same cfg g store)
          stamped r)
    Stage-IsRead g store s end id new stamped (runs_put e n) r = absurd (
        torn-absurd s store id g.workflows_payload new
          (ap (λ x. x (object_key cfg.dest_prefix "meta.json")) e ∙ with_runs-meta cfg g store)
          (ap (λ x. x (object_key cfg.dest_prefix "workflows.parquet")) e
            ∙ with_runs-workflows cfg g store)
          stamped r)
    Stage-IsRead g store s end id new stamped (meta_put e) r =
        inr (IsRead-IsStored s r, rw e (with_meta-Holds cfg g store))

  pub fresh-IsRead :
      (P : Pyarrow) (get_object : ℕ → String → GetOutcome) (last_complete : Option Publication)
      (bound : Option CycleBound) (now : Option Moment) (clock : ℕ) (p : Publication)
      → read_generation_result P loads get_object cfg.dest_prefix last_complete bound now clock
        ≡ ok (fresh_result p)
      → IsRead P loads get_object cfg.dest_prefix bound (checked_at now clock) p
  unfolding retained_result
  fresh-IsRead P get_object last_complete bound now clock p h =
      elim (read-Outcome P loads get_object cfg.dest_prefix last_complete bound now clock
        (fresh_result p) h) [
          | inl (q, e, r) ↦
              subst (IsRead P loads get_object cfg.dest_prefix bound (checked_at now clock))
                (some_injective (ap (λ x. x.publication) (sym e))) r
          | inr (reason, e) ↦ absurd (no_reason (ap (λ x. x.reason) e))
        ]

module _ (T : TextTools) (rules : List Rule) (P : Pyarrow) (dumps : Value → Bytes)
    (loads : Bytes → Result Value) (cfg : Config) (calls : Calls) (store : Store) where
  -- Let Parquet give back the id that it was stamped with, and let the cycle's id be new to the
  -- stored marker. A reader of the store that a cycle leaves, whatever its calls came to, that
  -- accepts a publication has the three objects that were stored before the cycle, or the three of
  -- the generation that the cycle computed.
  pub run_cycle-atomic :
      (last_complete : Option Publication) (bound : Option CycleBound) (now : Option Moment)
      (clock : ℕ) (p : Publication)
      → IsStamped P (new_generation_id calls)
      → IsNew loads cfg (new_generation_id calls) store
      → read_generation_result P loads
          (get_from (run_cycle T rules P dumps cfg calls store).0)
          cfg.dest_prefix
          last_complete
          bound
          now
          clock
        ≡ ok (fresh_result p)
      → IsStored loads cfg p store
        ⊎ ((g : Generation) × IsComputed T rules P dumps cfg calls g
            × IsStored loads cfg p (run_cycle T rules P dumps cfg calls store).0
            × Holds cfg g (run_cycle T rules P dumps cfg calls store).0)
  run_cycle-atomic last_complete bound now clock p stamped new h =
      let r = fresh-IsRead loads cfg P _ last_complete bound now clock p h in
      elim (run_cycle-cases T rules P dumps cfg calls store) [
        | inl (e, n) ↦ inl (subst (IsStored loads cfg p) e (IsRead-IsStored loads cfg P _ _ p _ r))
        | inr (g, c, stage) ↦
            let parts = computed-Parts T rules P dumps cfg calls g c in
            elim (Stage-IsRead loads cfg P _ _ p g store _ _ (new_generation_id calls) new
              (workflows-id P _ stamped parts.rows g.workflows_payload parts.workflows_made) stage
              r) [
                | inl x ↦ inl (IsRead-IsStored loads cfg P _ _ p store x)
                | inr (x, y) ↦ inr (g, c, x, y)
              ]
      ]
