-- ===== src/Poll/Objects/Untorn.antt =====
-- A reader whose three calls fall on different moments of the loop.
use argo_workflows_exporter.Base.{
  ℕ, String, ◌≡◌, ◌≢◌, sym, ap, subst, ◌∙◌, ◌⊎◌, inl, inr, true, Option, some, List,
}
use argo_workflows_exporter.Base.Lists.{All, IsPairwise, In, All-In}
use argo_workflows_exporter.Base.Results.{Result, ok}
use argo_workflows_exporter.Json.{Value}
use argo_workflows_exporter.Taxonomy.{TextTools, Rule}
use argo_workflows_exporter.Storage.{Bytes, GetOutcome, Pyarrow, object_key, read_generation_id}
use argo_workflows_exporter.Consumer.{Publication, Moment, CycleBound}
use argo_workflows_exporter.Consumer.Read.{checked_at, fresh_result, read_generation_result}
use argo_workflows_exporter.Consumer.Reading.{IsRead}
use argo_workflows_exporter.Cycle.{Store, Config, Generation}
use argo_workflows_exporter.Cycle.Publish.{IsComputed}
use argo_workflows_exporter.Cycle.Parts.{answer, answer-body}
use argo_workflows_exporter.Cycle.Atomic.{IsStored, IsNew, fresh-IsRead}
use argo_workflows_exporter.Poll.{Turn, PollState, run_poll_loop}
use argo_workflows_exporter.Poll.Readers.{turn_id, IsOrdinary}
use argo_workflows_exporter.Poll.Objects.{
  workflows-IsUpload, runs-IsUpload, meta-IsUpload, IsCut, Origin, moment-source,
}
use argo_workflows_exporter.Poll.Objects.Ids.{
  meta-turn_id, workflows-turn_id, runs-turn_id, same_generation,
}

module _ (T : TextTools) (rules : List Rule) (P : Pyarrow) (dumps : Value → Bytes)
    (loads : Bytes → Result Value) (cfg : Config) where
  -- none of the three objects of the bucket carries the id
  pub record IsAlien (store : Store) (id : String) : Type 0 where
    pub marker_new : IsNew loads cfg id store
    pub workflows_new :
        (b : Bytes)
        → store (object_key cfg.dest_prefix "workflows.parquet") ≡ some b
        → read_generation_id P b ≢ ok (some id)
    pub runs_new :
        (b : Bytes)
        → store (object_key cfg.dest_prefix "runs.parquet") ≡ some b
        → read_generation_id P b ≢ ok (some id)

  -- the publication is the generation that one of the turns computed
  pub record IsGeneration (ts : List Turn) (p : Publication) : Type 0 where
    pub turn : Turn
    pub is_turn : In turn ts
    pub generation : Generation
    pub computed : IsComputed T rules P dumps cfg turn.calls generation
    pub marker_decodes : loads generation.meta_payload ≡ ok p.meta
    pub workflows_same : p.workflows ≡ some generation.workflows_payload
    pub runs_same : p.runs ≡ some generation.runs_payload

  module _ (ts : List Turn) (ordinary : All (IsOrdinary T rules P dumps loads cfg) ts) where
    module _ (get_object : ℕ → String → GetOutcome) (bound : Option CycleBound) (now : Moment)
        (p : Publication) (store : Store)
        (r : IsRead P loads get_object cfg.dest_prefix bound now p) where
      abbrev At : String → Bytes → Type 0
      At name b =
          (store (object_key cfg.dest_prefix name) ≡ some b)
          ⊎ Origin T rules P dumps cfg ts (object_key cfg.dest_prefix name) b

      alien :
          (t : Turn)
          → All (λ x. IsAlien store (turn_id x)) ts
          → In t ts
          → turn_id t ≡ r.complete.id
          → IsAlien store r.complete.id
      alien t aliens i e =
          subst (IsAlien store) e (All-In (λ x. IsAlien store (turn_id x)) ts t aliens i)

      joined :
          IsPairwise (λ x y. turn_id x ≢ turn_id y) ts
          → All (λ x. IsAlien store (turn_id x)) ts
          → At "meta.json" r.meta_bytes
          → At "workflows.parquet" r.complete.workflows_bytes
          → At "runs.parquet" r.complete.runs_bytes
          → IsStored loads cfg p store ⊎ IsGeneration ts p
      joined differ aliens (inl m) (inl w) (inl u) = inl (record {
        marker = r.meta_bytes;
        marker_stored = m;
        marker_decodes = r.meta_decodes;
        workflows_stored = w ∙ sym r.complete.has_workflows;
        runs_stored = u ∙ sym r.complete.has_runs;
      })
      joined differ aliens (inl m) (inl w) (inr o) =
          let e =
            runs-turn_id T rules P dumps loads cfg ts ordinary r.complete.runs_bytes r.complete.id
              r.complete.runs_id o in
          absurd (
            (alien o.turn aliens o.is_turn e).marker_new r.meta_bytes p.meta m r.meta_decodes
              r.complete.sidecar_id)
      joined differ aliens (inl m) (inr o) u =
          let e =
            workflows-turn_id T rules P dumps loads cfg ts ordinary r.complete.workflows_bytes
              r.complete.id r.complete.workflows_id o in
          absurd (
            (alien o.turn aliens o.is_turn e).marker_new r.meta_bytes p.meta m r.meta_decodes
              r.complete.sidecar_id)
      joined differ aliens (inr o) (inl w) u =
          let e =
            meta-turn_id T rules P dumps loads cfg ts ordinary r.meta_bytes r.complete.id p.meta
              r.meta_decodes r.complete.sidecar_id o in
          absurd (
            (alien o.turn aliens o.is_turn e).workflows_new r.complete.workflows_bytes w
              r.complete.workflows_id)
      joined differ aliens (inr o) (inr q) (inl u) =
          let e =
            meta-turn_id T rules P dumps loads cfg ts ordinary r.meta_bytes r.complete.id p.meta
              r.meta_decodes r.complete.sidecar_id o in
          absurd
            ((alien o.turn aliens o.is_turn e).runs_new r.complete.runs_bytes u r.complete.runs_id)
      joined differ aliens (inr o) (inr q) (inr v) =
          let e =
            meta-turn_id T rules P dumps loads cfg ts ordinary r.meta_bytes r.complete.id p.meta
              r.meta_decodes r.complete.sidecar_id o in
          let f =
            workflows-turn_id T rules P dumps loads cfg ts ordinary r.complete.workflows_bytes
              r.complete.id r.complete.workflows_id q in
          let h =
            runs-turn_id T rules P dumps loads cfg ts ordinary r.complete.runs_bytes r.complete.id
              r.complete.runs_id v in
          let same =
            same_generation T rules P dumps loads cfg ts ordinary q.turn o.turn q.generation
              o.generation differ q.is_turn o.is_turn (f ∙ sym e) q.computed o.computed in
          let same_runs =
            same_generation T rules P dumps loads cfg ts ordinary v.turn o.turn v.generation
              o.generation differ v.is_turn o.is_turn (h ∙ sym e) v.computed o.computed in
          inr (record {
            turn = o.turn;
            is_turn = o.is_turn;
            generation = o.generation;
            computed = o.computed;
            marker_decodes =
                ap loads (meta-IsUpload cfg o.generation r.meta_bytes o.upload) ∙ r.meta_decodes;
            workflows_same =
                r.complete.has_workflows
                ∙ ap some (
                    sym (workflows-IsUpload cfg q.generation r.complete.workflows_bytes q.upload)
                    ∙ ap (λ x. x.workflows_payload) same);
            runs_same =
                r.complete.has_runs
                ∙ ap some (
                    sym (runs-IsUpload cfg v.generation r.complete.runs_bytes v.upload)
                    ∙ ap (λ x. x.runs_payload) same_runs);
          })

  -- the bucket at the moments of the three calls of a reader
  abbrev pub get_at : PollState → (ℕ → List Turn) → ℕ → String → GetOutcome
  get_at start cuts i k = answer ((run_poll_loop T rules P dumps cfg true (cuts i) start).store k)

  -- Let the ids of the turns be different from one another and new to all three objects that the
  -- loop begins with; let Parquet give back an id that it was stamped with, and `json.loads` that
  -- of a sidecar. A reader whose three calls fall on any moments of the loop, also between two
  -- uploads of a turn, and that accepts a publication has the three objects that were stored when
  -- the loop began, or the three that one turn computed as one generation.
  pub read-IsGeneration :
      (start : PollState) (ts : List Turn) (cuts : ℕ → List Turn)
      (last_complete : Option Publication) (bound : Option CycleBound) (now : Option Moment)
      (clock : ℕ) (p : Publication)
      → ((i : ℕ) → IsCut (cuts i) ts)
      → All (IsOrdinary T rules P dumps loads cfg) ts
      → All (λ t. IsAlien start.store (turn_id t)) ts
      → IsPairwise (λ t u. turn_id t ≢ turn_id u) ts
      → read_generation_result P loads
          (get_at start cuts)
          cfg.dest_prefix
          last_complete
          bound
          now
          clock
        ≡ ok (fresh_result p)
      → IsStored loads cfg p start.store ⊎ IsGeneration ts p
  read-IsGeneration start ts cuts last_complete bound now clock p cut ordinary aliens differ h =
      let r = fresh-IsRead loads cfg P (get_at start cuts) last_complete bound now clock p h in
      let source =
        λ (i : ℕ) (k : String) (b : Bytes)
            (e : (run_poll_loop T rules P dumps cfg true (cuts i) start).store k ≡ some b).
          moment-source T rules P dumps cfg (cuts i) ts start k b (cut i) e in
      joined ts ordinary (get_at start cuts) bound (checked_at now clock) p start.store r differ
        aliens (source 0 _ _ (answer-body _ _ r.meta_stored))
        (source 1 _ _ (answer-body _ _ r.workflows_stored))
        (source 2 _ _ (answer-body _ _ r.runs_stored))
