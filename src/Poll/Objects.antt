-- ===== src/Poll/Objects.antt =====
-- Where the objects come from that the bucket holds at some moment of the loop.
pub mod Untorn
mod Ids
use text.Mathlib.TextEquality.{eq_iff}
use argo_workflows_exporter.Base.{
  String, ◌≡◌, ◌≢◌, refl, sym, ap, subst, ◌∙◌, ◌⊎◌, inl, inr, Bool, true, false, Bool-cases, Option,
  some, some_injective, List, [], ◌∷◌, ◌++◌,
}
use argo_workflows_exporter.Base.Text.{text_eq}
use argo_workflows_exporter.Base.Lists.{In}
use argo_workflows_exporter.Base.Results.{Result}
use argo_workflows_exporter.Json.{Value}
use argo_workflows_exporter.Taxonomy.{TextTools, Rule}
use argo_workflows_exporter.Storage.{Bytes, Pyarrow, object_key}
use argo_workflows_exporter.Cycle.{
  Store, write, PutOutcome, Config, CycleEnd, Generation, compute_generation, read_ledger,
  run_cycle,
}
use argo_workflows_exporter.Cycle.Keys.{object_key-Injective}
use argo_workflows_exporter.Cycle.Publish.{
  with_workflows, with_runs, with_meta, Stage, none_put, workflows_put, runs_put, meta_put,
  IsComputed, run_cycle-cases,
}
use argo_workflows_exporter.Poll.{Turn, PollState, goes_on, cycle_end, run_turn, run_poll_loop}

-- what a write leaves at a key
write-source :
    (key : String) (payload : Bytes) (store : Store) (k : String) (b : Bytes)
    → write key payload store k ≡ some b
    → (store k ≡ some b) ⊎ ((k ≡ key) × (payload ≡ b))
write-source key payload store k b h = elim (Bool-cases (text_eq k key)) [
  | inl e ↦ inr ((eq_iff k key).0 e, some_injective (rw e at h))
  | inr e ↦ inl (rw e at h)
]

module _ (cfg : Config) (g : Generation) where
  abbrev key : String → String
  key = object_key cfg.dest_prefix

  -- the bytes are what the generation puts at the key
  abbrev pub IsUpload : String → Bytes → Type 0
  IsUpload k b =
      ((k ≡ object_key cfg.dest_prefix "workflows.parquet") × (g.workflows_payload ≡ b))
      ⊎ ((k ≡ object_key cfg.dest_prefix "runs.parquet") × (g.runs_payload ≡ b))
      ⊎ ((k ≡ object_key cfg.dest_prefix "meta.json") × (g.meta_payload ≡ b))

  module _ (store : Store) (k : String) (b : Bytes) where
    abbrev Source : Type 0
    Source = (store k ≡ some b) ⊎ IsUpload k b

    workflows-source : with_workflows cfg g store k ≡ some b → Source
    workflows-source h =
        elim (write-source (key "workflows.parquet") g.workflows_payload store k b h) [
          | inl e ↦ inl e
          | inr u ↦ inr (inl u)
        ]

    runs-source : with_runs cfg g store k ≡ some b → Source
    runs-source h =
        elim (write-source (key "runs.parquet") g.runs_payload (with_workflows cfg g store) k b h) [
          | inl e ↦ workflows-source e
          | inr u ↦ inr (inr (inl u))
        ]

    meta-source : with_meta cfg g store k ≡ some b → Source
    meta-source h =
        elim (write-source (key "meta.json") g.meta_payload (with_runs cfg g store) k b h) [
          | inl e ↦ runs-source e
          | inr u ↦ inr (inr (inr u))
        ]

    Stage-source : (s : Store) (end : CycleEnd) → Stage cfg g store s end → s k ≡ some b → Source
    Stage-source s end (none_put e n) h = inl (ap (λ x. x k) (sym e) ∙ h)
    Stage-source s end (workflows_put e n) h = workflows-source (ap (λ x. x k) (sym e) ∙ h)
    Stage-source s end (runs_put e n) h = runs-source (ap (λ x. x k) (sym e) ∙ h)
    Stage-source s end (meta_put e) h = meta-source (ap (λ x. x k) (sym e) ∙ h)

-- Each name has its payload.
module _ (cfg : Config) (g : Generation) (b : Bytes) where
  pub workflows-IsUpload :
      IsUpload cfg g (object_key cfg.dest_prefix "workflows.parquet") b → g.workflows_payload ≡ b
  workflows-IsUpload (inl (k, e)) = e
  workflows-IsUpload (inr (inl (k, e))) =
      absurd (cc (object_key-Injective cfg.dest_prefix "workflows.parquet" "runs.parquet" k))
  workflows-IsUpload (inr (inr (k, e))) =
      absurd (cc (object_key-Injective cfg.dest_prefix "workflows.parquet" "meta.json" k))

  pub runs-IsUpload :
      IsUpload cfg g (object_key cfg.dest_prefix "runs.parquet") b → g.runs_payload ≡ b
  runs-IsUpload (inl (k, e)) =
      absurd (cc (object_key-Injective cfg.dest_prefix "runs.parquet" "workflows.parquet" k))
  runs-IsUpload (inr (inl (k, e))) = e
  runs-IsUpload (inr (inr (k, e))) =
      absurd (cc (object_key-Injective cfg.dest_prefix "runs.parquet" "meta.json" k))

  pub meta-IsUpload : IsUpload cfg g (object_key cfg.dest_prefix "meta.json") b → g.meta_payload ≡ b
  meta-IsUpload (inl (k, e)) =
      absurd (cc (object_key-Injective cfg.dest_prefix "meta.json" "workflows.parquet" k))
  meta-IsUpload (inr (inl (k, e))) =
      absurd (cc (object_key-Injective cfg.dest_prefix "meta.json" "runs.parquet" k))
  meta-IsUpload (inr (inr (k, e))) = e

-- A moment of the loop: some of its turns, the last of them with a part of its uploads.
pub data IsCut : List Turn → List Turn → Type 0 where
  before : {ts : List Turn} → IsCut [] ts
  within :
      {t u : Turn} {ts : List Turn} (puts rest : List PutOutcome)
      → t.calls.puts ≡ puts ++ rest
      → u ≡ record t { calls = record (t.calls) { puts = puts } }
      → IsCut (u ∷ []) (t ∷ ts)
  after : {t : Turn} {us ts : List Turn} → IsCut us ts → IsCut (t ∷ us) (t ∷ ts)

module _ (T : TextTools) (rules : List Rule) (P : Pyarrow) (dumps : Value → Bytes)
    (cfg : Config) where
  -- a turn computed the generation that has the bytes at the key
  pub record Origin (ts : List Turn) (k : String) (b : Bytes) : Type 0 where
    pub turn : Turn
    pub is_turn : In turn ts
    pub generation : Generation
    pub computed : IsComputed T rules P dumps cfg turn.calls generation
    pub upload : IsUpload cfg generation k b

  Origin-later :
      (t : Turn) (ts : List Turn) (k : String) (b : Bytes) → Origin ts k b → Origin (t ∷ ts) k b
  Origin-later t ts k b o = record {
    turn = o.turn;
    is_turn = inr o.is_turn;
    generation = o.generation;
    computed = o.computed;
    upload = o.upload;
  }

  turn-source :
      (t : Turn) (ts : List Turn) (s : PollState) (k : String) (b : Bytes)
      → (run_turn T rules P dumps cfg t s).store k ≡ some b
      → (s.store k ≡ some b) ⊎ Origin (t ∷ ts) k b
  unfolding run_turn
  turn-source t ts s k b h = elim (run_cycle-cases T rules P dumps cfg t.calls s.store) [
    | inl (e, n) ↦ inl (ap (λ x. x k) (sym e) ∙ h)
    | inr (g, c, stage) ↦ elim (Stage-source cfg g s.store k b _ _ stage h) [
      | inl e ↦ inl e
      | inr u ↦
          inr (record { turn = t; is_turn = inl refl; generation = g; computed = c; upload = u })
    ]
  ]

  pub loop-source :
      (running : Bool) (ts : List Turn) (s : PollState) (k : String) (b : Bytes)
      → (run_poll_loop T rules P dumps cfg running ts s).store k ≡ some b
      → (s.store k ≡ some b) ⊎ Origin ts k b
  unfolding run_poll_loop
  loop-source running [] s k b h = inl h
  loop-source false (t ∷ ts) s k b h = inl h
  loop-source true (t ∷ ts) s k b h =
      elim (loop-source (goes_on (cycle_end T rules P dumps cfg t s) t.wait) ts
        (run_turn T rules P dumps cfg t s) k b h) [
          | inl e ↦ turn-source t ts s k b e
          | inr o ↦ inr (Origin-later t ts k b o)
        ]

  -- What a turn computes does not depend on its uploads.
  uncut-IsComputed :
      (t : Turn) (puts : List PutOutcome) (g : Generation)
      → IsComputed T rules P dumps cfg (record (t.calls) { puts = puts }) g
      → IsComputed T rules P dumps cfg t.calls g
  unfolding read_ledger compute_generation
  uncut-IsComputed t puts g c = record {
    rows = c.rows;
    stats = c.stats;
    runs = c.runs;
    was_fetched = c.was_fetched;
    was_read = c.was_read;
    was_computed = c.was_computed;
  }

  uncut-last :
      (t u v : Turn) (puts : List PutOutcome) (g : Generation)
      → u ≡ record t { calls = record (t.calls) { puts = puts } }
      → v ≡ u
      → IsComputed T rules P dumps cfg v.calls g
      → IsComputed T rules P dumps cfg t.calls g
  uncut-last t u v puts g e f c =
      uncut-IsComputed t puts g (subst (λ x. IsComputed T rules P dumps cfg x.calls g) (f ∙ e) c)

  cut-turn :
      (us ts : List Turn) (v : Turn) (g : Generation)
      → IsCut us ts
      → In v us
      → IsComputed T rules P dumps cfg v.calls g
      → (t : Turn) × In t ts × IsComputed T rules P dumps cfg t.calls g
  cut-turn [] ts v g cut i c = absurd i
  cut-turn (u ∷ us) [] v g cut i c = elim cut [ ]
  cut-turn (u ∷ []) (t ∷ ts) v g (within puts rest e f) (inl h) c =
      (t, inl refl, uncut-last t u v puts g f h c)
  cut-turn (u ∷ []) (t ∷ ts) v g (within puts rest e f) (inr i) c = absurd i
  cut-turn (t ∷ us) (t' ∷ ts) v g (after cut) (inl h) c = (v, inl h, c)
  cut-turn (t ∷ us) (t' ∷ ts) v g (after cut) (inr i) c =
      let (w, j, d) = cut-turn us ts v g cut i c in (w, inr j, d)

  -- What the bucket holds at a moment of the loop.
  pub moment-source :
      (us ts : List Turn) (s : PollState) (k : String) (b : Bytes)
      → IsCut us ts
      → (run_poll_loop T rules P dumps cfg true us s).store k ≡ some b
      → (s.store k ≡ some b) ⊎ Origin ts k b
  moment-source us ts s k b cut h = elim (loop-source true us s k b h) [
    | inl e ↦ inl e
    | inr o ↦
        let (t, i, c) = cut-turn us ts o.turn o.generation cut o.is_turn o.computed in
        inr (record {
          turn = t;
          is_turn = i;
          generation = o.generation;
          computed = c;
          upload = o.upload;
        })
  ]
