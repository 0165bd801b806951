-- ===== src/Poll/Objects/Ids.antt =====
-- The ids that the objects of a turn carry, and what they tell of the turn.
use argo_workflows_exporter.Base.{
  String, ◌≡◌, ◌≢◌, sym, ap, subst, ◌∙◌, inl, inr, some, some_injective, List, [], ◌∷◌,
}
use argo_workflows_exporter.Base.Lists.{All, IsPairwise, In, All-In}
use argo_workflows_exporter.Base.Results.{Result, ok, ok_injective}
use argo_workflows_exporter.Json.{Value}
use argo_workflows_exporter.Taxonomy.{TextTools, Rule}
use argo_workflows_exporter.Storage.{Bytes, Pyarrow, object_key, read_generation_id}
use argo_workflows_exporter.Consumer.{meta_id}
use argo_workflows_exporter.Cycle.{Config, Generation}
use argo_workflows_exporter.Cycle.Publish.{IsComputed}
use argo_workflows_exporter.Cycle.Parts.{workflows-id, runs-id, computed-Parts}
use argo_workflows_exporter.Cycle.Fresh.{computed_unique}
use argo_workflows_exporter.Poll.{Turn}
use argo_workflows_exporter.Poll.Readers.{turn_id, IsOrdinary, marks_id}
use argo_workflows_exporter.Poll.Objects.{workflows-IsUpload, runs-IsUpload, meta-IsUpload, Origin}

-- Turns with different ids are told apart by them.
same_turn :
    (ts : List Turn) (t u : Turn)
    → IsPairwise (λ x y. turn_id x ≢ turn_id y) ts
    → In t ts
    → In u ts
    → turn_id t ≡ turn_id u
    → t ≡ u
same_turn [] t u p i j e = absurd i
same_turn (x ∷ xs) t u p (inl f) (inl g) e = f ∙ sym g
same_turn (x ∷ xs) t u p (inl f) (inr j) e =
    absurd (All-In (λ y. turn_id x ≢ turn_id y) xs u p.0 j (ap turn_id (sym f) ∙ e))
same_turn (x ∷ xs) t u p (inr i) (inl g) e =
    absurd (All-In (λ y. turn_id x ≢ turn_id y) xs t p.0 i (ap turn_id (sym g) ∙ sym e))
same_turn (x ∷ xs) t u p (inr i) (inr j) e = same_turn xs t u p.1 i j e

module _ (T : TextTools) (rules : List Rule) (P : Pyarrow) (dumps : Value → Bytes)
    (loads : Bytes → Result Value) (cfg : Config) where
  module _ (ts : List Turn) (ordinary : All (IsOrdinary T rules P dumps loads cfg) ts) where
    -- The bytes of a turn carry the id of the turn.
    module _ (b : Bytes) (id : String) where
      pub meta-turn_id :
          (v : Value)
          → loads b ≡ ok v
          → meta_id v ≡ some id
          → (o : Origin T rules P dumps cfg ts (object_key cfg.dest_prefix "meta.json") b)
          → turn_id o.turn ≡ id
      meta-turn_id v l e o =
          let same = meta-IsUpload cfg o.generation b o.upload in
          some_injective (
            sym (
              marks_id T rules P dumps loads cfg o.turn o.generation
                (All-In (IsOrdinary T rules P dumps loads cfg) ts o.turn ordinary o.is_turn)
                o.computed v (ap loads same ∙ l))
            ∙ e)

      pub workflows-turn_id :
          read_generation_id P b ≡ ok (some id)
          → (o : Origin T rules P dumps cfg ts (object_key cfg.dest_prefix "workflows.parquet") b)
          → turn_id o.turn ≡ id
      workflows-turn_id e o =
          let parts = computed-Parts T rules P dumps cfg o.turn.calls o.generation o.computed in
          let known = All-In (IsOrdinary T rules P dumps loads cfg) ts o.turn ordinary o.is_turn in
          some_injective (
            ok_injective (
              sym (
                workflows-id P (turn_id o.turn) known.stamped parts.rows
                  o.generation.workflows_payload parts.workflows_made)
              ∙ ap (read_generation_id P) (workflows-IsUpload cfg o.generation b o.upload)
              ∙ e))

      pub runs-turn_id :
          read_generation_id P b ≡ ok (some id)
          → (o : Origin T rules P dumps cfg ts (object_key cfg.dest_prefix "runs.parquet") b)
          → turn_id o.turn ≡ id
      runs-turn_id e o =
          let parts = computed-Parts T rules P dumps cfg o.turn.calls o.generation o.computed in
          let known = All-In (IsOrdinary T rules P dumps loads cfg) ts o.turn ordinary o.is_turn in
          some_injective (
            ok_injective (
              sym (
                runs-id P (turn_id o.turn) known.stamped parts.merged o.generation.runs_payload
                  parts.runs_made)
              ∙ ap (read_generation_id P) (runs-IsUpload cfg o.generation b o.upload)
              ∙ e))

    -- Two turns of one id computed one generation.
    pub same_generation :
        (t u : Turn) (g k : Generation)
        → IsPairwise (λ x y. turn_id x ≢ turn_id y) ts
        → In t ts
        → In u ts
        → turn_id t ≡ turn_id u
        → IsComputed T rules P dumps cfg t.calls g
        → IsComputed T rules P dumps cfg u.calls k
        → g ≡ k
    same_generation t u g k differ i j e c d =
        computed_unique T rules P dumps loads cfg u.calls g k
          (subst (λ x. IsComputed T rules P dumps cfg x.calls g) (same_turn ts t u differ i j e) c)
          d
