-- ===== src/Poll/Marker.antt =====
-- The marker in the bucket through the turns of the loop.
use argo_workflows_exporter.Base.{
  ◌≡◌, refl, ◌∙◌, ◌⊎◌, inl, inr, Bool, true, false, Option, some, List, [], ◌∷◌,
}
use argo_workflows_exporter.Json.{Value}
use argo_workflows_exporter.Taxonomy.{TextTools, Rule}
use argo_workflows_exporter.Storage.{Bytes, Pyarrow, object_key}
use argo_workflows_exporter.Cycle.{Config, Generation}
use argo_workflows_exporter.Cycle.Publish.{IsComputed}
use argo_workflows_exporter.Cycle.Commit.{Holds, run_cycle-commit}
use argo_workflows_exporter.Poll.{Turn, PollState, goes_on, cycle_end, run_turn, run_poll_loop}
use argo_workflows_exporter.Poll.Healthy.{IsTaken}

module _ (T : TextTools) (rules : List Rule) (P : Pyarrow) (dumps : Value → Bytes)
    (cfg : Config) where
  abbrev pub marker_of : PollState → Option Bytes
  marker_of s = s.store (object_key cfg.dest_prefix "meta.json")

  -- the marker of a generation whose three objects a turn of the loop left in the bucket
  pub record IsMarked (running : Bool) (ts : List Turn) (start : PollState) (marker : Option Bytes)
      : Type 0 where
    pub turn : Turn
    pub before : PollState
    pub taken : IsTaken T rules P dumps cfg turn before running ts start
    pub generation : Generation
    pub computed : IsComputed T rules P dumps cfg turn.calls generation
    pub held : Holds cfg generation (run_turn T rules P dumps cfg turn before).store
    pub is_marker : marker ≡ some generation.meta_payload

  later-IsMarked :
      (t : Turn) (ts : List Turn) (s : PollState) (marker : Option Bytes)
      → IsMarked
          (goes_on (cycle_end T rules P dumps cfg t s) t.wait)
          ts
          (run_turn T rules P dumps cfg t s)
          marker
      → IsMarked true (t ∷ ts) s marker
  later-IsMarked t ts s marker m = record {
    turn = m.turn;
    before = m.before;
    taken = inr m.taken;
    generation = m.generation;
    computed = m.computed;
    held = m.held;
    is_marker = m.is_marker;
  }

  run_turn-IsMarked :
      (t : Turn) (ts : List Turn) (s : PollState) (marker : Option Bytes)
      → marker ≡ marker_of (run_turn T rules P dumps cfg t s)
      → (marker ≡ marker_of s) ⊎ IsMarked true (t ∷ ts) s marker
  unfolding run_turn
  run_turn-IsMarked t ts s marker h = elim (run_cycle-commit T rules P dumps cfg t.calls s.store) [
    | inl (m, n) ↦ inl (h ∙ m)
    | inr (g, computed, held) ↦ inr (record {
      turn = t;
      before = s;
      taken = inl (refl, refl);
      generation = g;
      computed = computed;
      held = held;
      is_marker = h ∙ held.meta_held;
    })
  ]

  -- Through any turns of the loop, with every failure and kill, `meta.json` is the one that the loop
  -- began with, or that of a generation which one of these turns, that the loop came to, computed
  -- and whose three objects it left in the bucket together.
  pub run_poll_loop-IsMarked :
      (start : PollState) (running : Bool) (ts : List Turn)
      → (marker_of (run_poll_loop T rules P dumps cfg running ts start) ≡ marker_of start)
        ⊎ IsMarked running ts start (marker_of (run_poll_loop T rules P dumps cfg running ts start))
  unfolding run_poll_loop
  run_poll_loop-IsMarked start running [] = inl refl
  run_poll_loop-IsMarked start false (t ∷ ts) = inl refl
  run_poll_loop-IsMarked start true (t ∷ ts) =
      elim (run_poll_loop-IsMarked (run_turn T rules P dumps cfg t start)
        (goes_on (cycle_end T rules P dumps cfg t start) t.wait) ts) [
          | inl e ↦ run_turn-IsMarked t ts start _ e
          | inr m ↦ inr (later-IsMarked t ts start _ m)
        ]
