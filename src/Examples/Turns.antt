-- ===== src/Examples/Turns.antt =====
-- The theorems on the poll loop, on a loop of one turn that publishes a generation.
use argo_workflows_exporter.Base.Int.{pos}
use argo_workflows_exporter.Base.Results.{ok, ok_injective}
use argo_workflows_exporter.Sidecar.{Sidecar, sidecar_value}
use argo_workflows_exporter.Consumer.{aware, whole, meta_id}
use argo_workflows_exporter.Consumer.Read.{fresh_result, read_generation_result}
use argo_workflows_exporter.Cycle.Parts.{get_from}
use argo_workflows_exporter.Cycle.Atomic.{IsStored}
use argo_workflows_exporter.Cycle.Fresh.{published, run_cycle-fresh}
use argo_workflows_exporter.Base.{
  arith, ◌≡◌, sym, ap, ◌∙◌, refl, ◌⊎◌, true, none, some, List, [], ◌∷◌, ℕ, ◌≢◌, some_injective,
}
use argo_workflows_exporter.Storage.{object_key, Bytes, read_generation_id}
use argo_workflows_exporter.Cycle.{write}
use argo_workflows_exporter.Poll.Recovery.{run_turn-recovers}
use argo_workflows_exporter.Poll.Objects.{IsCut}
use argo_workflows_exporter.Poll.Objects.Untorn.{IsAlien, IsGeneration, read-IsGeneration}
use argo_workflows_exporter.Examples.Data.{
  old_id, plain_text, oom_rules, pyarrow, dumps, config, calls, old_store, loads, new_generation,
  new_id, new_sidecar,
}
use argo_workflows_exporter.Poll.Readers.{IsOrdinary, IsLeft, run_poll_loop-atomic}
use argo_workflows_exporter.Health.{initial, record_success, healthy, snapshot, snapshot_of, judge}
use argo_workflows_exporter.Poll.{Turn, PollState, run_turn, run_poll_loop}
use argo_workflows_exporter.Poll.Healthy.{IsPublished, run_poll_loop-healthy}
use argo_workflows_exporter.Poll.Marker.{IsMarked, marker_of, run_poll_loop-IsMarked}
use argo_workflows_exporter.Examples.Facts.{
  cycle-end, stamped, computed, clock, current, calls-IsNew, succeeds, old≢new,
}

abbrev pub begin : PollState
begin = record { store = old_store; health = initial 300 none }

abbrev the_turn : Turn
the_turn = record { calls = calls; finished_at = 100; finished_wall = 5000; wait = ok true }

abbrev pub one_turn : List Turn
one_turn = the_turn ∷ []

is_healthy :
    (snapshot 250
      (run_poll_loop plain_text oom_rules pyarrow dumps config true one_turn begin).health).1
    ≡ healthy (some 5000) 150
unfolding run_poll_loop run_turn snapshot snapshot_of judge record_success
is_healthy = rw cycle-end refl

run_poll_loop-healthy_example :
    IsPublished plain_text oom_rules pyarrow dumps config true one_turn begin 250 600 150
run_poll_loop-healthy_example =
    run_poll_loop-healthy plain_text oom_rules pyarrow dumps config begin true one_turn 250 150
      (some 5000) refl is_healthy

run_poll_loop-IsMarked_example :
    (marker_of plain_text oom_rules pyarrow dumps config
        (run_poll_loop plain_text oom_rules pyarrow dumps config true one_turn begin)
      ≡ marker_of plain_text oom_rules pyarrow dumps config begin)
    ⊎ IsMarked plain_text oom_rules pyarrow dumps config true one_turn begin (
        marker_of plain_text oom_rules pyarrow dumps config
          (run_poll_loop plain_text oom_rules pyarrow dumps config true one_turn begin))
run_poll_loop-IsMarked_example =
    run_poll_loop-IsMarked plain_text oom_rules pyarrow dumps config begin true one_turn

meta_id-sidecar : (c : Sidecar) → c.generation_id ≡ new_id → meta_id (sidecar_value c) ≡ some new_id
unfolding meta_id
meta_id-sidecar c e = rw e refl

ordinary : IsOrdinary plain_text oom_rules pyarrow dumps loads config the_turn
ordinary = record {
  stamped = stamped;
  decoded = λ c v e l.
      ap meta_id (sym (ok_injective l))
      ∙ meta_id-sidecar new_sidecar refl
      ∙ sym (meta_id-sidecar c e);
}

is_read :
    read_generation_result pyarrow loads
      (get_from (run_poll_loop plain_text oom_rules pyarrow dumps config true one_turn begin).store)
      "argo"
      none
      (some (whole (pos 60)))
      (some (aware clock))
      0
    ≡ ok (fresh_result (published new_generation))
unfolding run_poll_loop run_turn
is_read =
    run_cycle-fresh plain_text oom_rules pyarrow dumps loads config calls new_generation old_store
      none (some (whole (pos 60))) (some (aware clock)) 0 stamped computed refl current cycle-end

run_poll_loop-atomic_example :
    IsStored loads config (published new_generation) begin.store
    ⊎ IsLeft plain_text oom_rules pyarrow dumps loads config true one_turn begin
        (published new_generation)
run_poll_loop-atomic_example =
    run_poll_loop-atomic plain_text oom_rules pyarrow dumps loads config begin true one_turn none
      (some (whole (pos 60))) (some (aware clock)) 0 (published new_generation) (ordinary, tt)
      (calls-IsNew, tt) (tt, tt) is_read

-- a cycle before it was killed between its uploads
abbrev torn : PollState
torn = record {
  store = write (object_key "argo" "workflows.parquet") (1 ∷ []) old_store;
  health = initial 300 none;
}

run_turn-recovers_example :
    (read_generation_result pyarrow loads
        (get_from (run_turn plain_text oom_rules pyarrow dumps config the_turn torn).store)
        "argo"
        none
        (some (whole (pos 60)))
        (some (aware clock))
        0
      ≡ ok (fresh_result (published new_generation)))
    × ((snapshot 250 (run_turn plain_text oom_rules pyarrow dumps config the_turn torn).health).1
        ≡ healthy (some 5000) 150)
run_turn-recovers_example =
    run_turn-recovers plain_text oom_rules pyarrow dumps loads config torn the_turn new_generation
      none (some (whole (pos 60))) (some (aware clock)) 0 250 succeeds stamped refl current
      (omega arith)

old_bytes-id : read_generation_id pyarrow (0 ∷ []) ≡ ok (some old_id)
unfolding read_generation_id
old_bytes-id = refl

not_new_id : (b : Bytes) → some (0 ∷ []) ≡ some b → read_generation_id pyarrow b ≢ ok (some new_id)
not_new_id b h e =
    let same : ok (some old_id) ≡ ok (some new_id) =
      sym old_bytes-id ∙ ap (read_generation_id pyarrow) (some_injective h) ∙ e in
    old≢new (some_injective (ok_injective same))

alien : IsAlien plain_text oom_rules pyarrow dumps loads config old_store new_id
unfolding object_key
alien = record { marker_new = calls-IsNew; workflows_new = not_new_id; runs_new = not_new_id }

-- all three calls fall on the moment after the turn
abbrev cuts : ℕ → List Turn
cuts i = one_turn

read-IsGeneration_example :
    IsStored loads config (published new_generation) begin.store
    ⊎ IsGeneration plain_text oom_rules pyarrow dumps loads config one_turn
        (published new_generation)
read-IsGeneration_example =
    read-IsGeneration plain_text oom_rules pyarrow dumps loads config begin one_turn cuts none
      (some (whole (pos 60))) (some (aware clock)) 0 (published new_generation)
      (λ i. IsCut.after IsCut.before) (ordinary, tt) (alien, tt) (tt, tt) is_read
