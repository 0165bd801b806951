-- ===== src/Poll/Recovery.antt =====
-- One turn whose calls do their part is enough, whatever went before it.
use argo_workflows_exporter.Base.{ℕ, ◌-◌, ◌<◌, ◌≡◌, refl, false, Option, some, leb, arith, List}
use argo_workflows_exporter.Base.Results.{Result, ok}
use argo_workflows_exporter.Json.{Value}
use argo_workflows_exporter.Taxonomy.{TextTools, Rule}
use argo_workflows_exporter.Sidecar.{sidecar_value}
use argo_workflows_exporter.Storage.{Bytes, Pyarrow}
use argo_workflows_exporter.Health.{
  HealthState, healthy, record_success, judge, snapshot_of, snapshot,
}
use argo_workflows_exporter.Consumer.{Publication, Moment, CycleBound}
use argo_workflows_exporter.Consumer.Read.{checked_at, fresh_result, read_generation_result}
use argo_workflows_exporter.Consumer.Selection.{IsCurrent}
use argo_workflows_exporter.Cycle.{Config, CycleEnd, completed, Generation, new_generation_id}
use argo_workflows_exporter.Cycle.Parts.{get_from, IsStamped}
use argo_workflows_exporter.Cycle.Fresh.{published, run_cycle-fresh}
use argo_workflows_exporter.Cycle.Completes.{Succeeds, run_cycle-completes}
use argo_workflows_exporter.Poll.{Turn, PollState, recorded, cycle_end, run_turn}

leb-false : (a b : ℕ) → b < a → leb a b ≡ false
leb-false a b h = ground arith

-- the answer after a success that is recent
recorded-healthy :
    (turn : Turn) (h : HealthState) (end : CycleEnd) (now : ℕ)
    → end ≡ completed
    → now - turn.finished_at < h.stale_after_seconds
    → (snapshot now (recorded end turn h)).1
      ≡ healthy (some turn.finished_wall) (now - turn.finished_at)
unfolding snapshot snapshot_of judge record_success
recorded-healthy turn h end now e l =
    rw (e, leb-false h.stale_after_seconds (now - turn.finished_at) l) refl

module _ (T : TextTools) (rules : List Rule) (P : Pyarrow) (dumps : Value → Bytes)
    (loads : Bytes → Result Value) (cfg : Config) where
  -- Let every call of one turn do its part, Parquet give back the id that it was stamped with, and
  -- `json.loads` the sidecar that the marker was written from. Whatever the bucket and the health
  -- state were before it, a reader to whom the sidecar is current then returns the turn's
  -- generation, as fresh, and for less than the limit after the end of its cycle the health state
  -- answers that the exporter is healthy.
  pub run_turn-recovers :
      (s : PollState) (turn : Turn) (g : Generation) (last_complete : Option Publication)
      (bound : Option CycleBound) (moment : Option Moment) (clock now : ℕ)
      → Succeeds T rules P dumps cfg turn.calls g
      → IsStamped P (new_generation_id turn.calls)
      → loads g.meta_payload ≡ ok (sidecar_value g.sidecar)
      → IsCurrent (sidecar_value g.sidecar) bound (checked_at moment clock)
      → now - turn.finished_at < s.health.stale_after_seconds
      → (read_generation_result P loads
            (get_from (run_turn T rules P dumps cfg turn s).store)
            cfg.dest_prefix
            last_complete
            bound
            moment
            clock
          ≡ ok (fresh_result (published g)))
        × ((snapshot now (run_turn T rules P dumps cfg turn s).health).1
            ≡ healthy (some turn.finished_wall) (now - turn.finished_at))
  unfolding run_turn
  run_turn-recovers s turn g last_complete bound moment clock now succeeds stamped decodes current
        l =
      let end = (run_cycle-completes T rules P dumps cfg turn.calls s.store).1 (g, succeeds) in
      (
        run_cycle-fresh T rules P dumps loads cfg turn.calls g s.store last_complete bound moment
            clock stamped succeeds.computed decodes current end,
        recorded-healthy turn s.health (cycle_end T rules P dumps cfg turn s) now end l,
      )
