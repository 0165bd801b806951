-- ===== src/Poll.antt =====
-- `_run_poll_loop` of src/main.py: cycles that do not overlap, until the process is told to stop or
-- is killed. The outcomes of each turn are an argument, as are those of the calls of its cycle.
pub mod Healthy
pub mod Marker
pub mod Readers
pub mod Recovery
pub mod Objects
use argo_workflows_exporter.Base.{ℕ, Bool, true, false, not, List, [], ◌∷◌}
use argo_workflows_exporter.Base.Results.{Result, ok, err}
use argo_workflows_exporter.Json.{Value}
use argo_workflows_exporter.Taxonomy.{TextTools, Rule}
use argo_workflows_exporter.Storage.{Bytes, Pyarrow}
use argo_workflows_exporter.Health.{HealthState, record_success}
use argo_workflows_exporter.Cycle.{
  Store, Config, Calls, CycleEnd, completed, unanswered, raised, killed, run_cycle,
}

-- One turn: what the calls of its cycle come to, what the two clocks answer when the cycle returns,
-- and what its wait comes to: whether `stop` is set when it is over, or the exception that it raises
-- (`OverflowError` for a time that no lock can wait), which the loop lets through.
pub record Turn : Type 0 where
  pub calls : Calls
  pub finished_at : ℕ
  pub finished_wall : ℕ
  pub wait : Result Bool

-- the bucket, and the health state of the process
pub record PollState : Type 0 where
  pub store : Store
  pub health : HealthState

-- `if _run_cycle(cfg, s3)`: every other end leaves the health state as it is
abbrev pub recorded : CycleEnd → Turn → HealthState → HealthState
recorded completed turn health = record_success turn.finished_at turn.finished_wall health
recorded (unanswered f) turn health = health
recorded (raised e f) turn health = health
recorded killed turn health = health

-- whether the loop goes on
abbrev pub goes_on : CycleEnd → Result Bool → Bool
goes_on killed wait = false
goes_on end (err e) = false
goes_on end (ok is_set) = not is_set

module _ (T : TextTools) (rules : List Rule) (P : Pyarrow) (dumps : Value → Bytes)
    (cfg : Config) where
  abbrev pub cycle_end : Turn → PollState → CycleEnd
  cycle_end turn s = (run_cycle T rules P dumps cfg turn.calls s.store).1

  -- the body of the loop
  unfoldable pub run_turn : Turn → PollState → PollState
  run_turn turn s = record {
    store = (run_cycle T rules P dumps cfg turn.calls s.store).0;
    health = recorded (cycle_end turn s) turn s.health;
  }

  -- the loop, where `running` is `not stop.is_set()`
  unfoldable pub run_poll_loop : Bool → List Turn → PollState → PollState
  run_poll_loop running [] s = s
  run_poll_loop false (turn ∷ turns) s = s
  run_poll_loop true (turn ∷ turns) s =
      run_poll_loop (goes_on (cycle_end turn s) turn.wait) turns (run_turn turn s)
