-- ===== src/Health.antt =====
-- `_HealthState` of src/main.py. `now` and `wall_now` are what the two clocks answer, in whole
-- seconds where the code has floats. The calls run one after another (Threads has them interleaved),
-- and the object is the only one that sets the flag `_ready`.
pub mod Ready
pub mod History
pub mod Healthy
pub mod Endpoint
pub mod Threads
use argo_workflows_exporter.Base.{ℕ, ◌-◌, ◌*◌, Bool, true, false, Option, none, some, leb}

-- the fields of the object that its methods change, and the flag `_ready` of the module
pub record HealthState : Type 0 where
  pub stale_after_seconds : ℕ
  pub last_success : Option ℕ
  pub last_success_wall : Option ℕ
  pub ready : Bool

-- the JSON object of a response, with its status
pub data Health : Type 0 where
  starting : Health
  stale : Option ℕ → ℕ → Health
  healthy : Option ℕ → ℕ → Health

-- the HTTP status of `snapshot`
abbrev pub status_code : Health → ℕ
status_code starting = 503
status_code (stale wall age) = 503
status_code (healthy wall age) = 200

abbrev stale_after : ℕ → Option ℕ → ℕ
stale_after poll_interval_seconds none = poll_interval_seconds * 2
stale_after poll_interval_seconds (some seconds) = seconds

-- `__init__`, in a process whose flag is not set
abbrev pub initial : ℕ → Option ℕ → HealthState
initial poll_interval_seconds seconds = record {
  stale_after_seconds = stale_after poll_interval_seconds seconds;
  last_success = none;
  last_success_wall = none;
  ready = false;
}

unfoldable pub reset : HealthState → HealthState
reset s = record (s) { last_success = none; last_success_wall = none; ready = false }

unfoldable pub record_success : ℕ → ℕ → HealthState → HealthState
record_success now wall_now s = record (s) {
  last_success = some now;
  last_success_wall = some wall_now;
  ready = true;
}

abbrev cleared : HealthState → HealthState
cleared s = record (s) { ready = false }

-- the test of the age, `max(0.0, now - last_success)`; `round(age, 3)`, which the answer has, is the
-- age itself where that is a whole number of seconds
unfoldable pub judge : Bool → ℕ → HealthState → HealthState × Health
judge true age s = (cleared s, stale s.last_success_wall age)
judge false age s = (s, healthy s.last_success_wall age)

unfoldable pub snapshot_of : Option ℕ → ℕ → HealthState → HealthState × Health
snapshot_of none now s = (cleared s, starting)
snapshot_of (some last) now s = judge (leb s.stale_after_seconds (now - last)) (now - last) s

unfoldable pub snapshot : ℕ → HealthState → HealthState × Health
snapshot now s = snapshot_of s.last_success now s
