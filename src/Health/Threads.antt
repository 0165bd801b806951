-- ===== src/Health/Threads.antt =====
-- `_HealthState` of src/main.py under threads: the poll loop records successes while every request
-- of the health endpoint has a thread of its own. A move is one access to the object, to its lock
-- or to the flag `_ready`; what a clock answers is left open.
mod Inv
mod Moves
mod Records
pub mod Linear
use mathlib.Core.Logic.{ite}
use native.Mathlib.Decide.{ℕ_discrete}
use argo_workflows_exporter.Base.{ℕ, ◌≡◌, Bool, true, false, Option, none, some, List, [], ◌∷◌}
use argo_workflows_exporter.Health.{
  HealthState, Health, starting, stale, healthy, snapshot_of, reset, record_success, snapshot,
}

-- a call as it took effect, with what it returned
pub data Event : Type 0 where
  did_reset : Event
  did_record : ℕ → ℕ → Event
  did_answer : ℕ → Health → Event

-- What the threads share. `calls` is a record of the calls in the order in which they left the
-- lock, the last one first; the code does not have it.
pub record Memory : Type 0 where
  pub last_success : Option ℕ
  pub last_success_wall : Option ℕ
  pub ready : Bool
  pub locked : Bool
  pub calls : List Event

-- where a thread stands, with its local variables
pub data Pc : Type 0 where
  idle : Pc
  -- `record_success`: before the second clock, before the lock, in it, and before `_ready.set()`
  timed : (now : ℕ) → Pc
  recording : (now wall_now : ℕ) → Pc
  record_locked : (now wall_now : ℕ) → Pc
  record_half : (now wall_now : ℕ) → Pc
  record_written : (now wall_now : ℕ) → Pc
  record_released : Pc
  -- `reset`
  resetting : Pc
  reset_locked : Pc
  reset_half : Pc
  reset_written : Pc
  reset_released : Pc
  -- `snapshot`: before the lock, in it, after it, and with the answer
  asking : (now : ℕ) → Pc
  ask_locked : (now : ℕ) → Pc
  ask_half : (now : ℕ) (last_success : Option ℕ) → Pc
  ask_read : (now : ℕ) (last_success last_success_wall : Option ℕ) → Pc
  judging : (now : ℕ) (last_success last_success_wall : Option ℕ) → Pc
  answered : (now : ℕ) (answer : Health) → Pc

-- what `snapshot` returns, from its local variables
abbrev pub verdict : ℕ → ℕ → Option ℕ → Option ℕ → Health
verdict limit now last wall =
    (snapshot_of last now (record {
      stale_after_seconds = limit;
      last_success = last;
      last_success_wall = wall;
      ready = false;
    })).1

-- the flag after `snapshot` has returned
abbrev pub ready_after : Health → Bool → Bool
ready_after starting ready = false
ready_after (stale wall age) ready = false
ready_after (healthy wall age) ready = ready

-- One move of one thread, where `limit` is `stale_after_seconds`.
pub data Move (limit : ℕ) (m : Memory) : Pc → Memory → Pc → Type 0 where
  call_record : (now : ℕ) → Move limit m idle m (timed now)
  read_wall : {now : ℕ} (wall_now : ℕ) → Move limit m (timed now) m (recording now wall_now)
  lock_record :
      {now wall_now : ℕ}
      → m.locked ≡ false
      → Move limit m
          (recording now wall_now)
          (record m { locked = true })
          (record_locked now wall_now)
  write_last :
      {now wall_now : ℕ}
      → Move limit m
          (record_locked now wall_now)
          (record m { last_success = some now })
          (record_half now wall_now)
  write_wall :
      {now wall_now : ℕ}
      → Move limit m
          (record_half now wall_now)
          (record m { last_success_wall = some wall_now })
          (record_written now wall_now)
  unlock_record :
      {now wall_now : ℕ}
      → Move limit m
          (record_written now wall_now)
          (record m { locked = false; calls = did_record now wall_now ∷ m.calls })
          record_released
  set_ready : Move limit m record_released (record m { ready = true }) idle
  call_reset : Move limit m idle m resetting
  lock_reset : m.locked ≡ false → Move limit m resetting (record m { locked = true }) reset_locked
  erase_last : Move limit m reset_locked (record m { last_success = none }) reset_half
  erase_wall : Move limit m reset_half (record m { last_success_wall = none }) reset_written
  unlock_reset :
      Move limit m reset_written
        (record m { locked = false; calls = did_reset ∷ m.calls })
        reset_released
  clear_ready : Move limit m reset_released (record m { ready = false }) idle
  call_snapshot : (now : ℕ) → Move limit m idle m (asking now)
  lock_snapshot :
      {now : ℕ}
      → m.locked ≡ false
      → Move limit m (asking now) (record m { locked = true }) (ask_locked now)
  read_last : {now : ℕ} → Move limit m (ask_locked now) m (ask_half now m.last_success)
  read_last_wall :
      {now : ℕ} {last : Option ℕ}
      → Move limit m (ask_half now last) m (ask_read now last m.last_success_wall)
  unlock_snapshot :
      {now : ℕ} {last wall : Option ℕ}
      → Move limit m
          (ask_read now last wall)
          (record m {
            locked = false;
            calls = did_answer now (verdict limit now last wall) ∷ m.calls;
          })
          (judging now last wall)
  answer :
      {now : ℕ} {last wall : Option ℕ}
      → Move limit m
          (judging now last wall)
          (record m { ready = ready_after (verdict limit now last wall) m.ready })
          (answered now (verdict limit now last wall))
  leave : {now : ℕ} {h : Health} → Move limit m (answered now h) m idle

pub record System : Type 0 where
  pub mem : Memory
  pub pc : ℕ → Pc

abbrev pub update {ℓ} : {A : Type ℓ} → (ℕ → A) → ℕ → A → ℕ → A
update f i a j = ite (ℕ_discrete i j) a (f j)

pub data Step (limit : ℕ) (s : System) : System → Type 0 where
  pick :
      (i : ℕ) {m : Memory} {p : Pc}
      → Move limit s.mem (s.pc i) m p
      → Step limit s (record { mem = m; pc = update s.pc i p })

-- a health state at rest: no thread is in a call, and none has been
abbrev pub at_rest : HealthState → System
at_rest s = record {
  mem = record {
    last_success = s.last_success;
    last_success_wall = s.last_success_wall;
    ready = s.ready;
    locked = false;
    calls = [];
  };
  pc = λ _. Pc.idle;
}

pub data Reach (start : HealthState) : System → Type 0 where
  here : Reach start (at_rest start)
  later : {s t : System} → Reach start s → Step start.stale_after_seconds s t → Reach start t

-- The same calls one after another.
abbrev pub effect : Event → HealthState → HealthState
effect did_reset s = reset s
effect (did_record now wall_now) s = record_success now wall_now s
effect (did_answer now h) s = (snapshot now s).0

abbrev pub replay : HealthState → List Event → HealthState
replay start [] = start
replay start (e ∷ es) = effect e (replay start es)

-- Each snapshot returned what it returns in that sequence.
abbrev pub IsSequential : HealthState → List Event → Type 0
IsSequential start [] = Unit
IsSequential start (did_reset ∷ es) = IsSequential start es
IsSequential start (did_record now wall_now ∷ es) = IsSequential start es
IsSequential start (did_answer now h ∷ es) =
    (h ≡ (snapshot now (replay start es)).1) × IsSequential start es
