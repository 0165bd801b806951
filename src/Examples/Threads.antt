-- ===== src/Examples/Threads.antt =====
-- The theorem on the threads of a health state, at a run in which a thread asks while another one
-- records a success.
use native.Mathlib.Decide.{ℕ_discrete}
use argo_workflows_exporter.Base.{◌≡◌, refl, false, none, some, ℕ}
use argo_workflows_exporter.Health.{HealthState, initial, snapshot_of}
use argo_workflows_exporter.Health.Threads.{
  Memory, Pc, Move, call_record, read_wall, lock_record, write_last, write_wall, unlock_record,
  set_ready, call_snapshot, lock_snapshot, read_last, read_last_wall, unlock_snapshot, answer,
  System, pick, Reach, here, later,
}
use argo_workflows_exporter.Health.Threads.Linear.{IsLinear, Reach-IsLinear}

abbrev fresh_state : HealthState
fresh_state = initial 300 none

abbrev Ran : Type 0
Ran = (s : System) × Reach fresh_state s

abbrev move : (r : Ran) (i : ℕ) {m : Memory} {p : Pc} → Move 600 r.0.mem (r.0.pc i) m p → Ran
move r i mv = (_, later r.1 (pick i mv))

-- thread 1 asks and finds that there is no success yet
abbrev asked : Ran
unfolding ℕ_discrete
asked =
    let a = move (_, here) 1 (call_snapshot 90) in
    let b = move a 1 (lock_snapshot refl) in
    let c = move b 1 read_last in let d = move c 1 read_last_wall in move d 1 unlock_snapshot

-- thread 0 records a success, and only then does thread 1 clear the flag and return
abbrev raced : Ran
unfolding ℕ_discrete
raced =
    let a = move asked 0 (call_record 100) in
    let b = move a 0 (read_wall 5000) in
    let c = move b 0 (lock_record refl) in
    let d = move c 0 write_last in
    let e = move d 0 write_wall in
    let f = move e 0 unlock_record in let g = move f 0 set_ready in move g 1 answer

-- The flag is not set although the success is recent; the answers do not read it.
flag_lost : (raced.0.mem.ready ≡ false) × (raced.0.mem.last_success ≡ some 100)
unfolding ℕ_discrete snapshot_of
flag_lost = (refl, refl)

Reach-IsLinear_example : IsLinear fresh_state raced.0
Reach-IsLinear_example = Reach-IsLinear fresh_state raced.0 raced.1
