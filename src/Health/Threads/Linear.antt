-- ===== src/Health/Threads/Linear.antt =====
-- The threads of the health endpoint and of the poll loop, seen as calls one after another.
use argo_workflows_exporter.Base.{ℕ, ◌≡◌, ◌⊎◌, inl, inr, Bool-cases, true, List}
use argo_workflows_exporter.Base.Lists.{In}
use argo_workflows_exporter.Health.{HealthState, Health, starting, stale, healthy}
use argo_workflows_exporter.Health.Threads.{
  Event, did_answer, Pc, judging, answered, System, Reach, replay, IsSequential,
}
use argo_workflows_exporter.Health.Threads.Inv.{critical, Settled, Listed}
use argo_workflows_exporter.Health.Threads.Records.{IsTimely, In-IsTimely}
use argo_workflows_exporter.Health.Threads.Moves.{Reach-Inv}

-- the answer that a thread has returned is one of these calls
abbrev pub Returned : List Event → Pc → Type 0
Returned calls (answered now h) = In (did_answer now h) calls
Returned calls _ = Unit

Listed-Returned :
    (limit : ℕ) (calls : List Event) (p : Pc) → Listed limit calls p → Returned calls p
Listed-Returned limit calls (answered now h) l = l
Listed-Returned limit calls (judging now last wall) l = tt
Listed-Returned limit calls _ l = tt

abbrev pub AnswerIsTimely : HealthState → List Event → ℕ → Health → Type 0
AnswerIsTimely start calls now starting = Unit
AnswerIsTimely start calls now (stale wall age) = Unit
AnswerIsTimely start calls now (healthy wall age) = IsTimely start calls now wall age

-- a healthy answer that a thread has returned is of one success, which is recent
abbrev pub PcIsTimely : HealthState → List Event → Pc → Type 0
PcIsTimely start calls (answered now h) = AnswerIsTimely start calls now h
PcIsTimely start calls _ = Unit

Answer-IsTimely :
    (start : HealthState) (calls : List Event) (now : ℕ) (h : Health)
    → IsSequential start calls
    → In (did_answer now h) calls
    → AnswerIsTimely start calls now h
Answer-IsTimely start calls now starting s i = tt
Answer-IsTimely start calls now (stale wall age) s i = tt
Answer-IsTimely start calls now (healthy wall age) s i = In-IsTimely start calls now age wall s i

Pc-IsTimely :
    (start : HealthState) (calls : List Event) (p : Pc)
    → IsSequential start calls
    → Returned calls p
    → PcIsTimely start calls p
Pc-IsTimely start calls (answered now h) s r = Answer-IsTimely start calls now h s r
Pc-IsTimely start calls (judging now last wall) s r = tt
Pc-IsTimely start calls _ s r = tt

pub record IsLinear (start : HealthState) (s : System) : Type 0 where
  pub sequential : IsSequential start s.mem.calls
  pub returned : (i : ℕ) → Returned s.mem.calls (s.pc i)
  pub timely : (i : ℕ) → PcIsTimely start s.mem.calls (s.pc i)
  pub settled : (s.mem.locked ≡ true) ⊎ Settled s.mem (replay start s.mem.calls)

-- However any number of threads interleave their calls of one health state, each move one access:
-- in the sequence of the calls that have left the lock, run one after another from the start, each
-- snapshot gives the answer that it gave; every answer that a thread has returned is one of these;
-- a healthy one gives the age and the wall time of one and the same success, which was there at the
-- start or was recorded by one of the calls, less than the limit before; and while no thread holds
-- the lock both fields are those that the sequence leaves.
pub Reach-IsLinear : (start : HealthState) (s : System) → Reach start s → IsLinear start s
Reach-IsLinear start s r =
    let inv = Reach-Inv r in
    let listed =
      λ (i : ℕ). Listed-Returned start.stale_after_seconds s.mem.calls (s.pc i) (inv.listed i) in
    record {
      sequential = inv.sequential;
      returned = listed;
      timely = λ i. Pc-IsTimely start s.mem.calls (s.pc i) inv.sequential (listed i);
      settled = elim (Bool-cases s.mem.locked) [ inl e ↦ inl e | inr e ↦ inr (inv.settled e) ];
    }

-- No two threads are between their entry to the lock and its release.
mutual_exclusion :
    (start : HealthState) (s : System) (i j : ℕ)
    → Reach start s
    → critical (s.pc i) ≡ true
    → critical (s.pc j) ≡ true
    → i ≡ j
mutual_exclusion start s i j r = (Reach-Inv r).exclusive i j
