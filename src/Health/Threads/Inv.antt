-- ===== src/Health/Threads/Inv.antt =====
-- What the threads and the calls say about the fields, true at the start and kept by every move.
use argo_workflows_exporter.Base.{
  ℕ, ◌≡◌, refl, ap, ◌∙◌, Bool, true, false, Option, none, some, List, [], ◌∷◌, arith, ◌-◌, leb,
}
use argo_workflows_exporter.Base.Lists.{In}
use argo_workflows_exporter.Health.{
  HealthState, judge, snapshot_of, reset, record_success, snapshot,
}
use argo_workflows_exporter.Health.Threads.{
  Event, did_reset, did_record, did_answer, Memory, Pc, record_locked, record_half, record_written,
  reset_locked, reset_half, reset_written, ask_locked, ask_half, ask_read, judging, answered,
  verdict, System, at_rest, effect, replay, IsSequential,
}

-- between the entry to the lock and its release
abbrev pub critical : Pc → Bool
critical (record_locked now wall_now) = true
critical (record_half now wall_now) = true
critical (record_written now wall_now) = true
critical reset_locked = true
critical reset_half = true
critical reset_written = true
critical (ask_locked now) = true
critical (ask_half now last) = true
critical (ask_read now last wall) = true
critical _ = false

-- the fields are those of the state that the calls lead to
abbrev pub Settled : Memory → HealthState → Type 0
Settled m s = (m.last_success ≡ s.last_success) × (m.last_success_wall ≡ s.last_success_wall)

-- what the owner of the lock knows of the fields
abbrev pub Owned : Memory → HealthState → Pc → Type 0
Owned m s (record_locked now wall_now) = Settled m s
Owned m s (record_half now wall_now) = m.last_success ≡ some now
Owned m s (record_written now wall_now) =
    (m.last_success ≡ some now) × (m.last_success_wall ≡ some wall_now)
Owned m s reset_locked = Settled m s
Owned m s reset_half = m.last_success ≡ none
Owned m s reset_written = (m.last_success ≡ none) × (m.last_success_wall ≡ none)
Owned m s (ask_locked now) = Settled m s
Owned m s (ask_half now last) = Settled m s × (last ≡ s.last_success)
Owned m s (ask_read now last wall) =
    Settled m s × (last ≡ s.last_success) × (wall ≡ s.last_success_wall)
Owned m s _ = Unit

-- an answer stands in the list of the calls
abbrev pub Listed : ℕ → List Event → Pc → Type 0
Listed limit es (judging now last wall) = In (did_answer now (verdict limit now last wall)) es
Listed limit es (answered now h) = In (did_answer now h) es
Listed limit es _ = Unit

pub record Inv (start : HealthState) (s : System) : Type 0 where
  pub exclusive : (i j : ℕ) → critical (s.pc i) ≡ true → critical (s.pc j) ≡ true → i ≡ j
  pub free : (i : ℕ) → s.mem.locked ≡ false → critical (s.pc i) ≡ false
  pub settled : s.mem.locked ≡ false → Settled s.mem (replay start s.mem.calls)
  pub owned : (i : ℕ) → Owned s.mem (replay start s.mem.calls) (s.pc i)
  pub listed : (i : ℕ) → Listed start.stale_after_seconds s.mem.calls (s.pc i)
  pub sequential : IsSequential start s.mem.calls

pub at_rest-Inv : (start : HealthState) → Inv start (at_rest start)
at_rest-Inv start = record {
  exclusive = λ i j p q. cc;
  free = λ i p. refl;
  settled = λ p. (refl, refl);
  owned = λ i. tt;
  listed = λ i. tt;
  sequential = tt;
}

-- `snapshot` keeps the fields, and its answer is a function of them.
module _ (now : ℕ) (s : HealthState) where
  judge-fields :
      (b : Bool) (age : ℕ)
      → ((judge b age s).0.last_success ≡ s.last_success)
        × ((judge b age s).0.last_success_wall ≡ s.last_success_wall)
        × ((judge b age s).0.stale_after_seconds ≡ s.stale_after_seconds)
  unfolding judge
  judge-fields true age = (refl, refl, refl)
  judge-fields false age = (refl, refl, refl)

  pub snapshot_of-fields :
      (o : Option ℕ)
      → ((snapshot_of o now s).0.last_success ≡ s.last_success)
        × ((snapshot_of o now s).0.last_success_wall ≡ s.last_success_wall)
        × ((snapshot_of o now s).0.stale_after_seconds ≡ s.stale_after_seconds)
  unfolding snapshot_of
  snapshot_of-fields none = (refl, refl, refl)
  snapshot_of-fields (some last) = judge-fields _ _

  judge_answer :
      (b : Bool) (age : ℕ) (t : HealthState)
      → s.last_success_wall ≡ t.last_success_wall
      → (judge b age s).1 ≡ (judge b age t).1
  unfolding judge
  judge_answer true age t e = ground arith
  judge_answer false age t e = ground arith

  snapshot_of_answer :
      (o : Option ℕ) (t : HealthState)
      → s.last_success_wall ≡ t.last_success_wall
      → s.stale_after_seconds ≡ t.stale_after_seconds
      → (snapshot_of o now s).1 ≡ (snapshot_of o now t).1
  unfolding snapshot_of
  snapshot_of_answer none t e f = refl
  snapshot_of_answer (some last) t e f =
      judge_answer (leb s.stale_after_seconds (now - last)) (now - last) t e
      ∙ ap (λ limit. (judge (leb limit (now - last)) (now - last) t).1) f

  pub snapshot-verdict :
      (snapshot now s).1 ≡ verdict s.stale_after_seconds now s.last_success s.last_success_wall
  unfolding snapshot
  snapshot-verdict = snapshot_of_answer s.last_success _ refl refl

effect-limit :
    (e : Event) (s : HealthState) → (effect e s).stale_after_seconds ≡ s.stale_after_seconds
unfolding reset record_success snapshot
effect-limit did_reset s = refl
effect-limit (did_record now wall_now) s = refl
effect-limit (did_answer now h) s = (snapshot_of-fields now s s.last_success).2

pub replay-limit :
    (start : HealthState) (es : List Event)
    → (replay start es).stale_after_seconds ≡ start.stale_after_seconds
replay-limit start [] = refl
replay-limit start (e ∷ es) = effect-limit e (replay start es) ∙ replay-limit start es
