-- ===== src/Poll/Healthy.antt =====
-- What a healthy answer of the exporter says about the bucket.
use argo_workflows_exporter.Base.{
  ℕ, ◌-◌, ◌<◌, ◌≡◌, ◌≢◌, refl, sym, subst, ◌∙◌, ◌⊎◌, inl, inr, Bool, true, false, Option, none,
  some, some_injective, List, [], ◌∷◌,
}
use argo_workflows_exporter.Json.{Value}
use argo_workflows_exporter.Taxonomy.{TextTools, Rule}
use argo_workflows_exporter.Storage.{Bytes, Pyarrow}
use argo_workflows_exporter.Health.Healthy.{snapshot-IsHealthy}
use argo_workflows_exporter.Health.{HealthState, healthy, record_success, snapshot}
use argo_workflows_exporter.Cycle.{
  Config, CycleEnd, completed, unanswered, raised, killed, Generation,
}
use argo_workflows_exporter.Cycle.Publish.{IsComputed}
use argo_workflows_exporter.Cycle.Commit.{Holds, run_cycle-commit}
use argo_workflows_exporter.Cycle.Completes.{AreStored, run_cycle-completes}
use argo_workflows_exporter.Poll.{
  Turn, PollState, recorded, goes_on, cycle_end, run_turn, run_poll_loop,
}

none≢some : {a : ℕ} → none ≢ some a
none≢some h = cc h

module _ (T : TextTools) (rules : List Rule) (P : Pyarrow) (dumps : Value → Bytes)
    (cfg : Config) where
  -- The loop that is at a state with these turns ahead comes to the turn, and `before` is the state
  -- in which it does.
  abbrev pub IsTaken : Turn → PollState → Bool → List Turn → PollState → Type 0
  IsTaken turn before running [] s = ⊥
  IsTaken turn before false (t ∷ ts) s = ⊥
  IsTaken turn before true (t ∷ ts) s =
      ((turn ≡ t) × (before ≡ s))
      ⊎ IsTaken turn before (goes_on (cycle_end T rules P dumps cfg t s) t.wait) ts
          (run_turn T rules P dumps cfg t s)

  -- a turn of the loop whose cycle completed at this time
  pub record Completed (running : Bool) (ts : List Turn) (start : PollState) (time : ℕ)
      : Type 0 where
    pub turn : Turn
    pub before : PollState
    pub taken : IsTaken turn before running ts start
    pub ends : cycle_end T rules P dumps cfg turn before ≡ completed
    pub at_time : turn.finished_at ≡ time

  recorded-last :
      (end : CycleEnd) (turn : Turn) (h : HealthState) (time : ℕ)
      → (recorded end turn h).last_success ≡ some time
      → ((end ≡ completed) × (turn.finished_at ≡ time)) ⊎ (h.last_success ≡ some time)
  unfolding record_success
  recorded-last completed turn h time e = inl (refl, some_injective e)
  recorded-last (unanswered f) turn h time e = inr e
  recorded-last (raised x f) turn h time e = inr e
  recorded-last killed turn h time e = inr e

  later-Completed :
      (t : Turn) (ts : List Turn) (s : PollState) (time : ℕ)
      → Completed
          (goes_on (cycle_end T rules P dumps cfg t s) t.wait)
          ts
          (run_turn T rules P dumps cfg t s)
          time
      → Completed true (t ∷ ts) s time
  later-Completed t ts s time c = record {
    turn = c.turn;
    before = c.before;
    taken = inr c.taken;
    ends = c.ends;
    at_time = c.at_time;
  }

  run_poll_loop-Completed :
      (running : Bool) (ts : List Turn) (s : PollState) (time : ℕ)
      → (run_poll_loop T rules P dumps cfg running ts s).health.last_success ≡ some time
      → Completed running ts s time ⊎ (s.health.last_success ≡ some time)
  unfolding run_poll_loop run_turn
  run_poll_loop-Completed running [] s time h = inr h
  run_poll_loop-Completed false (t ∷ ts) s time h = inr h
  run_poll_loop-Completed true (t ∷ ts) s time h =
      elim (run_poll_loop-Completed (goes_on (cycle_end T rules P dumps cfg t s) t.wait) ts
        (run_turn T rules P dumps cfg t s) time h) [
          | inl c ↦ inl (later-Completed t ts s time c)
          | inr k ↦ elim (recorded-last (cycle_end T rules P dumps cfg t s) t s.health time k) [
            | inl (c, f) ↦
                inl
                  (record { turn = t; before = s; taken = inl (refl, refl); ends = c; at_time = f })
            | inr l ↦ inr l
          ]
        ]

recorded-limit :
    (end : CycleEnd) (turn : Turn) (h : HealthState)
    → (recorded end turn h).stale_after_seconds ≡ h.stale_after_seconds
unfolding record_success
recorded-limit completed turn h = refl
recorded-limit (unanswered f) turn h = refl
recorded-limit (raised e f) turn h = refl
recorded-limit killed turn h = refl

module _ (T : TextTools) (rules : List Rule) (P : Pyarrow) (dumps : Value → Bytes)
    (cfg : Config) where
  run_poll_loop-limit :
      (running : Bool) (ts : List Turn) (s : PollState)
      → (run_poll_loop T rules P dumps cfg running ts s).health.stale_after_seconds
        ≡ s.health.stale_after_seconds
  unfolding run_poll_loop run_turn
  run_poll_loop-limit running [] s = refl
  run_poll_loop-limit false (t ∷ ts) s = refl
  run_poll_loop-limit true (t ∷ ts) s =
      run_poll_loop-limit (goes_on (cycle_end T rules P dumps cfg t s) t.wait) ts
        (run_turn T rules P dumps cfg t s)
      ∙ recorded-limit (cycle_end T rules P dumps cfg t s) t s.health

  -- a turn of the loop whose three uploads were acknowledged, and the generation that it left in
  -- the bucket
  pub record IsPublished (running : Bool) (ts : List Turn) (start : PollState) (now limit age : ℕ)
      : Type 0 where
    pub turn : Turn
    pub before : PollState
    pub taken : IsTaken T rules P dumps cfg turn before running ts start
    pub puts_stored : AreStored turn.calls.puts
    pub generation : Generation
    pub computed : IsComputed T rules P dumps cfg turn.calls generation
    pub held : Holds cfg generation (run_turn T rules P dumps cfg turn before).store
    pub aged : age ≡ now - turn.finished_at
    pub recent : age < limit

  Completed-IsPublished :
      (running : Bool) (ts : List Turn) (start : PollState) (now limit age time : ℕ)
      → Completed T rules P dumps cfg running ts start time
      → age ≡ now - time
      → age < limit
      → IsPublished running ts start now limit age
  unfolding run_turn
  Completed-IsPublished running ts start now limit age time c a l =
      let (g, succeeds) =
        (run_cycle-completes T rules P dumps cfg c.turn.calls c.before.store).0 c.ends in
      elim (run_cycle-commit T rules P dumps cfg c.turn.calls c.before.store) [
        | inl (m, n) ↦ absurd (n c.ends)
        | inr (g, computed, held) ↦ record {
          turn = c.turn;
          before = c.before;
          taken = c.taken;
          puts_stored = succeeds.puts_stored;
          generation = g;
          computed = computed;
          held = held;
          aged = subst (λ t. age ≡ now - t) (sym c.at_time) a;
          recent = l;
        }
      ]

  -- Let the loop start in a process without a success, and let it run through any turns. If the
  -- health endpoint then answers that the exporter is healthy, one of these turns, which the loop
  -- came to, completed its cycle that long ago, which is less than the limit: its three uploads
  -- were acknowledged, and it left the three objects of one generation in the bucket.
  pub run_poll_loop-healthy :
      (start : PollState) (running : Bool) (ts : List Turn) (now age : ℕ) (wall : Option ℕ)
      → start.health.last_success ≡ none
      → (snapshot now (run_poll_loop T rules P dumps cfg running ts start).health).1
        ≡ healthy wall age
      → IsPublished running ts start now start.health.stale_after_seconds age
  run_poll_loop-healthy start running ts now age wall n q =
      let final = run_poll_loop T rules P dumps cfg running ts start in
      let (last, l, w, a, b) = snapshot-IsHealthy now final.health wall age q in
      elim (run_poll_loop-Completed T rules P dumps cfg running ts start last l) [
        | inl c ↦
            Completed-IsPublished running ts start now start.health.stale_after_seconds age last c a
              (subst (λ x. age < x) (run_poll_loop-limit running ts start) b)
        | inr k ↦ absurd (none≢some (sym n ∙ k))
      ]
