-- ===== src/Health/History.antt =====
-- The answers of `_HealthState` of src/main.py, from the calls that were made before.
use argo_workflows_exporter.Base.{
  ℕ, ◌-◌, ◌*◌, ◌≤◌, ◌<◌, ◌≡◌, refl, sym, subst, ◌∙◌, ◌↔◌, Bool, true, false, Option, none, some,
  List, [], ◌∷◌, leb,
}
use argo_workflows_exporter.Health.{
  HealthState, status_code, initial, reset, record_success, judge, snapshot_of, snapshot,
}
use argo_workflows_exporter.Health.Ready.{
  Call, call_reset, call_record_success, call_snapshot, after, Reaches, begun, waited, called,
  IsRecent, snapshot-IsRecent,
}

-- the calls that were made, the last one first, each at its time
abbrev pub History : Type 0
History = List (ℕ × Call)

-- no call is later than the one after it, nor than `now`
abbrev pub AreOrdered : ℕ → History → Type 0
AreOrdered now [] = Unit
AreOrdered now ((t, c) ∷ calls) = (t ≤ now) × AreOrdered t calls

-- the time of the last success that was recorded, unless there was a reset since
abbrev pub last_recorded : History → Option ℕ
last_recorded [] = none
last_recorded ((t, call_reset) ∷ calls) = none
last_recorded ((t, call_record_success wall_now) ∷ calls) = some t
last_recorded ((t, call_snapshot) ∷ calls) = last_recorded calls

-- how long a success counts
abbrev pub limit_of : ℕ → Option ℕ → ℕ
limit_of poll none = poll * 2
limit_of poll (some seconds) = seconds

abbrev pub IsYoung : ℕ → ℕ → History → Type 0
IsYoung limit now calls = (last : ℕ) × (last_recorded calls ≡ some last) × (now - last < limit)

judge-keeps :
    (b : Bool) (age : ℕ) (s : HealthState)
    → ((judge b age s).0.last_success ≡ s.last_success)
      × ((judge b age s).0.stale_after_seconds ≡ s.stale_after_seconds)
unfolding judge
judge-keeps true age s = (refl, refl)
judge-keeps false age s = (refl, refl)

snapshot_of-keeps :
    (o : Option ℕ) (now : ℕ) (s : HealthState)
    → ((snapshot_of o now s).0.last_success ≡ s.last_success)
      × ((snapshot_of o now s).0.stale_after_seconds ≡ s.stale_after_seconds)
unfolding snapshot_of
snapshot_of-keeps none now s = (refl, refl)
snapshot_of-keeps (some last) now s =
    judge-keeps (leb s.stale_after_seconds (now - last)) (now - last) s

module _ (poll : ℕ) (seconds : Option ℕ) where
  -- the state that the calls leave in a new process
  abbrev pub state_after : History → HealthState
  state_after [] = initial poll seconds
  state_after ((t, c) ∷ calls) = after t c (state_after calls)

  state_after-Reaches :
      (now : ℕ) (calls : History)
      → AreOrdered now calls
      → Reaches (initial poll seconds) now (state_after calls)
  state_after-Reaches now [] h = begun refl
  state_after-Reaches now ((t, c) ∷ calls) h =
      waited (called c (state_after-Reaches t calls h.1) refl) h.0

  state_after-last : (calls : History) → (state_after calls).last_success ≡ last_recorded calls
  unfolding reset record_success snapshot
  state_after-last [] = refl
  state_after-last ((t, call_reset) ∷ calls) = refl
  state_after-last ((t, call_record_success wall_now) ∷ calls) = refl
  state_after-last ((t, call_snapshot) ∷ calls) =
      (snapshot_of-keeps (state_after calls).last_success t (state_after calls)).0
      ∙ state_after-last calls

  state_after-limit :
      (calls : History) → (state_after calls).stale_after_seconds ≡ limit_of poll seconds
  unfolding reset record_success snapshot
  state_after-limit [] = initial-limit seconds
    where
      initial-limit : (o : Option ℕ) → (initial poll o).stale_after_seconds ≡ limit_of poll o
      initial-limit none = refl
      initial-limit (some s) = refl
  state_after-limit ((t, call_reset) ∷ calls) = state_after-limit calls
  state_after-limit ((t, call_record_success wall_now) ∷ calls) = state_after-limit calls
  state_after-limit ((t, call_snapshot) ∷ calls) =
      (snapshot_of-keeps (state_after calls).last_success t (state_after calls)).1
      ∙ state_after-limit calls

  IsRecent-IsYoung :
      (now : ℕ) (calls : History)
      → IsRecent now (state_after calls) ↔ IsYoung (limit_of poll seconds) now calls
  IsRecent-IsYoung now calls = (
    λ (last, e, l). (
      last,
      sym (state_after-last calls) ∙ e,
      subst (λ x. now - last < x) (state_after-limit calls) l,
    ),
    λ (last, e, l). (
      last,
      state_after-last calls ∙ e,
      subst (λ x. now - last < x) (sym (state_after-limit calls)) l,
    ),
  )

  -- After any calls of the methods in the order of the clock, in a new process, a snapshot answers
  -- with status 200 exactly if a success was recorded, with no reset since, whose last one is
  -- younger than the limit; and the flag `_ready` is set after the snapshot exactly then. The limit
  -- is the argument, or twice the poll interval if there is none.
  pub snapshot-IsYoung :
      (now : ℕ) (calls : History)
      → AreOrdered now calls
      → ((status_code (snapshot now (state_after calls)).1 ≡ 200)
          ↔ IsYoung (limit_of poll seconds) now calls)
        × (((snapshot now (state_after calls)).0.ready ≡ true)
            ↔ IsYoung (limit_of poll seconds) now calls)
  snapshot-IsYoung now calls h =
      let (answer, flag) =
        snapshot-IsRecent poll seconds now (state_after calls) (state_after-Reaches now calls h) in
      let same = IsRecent-IsYoung now calls in
      (
        (λ x. same.0 (answer.0 x), λ y. answer.1 (same.1 y)),
        (λ x. same.0 (flag.0 x), λ y. flag.1 (same.1 y)),
      )
