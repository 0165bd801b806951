-- ===== src/Health/Threads/Records.antt =====
-- Which success a healthy answer of a sequence of calls comes from.
use argo_workflows_exporter.Base.{
  ℕ, ◌-◌, ◌<◌, ◌≡◌, refl, sym, subst, ◌∙◌, ◌⊎◌, inl, inr, Option, some, List, [], ◌∷◌,
}
use argo_workflows_exporter.Base.Lists.{In}
use argo_workflows_exporter.Health.{HealthState, healthy, reset, record_success, snapshot}
use argo_workflows_exporter.Health.Healthy.{snapshot-IsHealthy}
use argo_workflows_exporter.Health.Threads.{
  Event, did_reset, did_record, did_answer, replay, IsSequential,
}
use argo_workflows_exporter.Health.Threads.Inv.{snapshot_of-fields, replay-limit}

-- a success that was there at the start, or that one of the calls recorded
abbrev pub IsRecorded : HealthState → List Event → ℕ → Option ℕ → Type 0
IsRecorded start es last wall =
    ((start.last_success ≡ some last) × (wall ≡ start.last_success_wall))
    ⊎ ((wall_now : ℕ) × In (did_record last wall_now) es × (wall ≡ some wall_now))

-- A success that was recorded less than the limit before, with its own wall time.
abbrev pub IsTimely : HealthState → List Event → ℕ → Option ℕ → ℕ → Type 0
IsTimely start es now wall age =
    (last : ℕ) × IsRecorded start es last wall
    × (age ≡ now - last)
    × (age < start.stale_after_seconds)

IsRecorded-later :
    (start : HealthState) (e : Event) (es : List Event) (last : ℕ) (wall : Option ℕ)
    → IsRecorded start es last wall
    → IsRecorded start (e ∷ es) last wall
IsRecorded-later start e es last wall (inl h) = inl h
IsRecorded-later start e es last wall (inr (w, i, h)) = inr (w, inr i, h)

replay-IsRecorded :
    (start : HealthState) (es : List Event) (last : ℕ)
    → (replay start es).last_success ≡ some last
    → IsRecorded start es last (replay start es).last_success_wall
unfolding reset record_success snapshot
replay-IsRecorded start [] last h = inl (h, refl)
replay-IsRecorded start (did_reset ∷ es) last h = absurd (cc h)
replay-IsRecorded start (did_record now wall_now ∷ es) last h = inr (wall_now, inl (cc h), refl)
replay-IsRecorded start (did_answer now a ∷ es) last h =
    let s = replay start es in
    let (same, same_wall, limit) = snapshot_of-fields now s s.last_success in
    IsRecorded-later start (did_answer now a) es last _
      (rw same_wall (replay-IsRecorded start es last (sym same ∙ h)))

IsTimely-later :
    (start : HealthState) (e : Event) (es : List Event) (now age : ℕ) (wall : Option ℕ)
    → IsTimely start es now wall age
    → IsTimely start (e ∷ es) now wall age
IsTimely-later start e es now age wall (last, r, a, l) =
    (last, IsRecorded-later start e es last wall r, a, l)

-- An answer that is healthy in a sequence of calls.
pub In-IsTimely :
    (start : HealthState) (es : List Event) (now age : ℕ) (wall : Option ℕ)
    → IsSequential start es
    → In (did_answer now (healthy wall age)) es
    → IsTimely start es now wall age
In-IsTimely start [] now age wall s i = absurd i
In-IsTimely start (e ∷ es) now age wall s (inr i) =
    IsTimely-later start e es now age wall (In-IsTimely start es now age wall (tail e s) i)
  where
    tail : (x : Event) → IsSequential start (x ∷ es) → IsSequential start es
    tail did_reset q = q
    tail (did_record t w) q = q
    tail (did_answer t h) q = q.1
In-IsTimely start (did_reset ∷ es) now age wall s (inl e) = absurd (cc e)
In-IsTimely start (did_record t w ∷ es) now age wall s (inl e) = absurd (cc e)
In-IsTimely start (did_answer t h ∷ es) now age wall s (inl e) =
    let (last, l, w, a, b) = snapshot-IsHealthy now (replay start es) wall age (cc (e, s.0)) in
    IsTimely-later start (did_answer t h) es now age wall (
      last,
      subst (IsRecorded start es last) w (replay-IsRecorded start es last l),
      a,
      subst (λ x. age < x) (replay-limit start es) b,
    )
