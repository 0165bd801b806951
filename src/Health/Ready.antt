-- ===== src/Health/Ready.antt =====
-- The answer of `snapshot` and the flag `_ready` agree.
use argo_workflows_exporter.Base.{
  some_injective, ℕ, ◌-◌, ◌≤◌, ◌<◌, ◌≡◌, ◌≢◌, leb→le, refl, sym, subst, ◌∙◌, ◌↔◌, ◌⊎◌, inl, inr,
  Bool, true, false, Option, none, some, leb, arith,
}
use argo_workflows_exporter.Health.{
  HealthState, Health, status_code, initial, reset, record_success, judge, snapshot_of, snapshot,
}

none≢some : {a : ℕ} → none ≢ some a
none≢some h = cc h

not_leb : (a b : ℕ) → leb a b ≡ false → b < a
not_leb a b h = ground arith

-- a call of a method at a time of the monotonic clock
pub data Call : Type 0 where
  call_reset : Call
  call_record_success : ℕ → Call
  call_snapshot : Call

abbrev pub after : ℕ → Call → HealthState → HealthState
after now call_reset s = reset s
after now (call_record_success wall_now) s = record_success now wall_now s
after now call_snapshot s = (snapshot now s).0

-- The states that calls in the order of the clock reach.
pub data Reaches (start : HealthState) : ℕ → HealthState → Type 0 where
  begun : {t : ℕ} {s : HealthState} → s ≡ start → Reaches start t s
  waited : {t u : ℕ} {s : HealthState} → Reaches start t s → t ≤ u → Reaches start u s
  called :
      {t : ℕ} {s u : HealthState} (c : Call)
      → Reaches start t s
      → u ≡ after t c s
      → Reaches start t u

-- the last success is younger than the limit
abbrev pub IsRecent : ℕ → HealthState → Type 0
IsRecent now s = (last : ℕ) × (s.last_success ≡ some last) × (now - last < s.stale_after_seconds)

-- while the flag is not set there is no recent success, and with no success it is not set
abbrev SoundAt : ℕ → ℕ → Option ℕ → Bool → Type 0
SoundAt limit now none ready = ready ≡ false
SoundAt limit now (some last) ready = (ready ≡ true) ⊎ (limit ≤ now - last)

abbrev IsSound : ℕ → HealthState → Type 0
IsSound now s = SoundAt s.stale_after_seconds now s.last_success s.ready

SoundAt-later :
    (limit t u : ℕ) (last : Option ℕ) (ready : Bool)
    → t ≤ u
    → SoundAt limit t last ready
    → SoundAt limit u last ready
SoundAt-later limit t u none ready l h = h
SoundAt-later limit t u (some last) ready l (inl h) = inl h
SoundAt-later limit t u (some last) ready l (inr h) = inr (omega (arith, l, h))

ready_of :
    (limit now last : ℕ) (ready : Bool)
    → now - last < limit
    → (ready ≡ true) ⊎ (limit ≤ now - last)
    → ready ≡ true
ready_of limit now last ready l (inl h) = h
ready_of limit now last ready l (inr h) = absurd (omega (arith, l, h))

judge-IsSound :
    (b : Bool) (now last : ℕ) (s : HealthState)
    → s.last_success ≡ some last
    → leb s.stale_after_seconds (now - last) ≡ b
    → IsSound now s
    → IsSound now (judge b (now - last) s).0
unfolding judge
judge-IsSound true now last s e f h = rw e (inr (leb→le s.stale_after_seconds (now - last) f))
judge-IsSound false now last s e f h = h

snapshot_of-IsSound :
    (o : Option ℕ) (now : ℕ) (s : HealthState)
    → s.last_success ≡ o
    → IsSound now s
    → IsSound now (snapshot_of o now s).0
unfolding snapshot_of
snapshot_of-IsSound none now s e h = rw e refl
snapshot_of-IsSound (some last) now s e h =
    judge-IsSound (leb s.stale_after_seconds (now - last)) now last s e refl h

after-IsSound : (now : ℕ) (c : Call) (s : HealthState) → IsSound now s → IsSound now (after now c s)
unfolding reset record_success snapshot
after-IsSound now call_reset s h = refl
after-IsSound now (call_record_success wall_now) s h = inl refl
after-IsSound now call_snapshot s h = snapshot_of-IsSound s.last_success now s refl h

reached-IsSound :
    (poll : ℕ) (seconds : Option ℕ) (t : ℕ) (s : HealthState)
    → Reaches (initial poll seconds) t s
    → IsSound t s
reached-IsSound poll seconds t s (begun e) = subst (IsSound t) (sym e) refl
reached-IsSound poll seconds t s (waited {t = r} d l) =
    SoundAt-later s.stale_after_seconds r t s.last_success s.ready l
      (reached-IsSound poll seconds r s d)
reached-IsSound poll seconds t s (called {s = r} c d e) =
    subst (IsSound t) (sym e) (after-IsSound t c r (reached-IsSound poll seconds t r d))

-- both answers hold exactly if the success is recent
abbrev Agrees : ℕ → HealthState → HealthState × Health → Type 0
Agrees now s (u, h) = ((status_code h ≡ 200) ↔ IsRecent now s) × ((u.ready ≡ true) ↔ IsRecent now s)

recent_age :
    (now last : ℕ) (s : HealthState)
    → s.last_success ≡ some last
    → IsRecent now s
    → now - last < s.stale_after_seconds
recent_age now last s e (l, f, h) = rw (some_injective (sym e ∙ f)) h

judge-Agrees :
    (b : Bool) (now last : ℕ) (s : HealthState)
    → s.last_success ≡ some last
    → leb s.stale_after_seconds (now - last) ≡ b
    → IsSound now s
    → Agrees now s (judge b (now - last) s)
unfolding judge
judge-Agrees true now last s e f h =
    let old = leb→le s.stale_after_seconds (now - last) f in
    (
      (λ x. absurd (omega (arith, x)), λ r. absurd (omega (arith, old, recent_age now last s e r))),
      (λ x. absurd (cc x), λ r. absurd (omega (arith, old, recent_age now last s e r))),
    )
judge-Agrees false now last s e f h =
    let young = not_leb s.stale_after_seconds (now - last) f in
    (
      (λ x. (last, e, young), λ r. refl),
      (
        λ x. (last, e, young),
        λ r. ready_of s.stale_after_seconds now last s.ready young (rw e at h),
      ),
    )

snapshot_of-Agrees :
    (o : Option ℕ) (now : ℕ) (s : HealthState)
    → s.last_success ≡ o
    → IsSound now s
    → Agrees now s (snapshot_of o now s)
unfolding snapshot_of
snapshot_of-Agrees none now s e h = (
  (λ x. absurd (omega (arith, x)), λ (l, f, r). absurd (none≢some (sym e ∙ f))),
  (λ x. absurd (cc x), λ (l, f, r). absurd (none≢some (sym e ∙ f))),
)
snapshot_of-Agrees (some last) now s e h =
    judge-Agrees (leb s.stale_after_seconds (now - last)) now last s e refl h

-- In every state that calls in the order of the clock reach from the start, a snapshot answers with
-- status 200 exactly if the success that the state holds is younger than the limit, and the flag
-- `_ready` is set after it exactly then.
pub snapshot-IsRecent :
    (poll : ℕ) (seconds : Option ℕ) (now : ℕ) (s : HealthState)
    → Reaches (initial poll seconds) now s
    → ((status_code (snapshot now s).1 ≡ 200) ↔ IsRecent now s)
      × (((snapshot now s).0.ready ≡ true) ↔ IsRecent now s)
unfolding snapshot
snapshot-IsRecent poll seconds now s d =
    snapshot_of-Agrees s.last_success now s refl (reached-IsSound poll seconds now s d)
