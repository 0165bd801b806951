-- ===== src/Health/Healthy.antt =====
-- What an answer of `snapshot` with status 200 says about the health state.
use argo_workflows_exporter.Base.{
  ℕ, ◌-◌, ◌<◌, ◌≡◌, refl, sym, Bool, true, false, Option, none, some, leb, arith,
}
use argo_workflows_exporter.Health.{HealthState, healthy, judge, snapshot_of, snapshot}

-- A healthy answer comes from a success that is recent.
abbrev pub IsHealthy : ℕ → HealthState → Option ℕ → ℕ → Type 0
IsHealthy now h wall age =
    (last : ℕ) × (h.last_success ≡ some last)
    × (h.last_success_wall ≡ wall)
    × (age ≡ now - last)
    × (age < h.stale_after_seconds)

judge-IsHealthy :
    (b : Bool) (now last : ℕ) (h : HealthState) (wall : Option ℕ) (age : ℕ)
    → h.last_success ≡ some last
    → leb h.stale_after_seconds (now - last) ≡ b
    → (judge b (now - last) h).1 ≡ healthy wall age
    → IsHealthy now h wall age
unfolding judge
judge-IsHealthy true now last h wall age l e q = absurd (cc q)
judge-IsHealthy false now last h wall age l e q =
    let same : now - last ≡ age = cc q in
    (last, l, cc q, sym same, below (now - last) age h.stale_after_seconds same e)
  where
    below : (a b limit : ℕ) → a ≡ b → leb limit a ≡ false → b < limit
    below a b limit h e = ground arith

snapshot_of-IsHealthy :
    (o : Option ℕ) (now : ℕ) (h : HealthState) (wall : Option ℕ) (age : ℕ)
    → h.last_success ≡ o
    → (snapshot_of o now h).1 ≡ healthy wall age
    → IsHealthy now h wall age
unfolding snapshot_of
snapshot_of-IsHealthy none now h wall age l q = absurd (cc q)
snapshot_of-IsHealthy (some last) now h wall age l q =
    judge-IsHealthy (leb h.stale_after_seconds (now - last)) now last h wall age l refl q

pub snapshot-IsHealthy :
    (now : ℕ) (h : HealthState) (wall : Option ℕ) (age : ℕ)
    → (snapshot now h).1 ≡ healthy wall age
    → IsHealthy now h wall age
unfolding snapshot
snapshot-IsHealthy now h wall age q = snapshot_of-IsHealthy h.last_success now h wall age refl q
