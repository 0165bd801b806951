-- ===== src/Examples/Probes.antt =====
-- The theorem on the health state, some time after a cycle that completed.
use argo_workflows_exporter.Base.{◌≡◌, refl, ◌↔◌, true, none, some, String, ℕ, ◌%◌, [], ◌∷◌, arith}
use argo_workflows_exporter.Json.{Value}
use argo_workflows_exporter.Clock.{Datetime}
use argo_workflows_exporter.Storage.{Bytes}
use argo_workflows_exporter.Health.{HealthState, initial, record_success, snapshot, status_code}
use argo_workflows_exporter.Health.Endpoint.{do_get, do_get-IsRecent}
use argo_workflows_exporter.Health.Ready.{
  Reaches, begun, waited, called, call_record_success, call_snapshot, IsRecent,
}
use argo_workflows_exporter.Health.History.{History, IsYoung, state_after, snapshot-IsYoung}

abbrev probed : HealthState
probed = record_success 100 5000 (initial 300 none)

reached : Reaches (initial 300 none) 250 probed
reached =
    waited {t = 100} (called (call_record_success 5000) (begun {s = initial 300 none} refl) refl)
      (omega arith)

-- a success that was recorded, and asked for
abbrev asked : History
asked = (200, call_snapshot) ∷ (100, call_record_success 5000) ∷ []

snapshot-IsYoung_example :
    ((status_code (snapshot 250 (state_after 300 none asked)).1 ≡ 200) ↔ IsYoung 600 250 asked)
    × (((snapshot 250 (state_after 300 none asked)).0.ready ≡ true) ↔ IsYoung 600 250 asked)
snapshot-IsYoung_example = snapshot-IsYoung 300 none 250 asked (omega arith, (omega arith, tt))

abbrev bytes_of : Value → Bytes
bytes_of v = 0x7b ∷ 0x7d ∷ []

abbrev some_time : ℕ → Datetime
some_time n = record { year = 2024; month = 5; day = 1; hour = 10; minute = 5; second = n % 60 }

do_get-IsRecent_example :
    ((do_get bytes_of some_time
        (λ age. "150.0")
        (λ target. target)
        "/health"
        (some probed)
        true
        250).status
      ≡ 200)
    ↔ ((◌≡◌ {A = String} "/health" "/health") × IsRecent 250 probed)
do_get-IsRecent_example =
    do_get-IsRecent bytes_of some_time (λ age. "150.0") (λ target. target) "/health" 300 none 250
      probed true reached
