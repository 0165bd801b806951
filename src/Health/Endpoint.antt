-- ===== src/Health/Endpoint.antt =====
-- `do_GET` and `_write_json` of `_HealthHandler` in src/main.py. `path_of` is the path that
-- `urlsplit` finds in the target of the request, `dumps` is `json.dumps(…).encode()`,
-- `fromtimestamp` that of `datetime` in UTC, and `repr` what a span of whole seconds is printed as.
-- The server may have no health state.
use package.text.Mathlib.TextEquality.{eq_iff}
use argo_workflows_exporter.Base.{
  ℕ, String, ◌≡◌, ◌↔◌, inl, inr, Bool, Option, none, some, Bool-cases, arith, if◌then◌else◌,
}
use argo_workflows_exporter.Base.Text.{text_eq}
use argo_workflows_exporter.Base.Lists.{length}
use argo_workflows_exporter.Clock.{Datetime, strftime}
use argo_workflows_exporter.Json.{Value, null, text, float, obj, end, field}
use argo_workflows_exporter.Storage.{Bytes}
use argo_workflows_exporter.Health.{
  HealthState, Health, starting, stale, healthy, status_code, initial, snapshot,
}
use argo_workflows_exporter.Health.Ready.{Reaches, IsRecent, snapshot-IsRecent}

-- what is found out of a request: its path is another one, or there is no health state and the
-- flag `_ready` decides, or there is
pub data Answer : Type 0 where
  not_found : Answer
  flagged : Bool → Answer
  judged : Health → Answer

abbrev pub status_of : Answer → ℕ
status_of not_found = 404
status_of (flagged ready) = if ready then 200 else 503
status_of (judged h) = status_code h

pub record Response : Type 0 where
  pub status : ℕ
  pub content_type : String
  pub content_length : ℕ
  pub cache_control : String
  pub content : Bytes

-- `_write_json`
unfoldable pub write_json : (Value → Bytes) → ℕ → Value → Response
write_json dumps code payload = record {
  status = code;
  content_type = "application/json";
  content_length = length (dumps payload);
  cache_control = "no-store";
  content = dumps payload;
}

module _ (fromtimestamp : ℕ → Datetime) (repr : ℕ → String) where
  -- `_timestamp`
  abbrev pub timestamp_of : Option ℕ → Value
  timestamp_of none = null
  timestamp_of (some value) = text (strftime (fromtimestamp value))

  abbrev pub with_age : String → Option ℕ → ℕ → Value
  with_age status wall age = obj (
      field "status" (text status)
        (field "last_success_at" (timestamp_of wall) (field "age_seconds" (float (repr age)) end)))

  -- the payloads of `snapshot`
  abbrev pub payload_of_health : Health → Value
  payload_of_health starting =
      obj (field "status" (text "starting") (field "last_success_at" null end))
  payload_of_health (stale wall age) = with_age "stale" wall age
  payload_of_health (healthy wall age) = with_age "ok" wall age

  abbrev pub payload_of : Answer → Value
  payload_of not_found = obj (field "status" (text "not_found") end)
  payload_of (flagged ready) = obj (field "status" (text (if ready then "ok" else "starting")) end)
  payload_of (judged h) = payload_of_health h

unfoldable pub answer_of : Option HealthState → Bool → ℕ → Answer
answer_of none ready now = flagged ready
answer_of (some s) ready now = judged (snapshot now s).1

abbrev pub answer_to : (String → String) → String → Option HealthState → Bool → ℕ → Answer
answer_to path_of target state ready now =
    if text_eq (path_of target) "/health" then answer_of state ready now else not_found

module _ (dumps : Value → Bytes) (fromtimestamp : ℕ → Datetime) (repr : ℕ → String)
    (path_of : String → String) where
  unfoldable pub do_get : String → Option HealthState → Bool → ℕ → Response
  unfolding write_json
  do_get target state ready now =
      let answer = answer_to path_of target state ready now in
      write_json dumps (status_of answer) (payload_of fromtimestamp repr answer)

  -- A server with a health state that calls in the order of the clock have brought about responds
  -- with status 200 exactly to a request for /health while the last success is recent.
  pub do_get-IsRecent :
      (target : String) (poll : ℕ) (seconds : Option ℕ) (now : ℕ) (s : HealthState) (ready : Bool)
      → Reaches (initial poll seconds) now s
      → ((do_get target (some s) ready now).status ≡ 200)
        ↔ ((path_of target ≡ "/health") × IsRecent now s)
  unfolding do_get answer_of
  do_get-IsRecent target poll seconds now s ready reached =
      let ((from, into), flag) = snapshot-IsRecent poll seconds now s reached in
      elim (Bool-cases (text_eq (path_of target) "/health")) [
        | inl e ↦ rw e (λ h. ((eq_iff (path_of target) "/health").0 e, from h), λ (p, r). into r)
        | inr e ↦ rw e (
          λ h. let q : 404 ≡ 200 = h in absurd (omega (arith, q)),
          λ (p, r). absurd (cc (e, (eq_iff (path_of target) "/health").1 p)),
        )
      ]
