-- ===== src/Consumer.antt =====
-- src/consumer.py: what makes a candidate publication current. `Read` holds the selection. A `Mapping` in place of a `Publication` is
-- read by the same three names, so it is a `Publication` here.
pub mod Read
pub mod Complete
pub mod Selection
pub mod Reading
pub mod Accepts
pub mod Availability
pub mod Metrics
pub mod Trends
pub mod History
use Prim.Native.Nat.{◌^◌}
use text.Mathlib.Text.{starts_with}
use argo_workflows_exporter.Base.{
  ℕ, suc, ◌+◌, ◌-◌, ◌*◌, String, ◌≡◌, refl, Bool, true, false, not, ◌&&◌, ◌||◌, Option, none, some,
  List, [], ◌∷◌, ltb, leb, if◌then◌else◌,
}
use argo_workflows_exporter.Base.Text.{text_eq, is_empty}
use argo_workflows_exporter.Base.Int.{ℤ, pos, negsuc, ◌+ℤ◌, ◌-ℤ◌, ltb_ℤ, leb_ℤ}
use argo_workflows_exporter.Base.Results.{
  Result, ok, err, Error, value_error, overflow_error, type_error, meta_schema_error, decode_error,
  response_error, malformed_workflow, ◌>>=◌, require,
}
use argo_workflows_exporter.Clock.{Datetime, strptime, to_ordinal}
use argo_workflows_exporter.Json.{Value, Fields, end, get, as_obj, as_text, as_int}
use argo_workflows_exporter.MetaSchema.CrossField.{validate, id_prefix}
use argo_workflows_exporter.Storage.{
  Bytes, GetOutcome, download_bytes, object_key, Pyarrow, read_generation_id,
}

pub record Publication : Type 0 where
  pub meta : Value
  pub workflows : Option Bytes
  pub runs : Option Bytes

pub data PublicationStatus : Type 0 where
  fresh fallback no_publication : PublicationStatus

pub data PublicationReason : Type 0 where
  missing invalid stale incomplete torn : PublicationReason

pub record PublicationResult : Type 0 where
  pub publication : Option Publication
  pub status : PublicationStatus
  pub reason : Option PublicationReason

-- Instants and spans are in microseconds, the resolution of `datetime`; an instant is counted from
-- the start of year 1 in UTC. The code compares two floats of seconds: these are exact while a span
-- is below 2 ^ 33 seconds.
abbrev pub micros : ℕ → ℕ
micros n = n * 1000000

unfoldable pub instant : Datetime → ℕ
unfolding to_ordinal
instant t =
    micros
      ((to_ordinal t.year t.month t.day - 1) * 86400 + t.hour * 3600 + t.minute * 60 + t.second)

-- the argument `now`, in UTC if it has a time zone
pub data Moment : Type 0 where
  aware : ℕ → Moment
  naive : Moment

-- the argument `max_cycle_seconds`; a finite float is given by its microseconds
pub data CycleBound : Type 0 where
  whole : ℤ → CycleBound
  fraction : ℤ → CycleBound
  not_finite : CycleBound
  no_number : CycleBound

abbrev micros_ℤ : ℤ → ℤ
micros_ℤ (pos n) = pos (micros n)
micros_ℤ (negsuc n) = negsuc (micros (suc n) - 1)

-- The least integer that no float is nearest to: `isfinite`, `float` and a sum with a float raise
-- `OverflowError` from here on. It is 2 ^ 1024 less half of the last digit of the greatest float.
abbrev float_limit : ℕ
float_limit = 2 ^ 1024 - 2 ^ 970

abbrev magnitude : ℤ → ℕ
magnitude (pos n) = n
magnitude (negsuc n) = suc n

-- `float` of an integer
abbrev to_float : ℕ → Result (Unit {0})
to_float n = require (not (leb float_limit n)) overflow_error

-- the value of a number that is not negative, in microseconds
abbrev bound_of : ℤ → Result ℕ
bound_of (pos n) = ok n
bound_of (negsuc n) = err value_error

-- the test of `max_cycle_seconds`
abbrev cycle_of : CycleBound → Result ℕ
cycle_of (whole n) = do finite ← to_float (magnitude n); bound_of (micros_ℤ n)
cycle_of (fraction n) = bound_of n
cycle_of not_finite = err value_error
cycle_of no_number = err value_error

-- `meta.poll_interval_seconds`, an integer of at least 1
abbrev interval_of : Option ℤ → Result ℕ
interval_of none = err value_error
interval_of (some (pos n)) = if leb 1 n then ok n else err value_error
interval_of (some (negsuc n)) = err value_error

-- what is made a float: the sum of two integers, or the interval where the bound is a float
abbrev summed : CycleBound → ℕ → ℕ
summed (whole n) interval = magnitude n + interval
summed _ interval = interval

unfoldable pub freshness_threshold : Fields → CycleBound → Result ℕ
unfolding get
freshness_threshold meta bound = do
  cycle ← cycle_of bound
  interval ← interval_of (as_int (get "poll_interval_seconds" meta))
  finite ← to_float (summed bound interval)
  ok (cycle + micros interval)

abbrev age_at : ℕ → Option Datetime → Result ℤ
age_at now none = err value_error
age_at now (some generated) = ok (pos now -ℤ pos (instant generated))

abbrev age_of : ℕ → Option String → Result ℤ
age_of now none = err value_error
age_of now (some generated_at) = age_at now (strptime generated_at)

unfoldable pub freshness_age : Fields → Moment → Result ℤ
unfolding get strptime instant ◌-ℤ◌
freshness_age meta naive = err value_error
freshness_age meta (aware now) = age_of now (as_text (get "generated_at" meta))

-- `is_fresh`: equality is stale
unfoldable pub is_fresh : Fields → Moment → CycleBound → Result Bool
is_fresh meta now bound = do
  age ← freshness_age meta now
  threshold ← freshness_threshold meta bound
  ok (ltb_ℤ age (pos threshold))

-- the two handlers that turn an exception into a value
abbrev pub succeeded : Result (Unit {0}) → Bool
succeeded (ok _) = true
succeeded (err _) = false

abbrev pub id_or_none : Result (Option String) → Option String
id_or_none (ok id) = id
id_or_none (err _) = none

-- `_valid_meta`: `validate` raises MetaSchemaError or TypeError, and both are caught
unfoldable pub valid_meta : Value → Bool
valid_meta meta = succeeded (validate meta)

-- the id of the sidecar, `None` if it is no text or empty
abbrev non_empty : Option String → Option String
non_empty none = none
non_empty (some s) = if is_empty s then none else some s

unfoldable pub meta_id : Value → Option String
unfolding get
meta_id meta = elim (as_obj meta) [
  | none ↦ none
  | some fs ↦ non_empty (as_text (get "generation_id" fs))
]

-- `meta['generated_at']`, of a valid sidecar
unfoldable pub generated_at_of : Value → String
unfolding get
generated_at_of meta = elim (as_obj meta) [
  | none ↦ ""
  | some fs ↦ elim (as_text (get "generated_at" fs)) [ none ↦ "" | some s ↦ s ]
]

-- `isinstance(meta, Mapping)` holds of a valid sidecar
abbrev pub fields_of : Value → Fields
fields_of meta = elim (as_obj meta) [ none ↦ end | some fs ↦ fs ]

abbrev pub is_absent : Option Bytes → Bool
is_absent none = true
is_absent (some b) = false

-- the tests of three ids and the sidecar's time
unfoldable pub ids_reason :
    Option String → Option String → Option String → String → Option PublicationReason
ids_reason (some m) (some w) (some r) generated_at =
    if text_eq m w && text_eq m r
    then (if starts_with m (id_prefix generated_at) then none else some torn)
    else some torn
ids_reason m w r generated_at = some incomplete

module _ (P : Pyarrow) where
  -- `_footer_generation_id`: every exception of the reader is caught
  unfoldable pub footer_generation_id : Option Bytes → Option String
  footer_generation_id none = none
  footer_generation_id (some b) = id_or_none (read_generation_id P b)

  -- `_generation_rejection_reason`
  unfoldable pub rejection_reason : Option Publication → Option PublicationReason
  rejection_reason none = some missing
  rejection_reason (some p) =
      if not (valid_meta p.meta)
      then some invalid
      else if is_absent p.workflows || is_absent p.runs
      then some incomplete
      else ids_reason (meta_id p.meta) (footer_generation_id p.workflows)
          (footer_generation_id p.runs) (generated_at_of p.meta)

abbrev pub retained_status : Option Publication → PublicationStatus
retained_status none = no_publication
retained_status (some p) = fallback

-- `_retained_result`
unfoldable pub retained_result : Option Publication → PublicationReason → PublicationResult
retained_result last_complete reason = record {
  publication = last_complete;
  status = retained_status last_complete;
  reason = some reason;
}
