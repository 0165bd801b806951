-- ===== src/Consumer/Read.antt =====
-- `select_generation_result` and `read_generation_result` of src/consumer.py. The clock and the
-- object store are arguments: `clock` is what `datetime.now` would answer, and `get_object i key`
-- what the call number `i` of the read comes to, since the store may change between two calls.
use argo_workflows_exporter.Base.{ℕ, String, Bool, true, false, Option, none, some, if◌then◌else◌}
use argo_workflows_exporter.Base.Int.{pos, leb_ℤ}
use argo_workflows_exporter.Base.Results.{
  Result, ok, err, Error, value_error, json_decode_error, type_error, meta_schema_error,
  decode_error, response_error, malformed_workflow, ◌>>=◌,
}
use argo_workflows_exporter.Json.{Value}
use argo_workflows_exporter.MetaSchema.CrossField.{validate}
use argo_workflows_exporter.Storage.{Bytes, GetOutcome, download_bytes, object_key, Pyarrow}
use argo_workflows_exporter.Consumer.{
  Publication, PublicationReason, PublicationResult, fresh, missing, invalid, stale, Moment, aware,
  CycleBound, is_fresh, freshness_age, freshness_threshold, fields_of, rejection_reason,
  retained_result,
}

-- `datetime.now(timezone.utc) if now is None else now`
abbrev pub checked_at : Option Moment → ℕ → Moment
checked_at none clock = aware clock
checked_at (some now) clock = now

abbrev pub fresh_result : Publication → PublicationResult
fresh_result p = record { publication = some p; status = fresh; reason = none }

-- the freshness test of `select_generation_result`, of a candidate that is complete
unfoldable pub select_current :
    Publication → Option Publication → Option CycleBound → Moment → Result PublicationResult
select_current p last_complete none now = ok (fresh_result p)
select_current p last_complete (some bound) now = do
  current ← is_fresh (fields_of p.meta) now bound
  ok (if current then fresh_result p else retained_result last_complete stale)

-- the exceptions that `read_generation_result` catches; the others are no `TypeError`,
-- `ValueError` or `MetaSchemaError`
abbrev pub is_caught : Error → Bool
is_caught value_error = true
is_caught json_decode_error = true
is_caught type_error = true
is_caught decode_error = true
is_caught meta_schema_error = true
is_caught response_error = true
is_caught malformed_workflow = true
is_caught _ = false

-- a candidate goes on to the freshness test unless there is a reason against it
unfoldable pub select_unless :
    Option PublicationReason
    → Publication
    → Option Publication
    → Option CycleBound
    → Moment
    → Result PublicationResult
select_unless none p last_complete bound now = select_current p last_complete bound now
select_unless (some reason) p last_complete bound now = ok (retained_result last_complete reason)

module _ (P : Pyarrow) where
  unfoldable pub select_generation_result :
      Option Publication
      → Option Publication
      → Option CycleBound
      → Option Moment
      → ℕ
      → Result PublicationResult
  select_generation_result none last_complete bound now clock =
      ok (retained_result last_complete missing)
  select_generation_result (some p) last_complete bound now clock =
      select_unless (rejection_reason P (some p)) p last_complete bound (checked_at now clock)

-- `json.loads` and `meta_schema.validate`, inside the `try`
unfoldable pub load_meta : (Bytes → Result Value) → Bytes → Result Value
load_meta loads meta_bytes = do meta ← loads meta_bytes; checked ← validate meta; ok meta

-- the freshness test of `read_generation_result`: whether the sidecar is too old
unfoldable pub is_stale : Value → Option CycleBound → Moment → Result Bool
is_stale meta none now = ok false
is_stale meta (some bound) now = do
  age ← freshness_age (fields_of meta) now
  threshold ← freshness_threshold (fields_of meta) bound
  ok (leb_ℤ (pos threshold) age)

module _ (P : Pyarrow) (loads : Bytes → Result Value) (get_object : ℕ → String → GetOutcome)
    (prefix : String) where
  -- the two data objects, once the marker has been read
  unfoldable pub read_data : Value → Option Publication → ℕ → Result PublicationResult
  read_data meta last_complete clock = do
    workflows ← download_bytes (get_object 1 (object_key prefix "workflows.parquet"))
    runs ← download_bytes (get_object 2 (object_key prefix "runs.parquet"))
    select_generation_result P (some (record { meta = meta; workflows = workflows; runs = runs }))
        last_complete none none clock

  -- the rest of the read behind the `try`, whose handler rejects the candidate
  unfoldable pub read_marked :
      Result Value → Option Publication → Option CycleBound → Moment → ℕ → Result PublicationResult
  read_marked (err e) last_complete bound now clock =
      if is_caught e then ok (retained_result last_complete invalid) else err e
  read_marked (ok meta) last_complete bound now clock = do
    old ← is_stale meta bound now
    if old then ok (retained_result last_complete stale) else read_data meta last_complete clock

  unfoldable pub read_marker :
      Option Bytes → Option Publication → Option CycleBound → Moment → ℕ → Result PublicationResult
  read_marker none last_complete bound now clock = ok (retained_result last_complete missing)
  read_marker (some b) last_complete bound now clock =
      read_marked (load_meta loads b) last_complete bound now clock

  unfoldable pub read_generation_result :
      Option Publication → Option CycleBound → Option Moment → ℕ → Result PublicationResult
  read_generation_result last_complete bound now clock = do
    meta_bytes ← download_bytes (get_object 0 (object_key prefix "meta.json"))
    read_marker meta_bytes last_complete bound (checked_at now clock) clock
