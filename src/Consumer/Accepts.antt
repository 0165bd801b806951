-- ===== src/Consumer/Accepts.antt =====
-- `read_generation_result` of src/consumer.py accepts what is complete and current.
use argo_workflows_exporter.Base.{ℕ, String, ◌≡◌, refl, sym, ap, false, Option, none, some}
use argo_workflows_exporter.Base.Int.{pos}
use argo_workflows_exporter.Base.Results.{Result, ok}
use argo_workflows_exporter.Json.{Value}
use argo_workflows_exporter.MetaSchema.CrossField.{validate}
use argo_workflows_exporter.Storage.{Bytes, GetOutcome, download_bytes, Pyarrow}
use argo_workflows_exporter.Consumer.{Publication, Moment, CycleBound}
use argo_workflows_exporter.Consumer.Read.{
  checked_at, fresh_result, load_meta, is_stale, read_data, read_marker, read_marked,
  read_generation_result,
}
use argo_workflows_exporter.Consumer.Selection.{
  IsCurrent, lt→not_stale, select_generation_result-fresh,
}
use argo_workflows_exporter.Consumer.Reading.{IsRead}

is_stale-current :
    (meta : Value) (bound : Option CycleBound) (now : Moment)
    → IsCurrent meta bound now
    → is_stale meta bound now ≡ ok false
unfolding is_stale
is_stale-current meta none now h = refl
is_stale-current meta (some bound) now (age, threshold, a, t, lt) =
    rw (a, t) (ap ok (lt→not_stale age (pos threshold) lt))

load_meta-valid :
    (loads : Bytes → Result Value) (b : Bytes) (meta : Value)
    → loads b ≡ ok meta
    → validate meta ≡ ok tt
    → load_meta loads b ≡ ok meta
unfolding load_meta
load_meta-valid loads b meta l v = rw (l, v) refl

module _ (P : Pyarrow) (loads : Bytes → Result Value) (get_object : ℕ → String → GetOutcome)
    (prefix : String) where
  read_data-fresh :
      (last_complete : Option Publication) (bound : Option CycleBound) (now : Moment) (clock : ℕ)
      (p : Publication)
      → IsRead P loads get_object prefix bound now p
      → read_data P loads get_object prefix p.meta last_complete clock ≡ ok (fresh_result p)
  unfolding read_data download_bytes
  read_data-fresh last_complete bound now clock p r =
      rw (r.workflows_stored, r.runs_stored, sym r.complete.has_workflows, sym r.complete.has_runs)
        (select_generation_result-fresh P p last_complete none none clock r.complete tt)

  -- Three calls that return the objects of a complete and current publication make the read return
  -- it as fresh, whatever was read before.
  pub read_generation_result-fresh :
      (last_complete : Option Publication) (bound : Option CycleBound) (now : Option Moment)
      (clock : ℕ) (p : Publication)
      → IsRead P loads get_object prefix bound (checked_at now clock) p
      → read_generation_result P loads get_object prefix last_complete bound now clock
        ≡ ok (fresh_result p)
  unfolding read_generation_result download_bytes read_marker read_marked
  read_generation_result-fresh last_complete bound now clock p r =
      rw
        (
          r.meta_stored,
          load_meta-valid loads r.meta_bytes p.meta r.meta_decodes r.complete.valid,
          is_stale-current p.meta bound (checked_at now clock) r.current,
        )
        (read_data-fresh last_complete bound (checked_at now clock) clock p r)
