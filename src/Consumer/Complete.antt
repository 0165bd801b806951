-- ===== src/Consumer/Complete.antt =====
-- A candidate is accepted exactly if its three objects are of one generation.
use text.Mathlib.Text.{starts_with}
use text.Mathlib.TextEquality.{eq_iff}
use argo_workflows_exporter.Base.{
  String, ◌≡◌, refl, ap, ◌↔◌, true, false, ◌||◌, Option, none, some, arith, inl, inr, Bool-cases,
}
use argo_workflows_exporter.Base.Results.{Result, ok, err}
use argo_workflows_exporter.Json.{Value}
use argo_workflows_exporter.MetaSchema.CrossField.{validate, id_prefix}
use argo_workflows_exporter.Storage.{Bytes, Pyarrow, read_generation_id}
use argo_workflows_exporter.Consumer.{
  Publication, valid_meta, meta_id, generated_at_of, footer_generation_id, ids_reason,
  rejection_reason, is_absent, succeeded, id_or_none,
}

module _ (P : Pyarrow) where
  -- All three objects are there, the sidecar is valid, both footers carry its id, and the id
  -- extends its time.
  pub record IsComplete (p : Publication) : Type 0 where
    pub valid : validate p.meta ≡ ok tt
    pub workflows_bytes : Bytes
    pub has_workflows : p.workflows ≡ some workflows_bytes
    pub runs_bytes : Bytes
    pub has_runs : p.runs ≡ some runs_bytes
    pub id : String
    pub sidecar_id : meta_id p.meta ≡ some id
    pub workflows_id : read_generation_id P workflows_bytes ≡ ok (some id)
    pub runs_id : read_generation_id P runs_bytes ≡ ok (some id)
    pub extends_time : starts_with id (id_prefix (generated_at_of p.meta)) ≡ true

unit_ok : (r : Result (Unit {0})) → succeeded r ≡ true → r ≡ ok tt
unit_ok (ok tt) h = refl
unit_ok (err e) h = absurd (cc h)

id_ok : (r : Result (Option String)) (id : String) → id_or_none r ≡ some id → r ≡ ok (some id)
id_ok (ok i) id h = ap ok h
id_ok (err e) id h = absurd (cc h)

valid-validate : (meta : Value) → (valid_meta meta ≡ true) ↔ (validate meta ≡ ok tt)
unfolding valid_meta
valid-validate meta = (unit_ok (validate meta), λ h. ap succeeded h)

-- the ids are equal and the sidecar's extends its time
abbrev SameIds : Option String → Option String → Option String → String → Type 0
SameIds m w r at =
    (id : String) × (m ≡ some id)
    × (w ≡ some id)
    × (r ≡ some id)
    × (starts_with id (id_prefix at) ≡ true)

ids_reason-none :
    (m w r : Option String) (at : String) → ids_reason m w r at ≡ none → SameIds m w r at
unfolding ids_reason
ids_reason-none none w r at h = absurd (cc h)
ids_reason-none (some m) none r at h = absurd (cc h)
ids_reason-none (some m) (some w) none at h = absurd (cc h)
ids_reason-none (some m) (some w) (some r) at h = (
  m,
  refl,
  ground (arith, eq_iff m w, eq_iff m r),
  ground (arith, eq_iff m w, eq_iff m r),
  ground (arith, eq_iff m w, eq_iff m r),
)

ids_reason_of_same :
    (id at : String)
    → starts_with id (id_prefix at) ≡ true
    → ids_reason (some id) (some id) (some id) at ≡ none
unfolding ids_reason
ids_reason_of_same id at h = ground (arith, eq_iff id id)

module _ (P : Pyarrow) where
  footer-some :
      (o : Option Bytes) (id : String)
      → footer_generation_id P o ≡ some id
      → (b : Bytes) × (o ≡ some b) × (read_generation_id P b ≡ ok (some id))
  unfolding footer_generation_id
  footer-some none id h = absurd (cc h)
  footer-some (some b) id h = (b, refl, id_ok (read_generation_id P b) id h)

  footer_of_id :
      (o : Option Bytes) (b : Bytes) (id : String)
      → o ≡ some b
      → read_generation_id P b ≡ ok (some id)
      → footer_generation_id P o ≡ some id
  unfolding footer_generation_id
  footer_of_id o b id e h = rw e (ap id_or_none h)

  is_absent_of_some : (o : Option Bytes) (b : Bytes) → o ≡ some b → is_absent o ≡ false
  is_absent_of_some o b e = rw e

  complete_of_accepted : (p : Publication) → rejection_reason P (some p) ≡ none → IsComplete P p
  unfolding rejection_reason
  complete_of_accepted p h = elim (Bool-cases (valid_meta p.meta)) [
    | inr v ↦ absurd (cc (rw v at h))
    | inl v ↦ elim (Bool-cases (is_absent p.workflows || is_absent p.runs)) [
      | inl a ↦ absurd (cc (rw (v, a) at h))
      | inr a ↦
          let (id, m, w, r, extends) = ids_reason-none _ _ _ _ (rw (v, a) at h) in
          let (wb, we, wi) = footer-some p.workflows id w in
          let (rb, re, ri) = footer-some p.runs id r in
          record {
            valid = (valid-validate p.meta).0 v;
            workflows_bytes = wb;
            has_workflows = we;
            runs_bytes = rb;
            has_runs = re;
            id = id;
            sidecar_id = m;
            workflows_id = wi;
            runs_id = ri;
            extends_time = extends;
          }
    ]
  ]

  accepted_of_complete : (p : Publication) → IsComplete P p → rejection_reason P (some p) ≡ none
  unfolding rejection_reason
  accepted_of_complete p c =
      rw
        (
          (valid-validate p.meta).1 c.valid,
          is_absent_of_some p.workflows c.workflows_bytes c.has_workflows,
          is_absent_of_some p.runs c.runs_bytes c.has_runs,
          c.sidecar_id,
          footer_of_id p.workflows c.workflows_bytes c.id c.has_workflows c.workflows_id,
          footer_of_id p.runs c.runs_bytes c.id c.has_runs c.runs_id,
        )
        (ids_reason_of_same c.id (generated_at_of p.meta) c.extends_time)

  -- A candidate has no reason for rejection exactly if the sidecar is valid, both data objects are
  -- there, and both of their footers carry the sidecar's id, which extends the sidecar's time.
  pub rejection_reason-IsComplete :
      (p : Publication) → (rejection_reason P (some p) ≡ none) ↔ IsComplete P p
  rejection_reason-IsComplete p = (complete_of_accepted p, accepted_of_complete p)
