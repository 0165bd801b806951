-- ===== src/Consumer/Reading.antt =====
-- What `read_generation_result` of src/consumer.py returns.
use argo_workflows_exporter.Base.{
  some_injective, ℕ, String, ◌≡◌, refl, sym, ap, subst, ◌∙◌, ◌⊎◌, inl, inr, false, Option, none,
  some, arith, Bool-cases,
}
use argo_workflows_exporter.Base.Int.{pos}
use argo_workflows_exporter.Base.Results.{Result, ok, err, bind-eq-ok}
use argo_workflows_exporter.Json.{Value}
use argo_workflows_exporter.MetaSchema.CrossField.{validate}
use argo_workflows_exporter.Storage.{
  Bytes, GetOutcome, body, no_such_key, failed, download_bytes, object_key, Pyarrow,
}
use argo_workflows_exporter.Consumer.{
  Publication, PublicationReason, PublicationResult, fresh, fallback, no_publication, missing,
  invalid, stale, Moment, aware, CycleBound, freshness_age, freshness_threshold, fields_of,
  retained_result,
}
use argo_workflows_exporter.Consumer.Read.{
  checked_at, fresh_result, load_meta, is_stale, is_caught, read_data, read_marker, read_marked,
  read_generation_result,
}
use argo_workflows_exporter.Consumer.Complete.{IsComplete}
use argo_workflows_exporter.Consumer.Selection.{
  IsCurrent, not_stale, select_generation_result-cases,
}

download-body : (o : GetOutcome) (b : Bytes) → download_bytes o ≡ ok (some b) → o ≡ body b
unfolding download_bytes
download-body (body c) b h = ground arith
download-body no_such_key b h = absurd (cc h)
download-body (failed e) b h = absurd (cc h)

is_stale-false :
    (meta : Value) (bound : Option CycleBound) (now : Moment)
    → is_stale meta bound now ≡ ok false
    → IsCurrent meta bound now
unfolding is_stale
is_stale-false meta none now h = tt
is_stale-false meta (some bound) now h =
    let (age, a, h1) = bind-eq-ok (freshness_age (fields_of meta) now) _ h in
    let (threshold, t, h2) = bind-eq-ok (freshness_threshold (fields_of meta) bound) _ h1 in
    (age, threshold, a, t, not_stale age (pos threshold) (cc h2))

load_meta-ok :
    (loads : Bytes → Result Value) (b : Bytes) (meta : Value)
    → load_meta loads b ≡ ok meta
    → loads b ≡ ok meta
unfolding load_meta
load_meta-ok loads b meta h =
    let (v, l, h1) = bind-eq-ok (loads b) _ h in
    let (u, c, h2) = bind-eq-ok (validate v) _ h1 in l ∙ h2

module _ (P : Pyarrow) (loads : Bytes → Result Value) (get_object : ℕ → String → GetOutcome)
    (prefix : String) where
  -- The publication is what the three calls of the read returned, it is complete, and it was
  -- current.
  pub record IsRead (bound : Option CycleBound) (now : Moment) (p : Publication) : Type 0 where
    pub meta_bytes : Bytes
    pub meta_stored : get_object 0 (object_key prefix "meta.json") ≡ body meta_bytes
    pub meta_decodes : loads meta_bytes ≡ ok p.meta
    pub complete : IsComplete P p
    pub workflows_stored :
        get_object 1 (object_key prefix "workflows.parquet") ≡ body complete.workflows_bytes
    pub runs_stored : get_object 2 (object_key prefix "runs.parquet") ≡ body complete.runs_bytes
    pub current : IsCurrent p.meta bound now

  -- the result is the candidate, read whole, or the last complete publication
  abbrev Outcome : Option Publication → Option CycleBound → Moment → PublicationResult → Type 0
  Outcome last_complete bound now r =
      ((p : Publication) × (r ≡ fresh_result p) × IsRead bound now p)
      ⊎ ((reason : PublicationReason) × (r ≡ retained_result last_complete reason))

  complete-IsRead :
      (b : Bytes) (p : Publication) (bound : Option CycleBound) (now : Moment)
      → get_object 0 (object_key prefix "meta.json") ≡ body b
      → loads b ≡ ok p.meta
      → IsCurrent p.meta bound now
      → download_bytes (get_object 1 (object_key prefix "workflows.parquet")) ≡ ok p.workflows
      → download_bytes (get_object 2 (object_key prefix "runs.parquet")) ≡ ok p.runs
      → IsComplete P p
      → IsRead bound now p
  complete-IsRead b p bound now stored decodes current w s c = record {
    meta_bytes = b;
    meta_stored = stored;
    meta_decodes = decodes;
    complete = c;
    workflows_stored = download-body _ _ (w ∙ ap ok c.has_workflows);
    runs_stored = download-body _ _ (s ∙ ap ok c.has_runs);
    current = current;
  }

  read_data-cases :
      (b : Bytes) (meta : Value) (last_complete : Option Publication) (bound : Option CycleBound)
      (now : Moment) (clock : ℕ) (r : PublicationResult)
      → get_object 0 (object_key prefix "meta.json") ≡ body b
      → loads b ≡ ok meta
      → IsCurrent meta bound now
      → read_data P loads get_object prefix meta last_complete clock ≡ ok r
      → Outcome last_complete bound now r
  unfolding read_data
  read_data-cases b meta last_complete bound now clock r stored decodes current h =
      let (w, dw, h1) =
        bind-eq-ok (download_bytes (get_object 1 (object_key prefix "workflows.parquet"))) _ h in
      let (s, ds, h2) =
        bind-eq-ok (download_bytes (get_object 2 (object_key prefix "runs.parquet"))) _ h1 in
      elim (select_generation_result-cases P
        (some (record { meta = meta; workflows = w; runs = s })) last_complete none none clock r
        h2) [
          | inl (p, e, (same, c, u)) ↦
              let q = some_injective same in
              inl (
                p,
                e,
                complete-IsRead b p bound now stored (decodes ∙ ap (λ x. ok x.meta) q)
                    (subst (λ x. IsCurrent x.meta bound now) q current)
                    (dw ∙ ap (λ x. ok x.workflows) q) (ds ∙ ap (λ x. ok x.runs) q) c,
              )
          | inr x ↦ inr x
        ]

  read_marked-cases :
      (b : Bytes) (o : Result Value) (last_complete : Option Publication)
      (bound : Option CycleBound) (now : Moment) (clock : ℕ) (r : PublicationResult)
      → get_object 0 (object_key prefix "meta.json") ≡ body b
      → load_meta loads b ≡ o
      → read_marked P loads get_object prefix o last_complete bound now clock ≡ ok r
      → Outcome last_complete bound now r
  unfolding read_marked
  read_marked-cases b (err e) last_complete bound now clock r stored l h =
      elim (Bool-cases (is_caught e)) [
        | inl c ↦ inr (invalid, cc (rw c at h))
        | inr c ↦ absurd (cc (rw c at h))
      ]
  read_marked-cases b (ok meta) last_complete bound now clock r stored l h =
      let (old, o, h1) = bind-eq-ok (is_stale meta bound now) _ h in
      elim (Bool-cases old) [
        | inl e ↦ inr (stale, cc (rw e at h1))
        | inr e ↦
            read_data-cases b meta last_complete bound now clock r stored
              (load_meta-ok loads b meta l) (is_stale-false meta bound now (o ∙ ap ok e))
              (rw e at h1)
      ]

  read_marker-cases :
      (o : Option Bytes) (last_complete : Option Publication) (bound : Option CycleBound)
      (now : Moment) (clock : ℕ) (r : PublicationResult)
      → download_bytes (get_object 0 (object_key prefix "meta.json")) ≡ ok o
      → read_marker P loads get_object prefix o last_complete bound now clock ≡ ok r
      → Outcome last_complete bound now r
  unfolding read_marker
  read_marker-cases none last_complete bound now clock r d h = inr (missing, cc h)
  read_marker-cases (some b) last_complete bound now clock r d h =
      read_marked-cases b (load_meta loads b) last_complete bound now clock r (download-body _ b d)
        refl h

  pub read-Outcome :
      (last_complete : Option Publication) (bound : Option CycleBound) (now : Option Moment)
      (clock : ℕ) (r : PublicationResult)
      → read_generation_result P loads get_object prefix last_complete bound now clock ≡ ok r
      → Outcome last_complete bound (checked_at now clock) r
  unfolding read_generation_result
  read-Outcome last_complete bound now clock r h =
      let (o, d, h1) =
        bind-eq-ok (download_bytes (get_object 0 (object_key prefix "meta.json"))) _ h in
      read_marker-cases o last_complete bound (checked_at now clock) clock r d h1

  -- the moment of the read: the argument, or the clock, which answers in UTC
  abbrev pub moment : Option Moment → ℕ → Moment
  moment none clock = aware clock
  moment (some m) clock = m

  checked_at-eq : (now : Option Moment) (clock : ℕ) → checked_at now clock ≡ moment now clock
  checked_at-eq none clock = refl
  checked_at-eq (some m) clock = refl

  -- A publication that was read is given with no reason.
  pub record IsFresh (bound : Option CycleBound) (now : Moment) (r : PublicationResult)
      : Type 0 where
    pub read : Publication
    pub is_read : IsRead bound now read
    pub given : r.publication ≡ some read
    pub status_fresh : r.status ≡ fresh
    pub no_reason : r.reason ≡ none

  abbrev pub IsFallback : Option Publication → PublicationResult → Type 0
  IsFallback none r = (r.publication ≡ none) × (r.status ≡ no_publication)
  IsFallback (some p) r = (r.publication ≡ some p) × (r.status ≡ fallback)

  IsFallback-retained :
      (last_complete : Option Publication) (reason : PublicationReason)
      → IsFallback last_complete (retained_result last_complete reason)
        × ((retained_result last_complete reason).reason ≡ some reason)
  unfolding retained_result
  IsFallback-retained none reason = ((refl, refl), refl)
  IsFallback-retained (some p) reason = ((refl, refl), refl)

  -- A read that returns gives a publication as fresh, with no reason, and then it is complete,
  -- current, and made of the bytes that the three calls returned; or it gives the last complete
  -- publication unchanged, as a fallback, or none if there is none, with a reason.
  pub read_generation_result-cases :
      (last_complete : Option Publication) (bound : Option CycleBound) (now : Option Moment)
      (clock : ℕ) (r : PublicationResult)
      → read_generation_result P loads get_object prefix last_complete bound now clock ≡ ok r
      → IsFresh bound (moment now clock) r
        ⊎ (IsFallback last_complete r × ((reason : PublicationReason) × (r.reason ≡ some reason)))
  read_generation_result-cases last_complete bound now clock r h =
      elim (read-Outcome last_complete bound now clock r h) [
        | inl (p, e, c) ↦ inl (record {
          read = p;
          is_read = subst (λ m. IsRead bound m p) (checked_at-eq now clock) c;
          given = ap (λ x. x.publication) e;
          status_fresh = ap (λ x. x.status) e;
          no_reason = ap (λ x. x.reason) e;
        })
        | inr (reason, e) ↦
            let (kept, has_reason) = IsFallback-retained last_complete reason in
            inr (
              subst (IsFallback last_complete) (sym e) kept,
              (reason, ap (λ x. x.reason) e ∙ has_reason),
            )
      ]
