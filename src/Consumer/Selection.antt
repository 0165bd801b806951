-- ===== src/Consumer/Selection.antt =====
-- What `select_generation_result` and `read_generation_result` return.
use argo_workflows_exporter.Base.{
  ℕ, ◌≡◌, refl, ◌↔◌, ◌⊎◌, inl, inr, true, false, Option, none, some, arith, Bool-cases,
}
use argo_workflows_exporter.Base.Int.{ℤ, pos, ◌<ℤ◌, ltb_ℤ, leb_ℤ}
use argo_workflows_exporter.Base.Results.{ok, bind-eq-ok}
use argo_workflows_exporter.Json.{Value}
use argo_workflows_exporter.Storage.{Pyarrow}
use argo_workflows_exporter.Consumer.{
  Publication, PublicationReason, PublicationResult, missing, stale, Moment, CycleBound, is_fresh,
  freshness_age, freshness_threshold, fields_of, rejection_reason, retained_result,
}
use argo_workflows_exporter.Consumer.Read.{
  checked_at, fresh_result, select_current, select_generation_result, select_unless,
}
use argo_workflows_exporter.Consumer.Complete.{IsComplete, rejection_reason-IsComplete}

-- The sidecar is younger than one effective polling cadence, where a bound is given.
abbrev pub IsCurrent : Value → Option CycleBound → Moment → Type 0
IsCurrent meta none now = Unit
IsCurrent meta (some bound) now =
    (age : ℤ) × (threshold : ℕ) × (freshness_age (fields_of meta) now ≡ ok age)
    × (freshness_threshold (fields_of meta) bound ≡ ok threshold)
    × (age <ℤ pos threshold)

ltb→lt_ℤ : (a b : ℤ) → (ltb_ℤ a b ≡ true) ↔ (a <ℤ b)
ltb→lt_ℤ a b = ground arith

pub not_stale : (a b : ℤ) → leb_ℤ b a ≡ false → a <ℤ b
not_stale a b h = ground arith

pub lt→not_stale : (a b : ℤ) → a <ℤ b → leb_ℤ b a ≡ false
lt→not_stale a b h = ground arith

is_fresh-true :
    (meta : Value) (bound : CycleBound) (now : Moment)
    → (is_fresh (fields_of meta) now bound ≡ ok true) ↔ IsCurrent meta (some bound) now
unfolding is_fresh
is_fresh-true meta bound now = (
  λ h.
      let (age, a, h1) = bind-eq-ok (freshness_age (fields_of meta) now) _ h in
      let (threshold, t, h2) = bind-eq-ok (freshness_threshold (fields_of meta) bound) _ h1 in
      (age, threshold, a, t, (ltb→lt_ℤ age (pos threshold)).0 (cc h2)),
  λ (age, threshold, a, t, lt). rw (a, t, (ltb→lt_ℤ age (pos threshold)).1 lt) refl,
)

module _ (P : Pyarrow) where
  -- The candidate is there, complete and current.
  abbrev pub IsSelectable : Option Publication → Option CycleBound → Moment → Publication → Type 0
  IsSelectable candidate bound now p =
      (candidate ≡ some p) × IsComplete P p × IsCurrent p.meta bound now

  select_current-current :
      (p : Publication) (last_complete : Option Publication) (bound : Option CycleBound)
      (now : Moment)
      → IsCurrent p.meta bound now
      → select_current p last_complete bound now ≡ ok (fresh_result p)
  unfolding select_current
  select_current-current p last_complete none now h = refl
  select_current-current p last_complete (some bound) now h =
      rw ((is_fresh-true p.meta bound now).1 h) refl

  select_current-cases :
      (p : Publication) (last_complete : Option Publication) (bound : Option CycleBound)
      (now : Moment) (r : PublicationResult)
      → select_current p last_complete bound now ≡ ok r
      → ((r ≡ fresh_result p) × IsCurrent p.meta bound now)
        ⊎ (r ≡ retained_result last_complete stale)
  unfolding select_current
  select_current-cases p last_complete none now r h = inl (cc h, tt)
  select_current-cases p last_complete (some bound) now r h =
      let (current, f, g) = bind-eq-ok (is_fresh (fields_of p.meta) now bound) _ h in
      elim (Bool-cases current) [
        | inl e ↦ inl (cc (rw e at g), (is_fresh-true p.meta bound now).0 (rw e at f))
        | inr e ↦ inr (cc (rw e at g))
      ]

  select_unless-cases :
      (o : Option PublicationReason) (p : Publication) (last_complete : Option Publication)
      (bound : Option CycleBound) (now : Moment) (r : PublicationResult)
      → select_unless o p last_complete bound now ≡ ok r
      → ((o ≡ none) × (r ≡ fresh_result p) × IsCurrent p.meta bound now)
        ⊎ ((reason : PublicationReason) × (r ≡ retained_result last_complete reason))
  unfolding select_unless
  select_unless-cases (some reason) p last_complete bound now r h = inr (reason, cc h)
  select_unless-cases none p last_complete bound now r h =
      elim (select_current-cases p last_complete bound now r h) [
        | inl (s, c) ↦ inl (refl, s, c)
        | inr s ↦ inr (stale, s)
      ]

  -- A selection that returns gives the candidate as fresh, and then it is complete and current, or
  -- gives the last complete publication unchanged with a reason.
  pub select_generation_result-cases :
      (candidate last_complete : Option Publication) (bound : Option CycleBound)
      (now : Option Moment) (clock : ℕ) (r : PublicationResult)
      → select_generation_result P candidate last_complete bound now clock ≡ ok r
      → ((p : Publication) × (r ≡ fresh_result p)
          × IsSelectable candidate bound (checked_at now clock) p)
        ⊎ ((reason : PublicationReason) × (r ≡ retained_result last_complete reason))
  unfolding select_generation_result
  select_generation_result-cases none last_complete bound now clock r h = inr (missing, cc h)
  select_generation_result-cases (some p) last_complete bound now clock r h =
      elim (select_unless-cases (rejection_reason P (some p)) p last_complete bound
        (checked_at now clock) r h) [
          | inl (e, s, c) ↦ inl (p, s, (refl, (rejection_reason-IsComplete P p).0 e, c))
          | inr x ↦ inr x
        ]

  -- A candidate that is complete and current is selected, whatever was read before.
  pub select_generation_result-fresh :
      (p : Publication) (last_complete : Option Publication) (bound : Option CycleBound)
      (now : Option Moment) (clock : ℕ)
      → IsComplete P p
      → IsCurrent p.meta bound (checked_at now clock)
      → select_generation_result P (some p) last_complete bound now clock ≡ ok (fresh_result p)
  unfolding select_generation_result select_unless
  select_generation_result-fresh p last_complete bound now clock complete current =
      rw ((rejection_reason-IsComplete P p).1 complete)
        (select_current-current p last_complete bound (checked_at now clock) current)
