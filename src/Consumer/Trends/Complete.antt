-- ===== src/Consumer/Trends/Complete.antt =====
-- The trends of src/consumer.py: one for each period that a row falls in, in order.
use text.Mathlib.TextEquality.{eq_iff}
use argo_workflows_exporter.Base.{
  ◌+◌, ◌≤◌, String, ◌≡◌, ◌≢◌, refl, sym, ap, subst, ◌∙◌, inl, inr, true, Option, none, some, List,
  [], ◌∷◌, map, arith, Bool-cases,
}
use argo_workflows_exporter.Base.Text.{text_eq, text_leb}
use argo_workflows_exporter.Base.Text.Order.{text_leb_trans, text_leb_total}
use argo_workflows_exporter.Base.Dict.{Dict, lookup, string_eq, UniqueKeys, put-UniqueKeys}
use argo_workflows_exporter.Base.Lists.{All, In, IsPairwise, length, keep-In}
use argo_workflows_exporter.Base.Sort.{sort, IsSorted, sort-In, sort-IsSorted, sort-IsPairwise}
use argo_workflows_exporter.Base.Results.{ok, bind-eq-ok, ok_injective}
use argo_workflows_exporter.Rows.{RunRow}
use argo_workflows_exporter.Consumer.Metrics.{phase_of, rate}
use argo_workflows_exporter.Consumer.Metrics.Tallies.{count}
use argo_workflows_exporter.Consumer.Trends.{
  Bucket, bucket_of, row_period, Entry, empty_entry, entry_in, counted, observe, group_rows, Trend,
  trend_of, keys, trends_of, historical_trends,
}
use argo_workflows_exporter.Consumer.Trends.Totals.{
  falls_in, in_period, in_phase, Grows, group_rows-Grows,
}

-- what an entry of the trends is
pub record IsTrend (b : Bucket) (rows : List RunRow) (t : Trend) : Type 0 where
  pub total_is : t.total ≡ count (in_period b t.period) rows
  pub succeeded_is : t.succeeded ≡ count (in_phase b t.period "Succeeded") rows
  pub failed_is : t.failed ≡ count (in_phase b t.period "Failed") rows
  pub error_is : t.error ≡ count (in_phase b t.period "Error") rows
  pub completed_is : t.completed ≡ t.succeeded + t.failed + t.error
  pub success_rate_is : t.success_rate ≡ rate t.succeeded t.completed
  pub failure_rate_is : t.failure_rate ≡ rate (t.failed + t.error) t.completed

abbrev pub periods : List Trend → List String
periods = map (λ t. t.period)

-- what the trends of some rows are
pub record AreTrends (b : Bucket) (rows : List RunRow) (trends : List Trend) : Type 0 where
  pub entries_are : All (IsTrend b rows) trends
  pub ascending : IsSorted text_leb (periods trends)
  pub different : IsPairwise ◌≢◌ (periods trends)
  pub covers :
      (row : RunRow) (period : String)
      → In row rows
      → row_period b row ≡ ok (some period)
      → In period (periods trends)

trend_of-IsTrend :
    (b : Bucket) (rows : List RunRow) (d : Dict String Entry) (period : String)
    → Grows b period rows empty_entry (entry_in period d)
    → IsTrend b rows (trend_of period (entry_in period d))
trend_of-IsTrend b rows d period g = record {
  total_is = omega (arith, g.total_adds);
  succeeded_is = omega (arith, g.succeeded_adds);
  failed_is = omega (arith, g.failed_adds);
  error_is = omega (arith, g.error_adds);
  completed_is = refl;
  success_rate_is = refl;
  failure_rate_is = refl;
}

map-All :
    {A B : Type 0} (P : B → Type 0) (f : A → B) (xs : List A)
    → ((x : A) → P (f x))
    → All P (map f xs)
map-All P f [] h = tt
map-All P f (x ∷ xs) h = (h x, map-All P f xs h)

observe-UniqueKeys :
    (q : Option String) (row : RunRow) (d : Dict String Entry)
    → UniqueKeys d
    → UniqueKeys (observe q row d)
observe-UniqueKeys none row d u = u
observe-UniqueKeys (some q) row d u = put-UniqueKeys q (counted (phase_of row) (entry_in q d)) d u

group_rows-UniqueKeys :
    (b : Bucket) (rows : List RunRow) (d e : Dict String Entry)
    → group_rows b rows d ≡ ok e
    → UniqueKeys d
    → UniqueKeys e
unfolding group_rows
group_rows-UniqueKeys b [] d e h u = subst UniqueKeys (ok_injective h) u
group_rows-UniqueKeys b (row ∷ rows) d e h u =
    let (q, r, h) = bind-eq-ok (row_period b row) _ h in
    group_rows-UniqueKeys b rows (observe q row d) e h (observe-UniqueKeys q row d u)

absent-All : (k : String) (d : Dict String Entry) → lookup k d ≡ none → All (λ j. k ≢ j) (keys d)
unfolding lookup
absent-All k [] h = tt
absent-All k ((j, e) ∷ d) h = elim (Bool-cases (text_eq j k)) [
  | inl q ↦ absurd (cc (rw q at h))
  | inr q ↦ (ground (arith, eq_iff j k, q), absent-All k d (rw q at h))
]

keys-IsPairwise : (d : Dict String Entry) → UniqueKeys d → IsPairwise ◌≢◌ (keys d)
keys-IsPairwise [] u = tt
keys-IsPairwise ((k, e) ∷ d) u = (absent-All k d u.0, keys-IsPairwise d u.1)

-- a key with rows is there
counted-In : (k : String) (d : Dict String Entry) → 1 ≤ (entry_in k d).total → In k (keys d)
unfolding lookup
counted-In k [] h = absurd (omega (arith, h))
counted-In k ((j, e) ∷ d) h = elim (Bool-cases (text_eq j k)) [
  | inl q ↦ inl (sym ((eq_iff j k).0 q))
  | inr q ↦ inr (counted-In k d (rw q at h))
]

In-length : {A : Type 0} (a : A) (xs : List A) → In a xs → 1 ≤ length xs
In-length a [] h = absurd h
In-length a (x ∷ xs) h = omega arith

map-periods :
    (f : String → Trend) (ps : List String)
    → ((p : String) → (f p).period ≡ p)
    → periods (map f ps) ≡ ps
map-periods f [] h = refl
map-periods f (p ∷ ps) h = rw (h p, map-periods f ps h) refl

true_of :
    (b : Bucket) (row : RunRow) (period : String)
    → row_period b row ≡ ok (some period)
    → in_period b period row ≡ true
true_of b row period h = ap (λ x. falls_in x period) h ∙ (eq_iff period period).1 refl

trends_of-AreTrends :
    (b : Bucket) (rows : List RunRow) (d : Dict String Entry)
    → group_rows b rows [] ≡ ok d
    → AreTrends b rows (trends_of d)
unfolding lookup
trends_of-AreTrends b rows d h =
    let same = map-periods (λ p. trend_of p (entry_in p d)) (sort text_leb (keys d)) (λ p. refl) in
    record {
      entries_are =
          map-All (IsTrend b rows) (λ p. trend_of p (entry_in p d)) (sort text_leb (keys d))
            (λ p. trend_of-IsTrend b rows d p (group_rows-Grows b p rows [] d h));
      ascending =
          subst (IsSorted text_leb) (sym same)
            (sort-IsSorted text_leb text_leb_trans text_leb_total (keys d));
      different = subst (IsPairwise ◌≢◌) (sym same) (
          sort-IsPairwise text_leb ◌≢◌ (λ a b n e. n (sym e)) (keys d)
            (keys-IsPairwise d (group_rows-UniqueKeys b rows [] d h tt)));
      covers = λ row period i r. subst (In period) (sym same) (
          (sort-In text_leb (keys d) period).1 (
            counted-In period d (
              omega (
                arith,
                (group_rows-Grows b period rows [] d h).total_adds,
                In-length row _ (keep-In (in_period b period) rows row i (true_of b row period r)),
              ))));
    }

-- The trends of the ledger are ascending and have each period once, and there is one for every row
-- that has a time. An entry counts the rows of its period, in all and by phase, and its rates are
-- shares of the completed ones.
pub historical_trends-AreTrends :
    (rows : List RunRow) (bucket : String) (b : Bucket) (trends : List Trend)
    → bucket_of bucket ≡ ok b
    → historical_trends rows bucket ≡ ok trends
    → AreTrends b rows trends
unfolding historical_trends
historical_trends-AreTrends rows bucket b trends k h =
    let (c, e, h) = bind-eq-ok (bucket_of bucket) _ h in
    let (d, g, h) = bind-eq-ok (group_rows c rows []) _ h in
    subst (λ x. AreTrends x rows trends) (ok_injective (sym e ∙ k))
      (subst (AreTrends c rows) (ok_injective h) (trends_of-AreTrends c rows d g))
