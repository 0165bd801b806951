-- ===== src/Consumer/History/Durations.antt =====
-- The duration history of src/consumer.py.
use argo_workflows_exporter.Base.{
  String, ◌≡◌, ◌≢◌, ◌↔◌, ◌⊎◌, refl, sym, ap, subst, ◌∙◌, inl, inr, true, Option, none, some, List,
  [], ◌∷◌, some_injective, if◌then◌else◌,
}
use argo_workflows_exporter.Base.Text.{text_leb, is_empty}
use argo_workflows_exporter.Base.Lists.{In, IsPairwise, weaken-IsPairwise}
use argo_workflows_exporter.Base.Sort.{IsSorted, sort, sort-In, sort-IsSorted}
use argo_workflows_exporter.Base.Int.{ℤ}
use argo_workflows_exporter.Ledger.Order.{triple_leb_trans, triple_leb_total}
use argo_workflows_exporter.Ledger.Promise.{IsBefore, lexical}
use argo_workflows_exporter.Rows.{RunRow, or_empty}
use argo_workflows_exporter.Consumer.Metrics.{
  DurationEntry, entry_of, first_text, with_duration, duration_entries, entry_before, history_key,
  duration_history,
}

none≢some : {A : Type 0} {a : A} → none ≢ some a
none≢some h = cc h

-- The entry has the columns of a row with a duration.
abbrev pub IsOf : List RunRow → DurationEntry → Type 0
IsOf rows e =
    (row : RunRow) × (duration : ℤ) × In row rows
    × (row.shared.duration_seconds ≡ some duration)
    × (e ≡ record {
      cluster = row.shared.cluster;
      uid = row.shared.uid;
      name = row.shared.name;
      phase = row.shared.phase;
      started_at = row.shared.started_at;
      finished_at = row.shared.finished_at;
      duration_seconds = duration;
    })

abbrev or_blank : Option String → String
or_blank none = ""
or_blank (some s) = s

-- the time of an end, of the start where there is none, and empty where there is neither
abbrev pub ended : Option String → Option String → String
ended none started_at = or_blank started_at
ended (some finished_at) started_at =
    if is_empty finished_at then or_blank started_at else finished_at

ended-eq :
    (finished_at started_at : Option String)
    → first_text finished_at started_at ≡ ended finished_at started_at
ended-eq none none = refl
ended-eq none (some s) = refl
ended-eq (some f) none = refl
ended-eq (some f) (some s) = refl

-- The earlier entry ended before the other; or at the same time, in a cluster before the other's; or
-- in the same cluster too, with a uid that is no later.
abbrev InTurn : String → String → DurationEntry → DurationEntry → Type 0
InTurn s t a b =
    IsBefore s t
    ⊎ ((s ≡ t)
        × (IsBefore (or_empty a.cluster) (or_empty b.cluster)
            ⊎ ((or_empty a.cluster ≡ or_empty b.cluster)
                × (text_leb (or_empty a.uid) (or_empty b.uid) ≡ true))))

abbrev pub IsSooner : DurationEntry → DurationEntry → Type 0
IsSooner a b = InTurn (ended a.finished_at a.started_at) (ended b.finished_at b.started_at) a b

entry_before-IsSooner : (a b : DurationEntry) → entry_before a b ≡ true → IsSooner a b
entry_before-IsSooner a b h =
    let first : InTurn (first_text a.finished_at a.started_at)
        (first_text b.finished_at b.started_at) a b =
      elim (lexical (first_text a.finished_at a.started_at) (first_text b.finished_at b.started_at)
        _ h) [
          | inl p ↦ inl p
          | inr (e, k) ↦ inr (e, lexical (or_empty a.cluster) (or_empty b.cluster) _ k)
        ] in
    subst (λ s. InTurn s (ended b.finished_at b.started_at) a b)
      (ended-eq a.finished_at a.started_at)
      (subst (λ t. InTurn (first_text a.finished_at a.started_at) t a b)
        (ended-eq b.finished_at b.started_at) first)

IsSorted-IsPairwise :
    (es : List DurationEntry)
    → IsSorted entry_before es
    → IsPairwise (λ a b. entry_before a b ≡ true) es
IsSorted-IsPairwise [] h = tt
IsSorted-IsPairwise (e ∷ es) h = (h.0, IsSorted-IsPairwise es h.1)

with_duration-In :
    (row : RunRow) (o : Option ℤ) (rows : List RunRow) (history : List DurationEntry)
    (e : DurationEntry)
    → row.shared.duration_seconds ≡ o
    → In e history ↔ IsOf rows e
    → In e (with_duration row o history) ↔ IsOf (row ∷ rows) e
with_duration-In row none rows history e q (from, into) = (
  λ h. let (r, d, i, h, q) = from h in (r, d, inr i, h, q),
  λ (r, d, i, h, k). elim i [
    | inl s ↦ absurd (none≢some (sym q ∙ ap (λ x. x.shared.duration_seconds) (sym s) ∙ h))
    | inr j ↦ into (r, d, j, h, k)
  ],
)
with_duration-In row (some duration) rows history e q (from, into) = (
  λ i. elim i [
    | inl s ↦ (row, duration, inl refl, q, s)
    | inr h ↦ let (r, d, j, h, k) = from h in (r, d, inr j, h, k)
  ],
  λ (r, d, i, h, k). elim i [
    | inl s ↦ inl (
        k
        ∙ ap (λ x. entry_of x d) s
        ∙ ap (entry_of row) (some_injective (sym h ∙ ap (λ x. x.shared.duration_seconds) s ∙ q)))
    | inr j ↦ inr (into (r, d, j, h, k))
  ],
)

duration_entries-In :
    (rows : List RunRow) (e : DurationEntry) → In e (duration_entries rows) ↔ IsOf rows e
unfolding duration_entries
duration_entries-In [] e = (λ h. absurd h, λ (row, d, i, h, q). absurd i)
duration_entries-In (row ∷ rows) e =
    with_duration-In row row.shared.duration_seconds rows (duration_entries rows) e refl
      (duration_entries-In rows e)

-- The duration history has an entry for each row with a duration and no other, with the columns of
-- that row. They are in the order of the time of the end, or of the start where there is none, then
-- of the cluster and then of the uid.
pub duration_history-IsSorted :
    (rows : List RunRow)
    → IsPairwise IsSooner (duration_history rows)
      × ((e : DurationEntry) → In e (duration_history rows) ↔ IsOf rows e)
unfolding duration_history
duration_history-IsSorted rows = (
  weaken-IsPairwise (λ a b. entry_before a b ≡ true) IsSooner entry_before-IsSooner
      (sort entry_before (duration_entries rows))
      (IsSorted-IsPairwise _ (
        sort-IsSorted entry_before
          (λ a b c. triple_leb_trans (history_key a) (history_key b) (history_key c))
          (λ a b. triple_leb_total (history_key a) (history_key b)) (duration_entries rows))),
  λ e.
      let (a, b) = sort-In entry_before (duration_entries rows) e in
      let (c, d) = duration_entries-In rows e in (λ h. c (a h), λ h. b (d h)),
)
