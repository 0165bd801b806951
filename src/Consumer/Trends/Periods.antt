-- ===== src/Consumer/Trends/Periods.antt =====
-- Every row with a time has a period, and so the trends of a known bucket are always computed.
use text.Mathlib.TextEquality.{eq_iff}
use argo_workflows_exporter.Base.Text.{text_eq}
use argo_workflows_exporter.Base.{
  String, ◌≡◌, ◌↔◌, ◌⊎◌, inl, inr, Bool-cases, if◌then◌else◌, refl, Option, none, some, List, [],
  ◌∷◌, ◌≤◌,
}
use argo_workflows_exporter.Base.Dict.{Dict}
use argo_workflows_exporter.Base.Results.{Result, ok, ◌>>=◌, bind-eq-ok}
use argo_workflows_exporter.Clock.{Datetime, strptime, sub_days}
use argo_workflows_exporter.Clock.Periods.{weekday, sub_days-weekday, strptime-day}
use argo_workflows_exporter.Rows.{RunRow}
use argo_workflows_exporter.Consumer.Trends.{
  Bucket, hour, day, week, bucket_of, time_of, or_next, timestamp, trend_period, period_at,
  row_period, Entry, observe, group_rows, trends_of, historical_trends,
}

abbrev pub Returns {ℓ} : {A : Type ℓ} → Result A → Type ℓ
Returns {A = A} r = (a : A) × (r ≡ ok a)

bind-Returns {ℓ κ} :
    {A : Type ℓ} {B : Type κ} (r : Result A) (f : A → Result B)
    → Returns r
    → ((a : A) → Returns (f a))
    → Returns (r >>= f)
bind-Returns r f (a, e) h = rw e (h a)

-- a time whose day is in the calendar
abbrev HasDay : Option Datetime → Type 0
HasDay none = Unit
HasDay (some t) = 1 ≤ t.day

strptime-HasDay : (s : String) (o : Option Datetime) → strptime s ≡ o → HasDay o
strptime-HasDay s none h = tt
strptime-HasDay s (some t) h = strptime-day s t h

time_of-HasDay : (o : Option String) → HasDay (time_of o)
time_of-HasDay none = tt
time_of-HasDay (some s) = strptime-HasDay s (strptime s) refl

or_next-HasDay : (o p : Option Datetime) → HasDay o → HasDay p → HasDay (or_next o p)
or_next-HasDay none p h k = k
or_next-HasDay (some t) p h k = h

timestamp-HasDay : (row : RunRow) → HasDay (timestamp row)
unfolding timestamp
timestamp-HasDay row =
    or_next-HasDay (time_of row.shared.finished_at) _ (time_of-HasDay row.shared.finished_at) (
      or_next-HasDay (time_of row.last_seen_at) (time_of row.first_seen_at)
        (time_of-HasDay row.last_seen_at) (time_of-HasDay row.first_seen_at))

trend_period-Returns : (t : Datetime) (b : Bucket) → 1 ≤ t.day → Returns (trend_period t b)
unfolding trend_period
trend_period-Returns t hour h = (_, refl)
trend_period-Returns t day h = (_, refl)
trend_period-Returns t week h =
    bind-Returns (sub_days t (weekday t)) _ (sub_days-weekday t h) (λ s. (_, refl))

period_at-Returns : (b : Bucket) (o : Option Datetime) → HasDay o → Returns (period_at b o)
period_at-Returns b none h = (none, refl)
period_at-Returns b (some t) h =
    bind-Returns (trend_period t b) _ (trend_period-Returns t b h) (λ p. (some p, refl))

group_rows-Returns :
    (b : Bucket) (rows : List RunRow) (grouped : Dict String Entry)
    → Returns (group_rows b rows grouped)
unfolding group_rows
group_rows-Returns b [] grouped = (grouped, refl)
group_rows-Returns b (row ∷ rows) grouped =
    bind-Returns (row_period b row) _ (period_at-Returns b (timestamp row) (timestamp-HasDay row))
      (λ p. group_rows-Returns b rows (observe p row grouped))

historical_trends-total :
    (rows : List RunRow) (bucket : String) (b : Bucket)
    → bucket_of bucket ≡ ok b
    → Returns (historical_trends rows bucket)
unfolding historical_trends
historical_trends-total rows bucket b h = rw h (
    bind-Returns (group_rows b rows []) _ (group_rows-Returns b rows [])
      (λ grouped. (trends_of grouped, refl)))

abbrev pub IsBucket : String → Type 0
IsBucket bucket = (bucket ≡ "hour") ⊎ (bucket ≡ "day") ⊎ (bucket ≡ "week")

named :
    (bucket name : String) (b : Bucket) (rest : Result Bucket)
    → (if text_eq bucket name then ok b else rest) ≡ bucket_of bucket
    → (bucket ≡ name) ⊎ (rest ≡ bucket_of bucket)
named bucket name b rest h = elim (Bool-cases (text_eq bucket name)) [
  | inl e ↦ inl ((eq_iff bucket name).0 e)
  | inr e ↦ inr (rw e at h)
]

bucket_of-IsBucket : (bucket : String) (b : Bucket) → bucket_of bucket ≡ ok b → IsBucket bucket
unfolding bucket_of
bucket_of-IsBucket bucket b h = elim (named bucket "hour" hour _ refl) [
  | inl e ↦ inl e
  | inr k ↦ elim (named bucket "day" day _ k) [
    | inl e ↦ inr (inl e)
    | inr l ↦ elim (named bucket "week" week _ l) [
      | inl e ↦ inr (inr e)
      | inr m ↦ absurd (cc (m, h))
    ]
  ]
]

-- Whatever the ledger holds, the trends are computed exactly for the buckets "hour", "day" and
-- "week": a cell that is no time is passed over, and the Monday of a week is always in the calendar.
pub historical_trends-Returns :
    (rows : List RunRow) (bucket : String)
    → Returns (historical_trends rows bucket) ↔ IsBucket bucket
unfolding historical_trends bucket_of
historical_trends-Returns rows bucket = (
  λ (trends, e). let (b, k, h) = bind-eq-ok (bucket_of bucket) _ e in bucket_of-IsBucket bucket b k,
  λ h. elim h [
    | inl e ↦ historical_trends-total rows bucket hour (rw e refl)
    | inr (inl e) ↦ historical_trends-total rows bucket day (rw e refl)
    | inr (inr e) ↦ historical_trends-total rows bucket week (rw e refl)
  ],
)
