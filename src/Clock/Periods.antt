-- ===== src/Clock/Periods.antt =====
-- `strftime` with `%Y-%m-%d` and with `%Y-%m-%dT%H:00:00Z`, `weekday`, and the Monday of a week.
use Prim.Native.String
use argo_workflows_exporter.Base.{
  ℕ, ◌+◌, ◌%◌, ◌≤◌, ◌<◌, String, ◌≡◌, refl, subst, inl, inr, ◌||◌, true, false, Bool, Bool-cases,
  arith, ltb, leb, Option, some, none, some_injective, if◌then◌else◌,
}
use argo_workflows_exporter.Base.Text.{digit?}
use argo_workflows_exporter.Base.Results.{Result, ok, overflow_error}
use argo_workflows_exporter.Clock.{
  Datetime, to_ordinal, sub_days, pad2, print_year, ◌>>=◌, strptime, checked, in_range, year_field,
  field, month1, month2, day2, hour2, minute2, second2, is_sign, is_letter,
}

infixr 65 ◌<>◌
abbrev ◌<>◌ : String → String → String
s <> t = String.◌++◌ s t

unfoldable pub print_date : Datetime → String
unfolding print_year pad2
print_date t = print_year t.year <> "-" <> pad2 t.month <> "-" <> pad2 t.day

unfoldable pub print_hour : Datetime → String
unfolding print_year pad2
print_hour t = print_date t <> "T" <> pad2 t.hour <> ":00:00Z"

-- Monday is 0
unfoldable pub weekday : Datetime → ℕ
weekday t = (to_ordinal t.year t.month t.day + 6) % 7

not_refused :
    (b : Bool) (v : Datetime)
    → b ≡ false
    → (s : Datetime) × ((if b then Result.err overflow_error else ok v) ≡ ok s)
not_refused true v h = absurd (cc h)
not_refused false v h = (v, refl)

in_calendar :
    (ordinal days : ℕ)
    → days ≤ 6
    → days < ordinal
    → (ltb 999999999 days || leb ordinal days) ≡ false
in_calendar ordinal days h k = ground arith

to_ordinal-pos : (t : Datetime) → 1 ≤ t.day → 1 ≤ to_ordinal t.year t.month t.day
unfolding to_ordinal
to_ordinal-pos t h = omega (arith, h)

weekday_size : (n : ℕ) → 1 ≤ n → ((n + 6) % 7 ≤ 6) × ((n + 6) % 7 < n)
weekday_size n h = (omega arith, omega (arith, h))

-- The Monday of a week is never before the first day of the calendar.
pub sub_days-weekday : (t : Datetime) → 1 ≤ t.day → (s : Datetime) × (sub_days t (weekday t) ≡ ok s)
unfolding weekday sub_days
sub_days-weekday t h =
    let (a, b) = weekday_size (to_ordinal t.year t.month t.day) (to_ordinal-pos t h) in
    not_refused _ _ (
      in_calendar (to_ordinal t.year t.month t.day) ((to_ordinal t.year t.month t.day + 6) % 7) a b)

in_range-day : (t : Datetime) → in_range t ≡ true → 1 ≤ t.day
unfolding in_range
in_range-day t h = ground arith

checked-day : (t u : Datetime) (s : String) → checked t s ≡ some u → 1 ≤ u.day
unfolding checked
checked-day t u (String.◌∷◌ c s) h = absurd (cc h)
checked-day t u String.[] h = elim (Bool-cases (in_range t)) [
  | inl e ↦ subst (λ x. 1 ≤ x.day) (some_injective (rw e at h)) (in_range-day t e)
  | inr e ↦ absurd (cc (rw e at h))
]

bind-some :
    {A B : Type 0} (o : Option A) (f : A → Option B) {b : B}
    → (o >>= f) ≡ some b
    → (a : A) × (o ≡ some a) × (f a ≡ some b)
bind-some none f h = absurd (cc h)
bind-some (some a) f h = (a, refl, h)

-- The day of a time that is read is at least 1.
pub strptime-day : (s : String) (t : Datetime) → strptime s ≡ some t → 1 ≤ t.day
unfolding strptime
strptime-day s t h =
    let (y, e, h) = bind-some (year_field s) _ h in
    let (m, e, h) = bind-some (field month1 month2 (is_sign b'-') y.1) _ h in
    let (d, e, h) = bind-some (field month1 day2 (is_letter b'T') m.1) _ h in
    let (o, e, h) = bind-some (field digit? hour2 (is_sign b':') d.1) _ h in
    let (i, e, h) = bind-some (field digit? minute2 (is_sign b':') o.1) _ h in
    let (c, e, h) = bind-some (field digit? second2 (is_letter b'Z') i.1) _ h in
    checked-day
      (record { year = y.0; month = m.0; day = d.0; hour = o.0; minute = i.0; second = c.0 }) t c.1
      h

monday :
    print_date (record { year = 2024; month = 2; day = 29; hour = 6; minute = 5; second = 9 })
    ≡ "2024-02-29"
unfolding print_date
monday = refl
