-- ===== src/Clock.antt =====
-- The parts of Python's `datetime` that the program uses: `strptime` and `strftime` with the format
-- `%Y-%m-%dT%H:%M:%SZ`, and the subtraction of whole days. Times are in UTC.
pub mod Iso
pub mod Digits
pub mod RoundTrip
pub mod Periods
use Prim.Native.Char.{Char, code}
use Prim.Native.String
use argo_workflows_exporter.Base.{
  ℕ, zero, suc, ◌+◌, ◌-◌, ◌*◌, ◌/◌, ◌%◌, ◌≤◌, String, ◌≡◌, refl, Bool, not, ◌&&◌, ◌||◌, Option,
  none, some, ltb, leb, ◌==◌, if◌then◌else◌,
}
use argo_workflows_exporter.Base.Text.{digit?}
use argo_workflows_exporter.Base.Results.{Result, ok, err, overflow_error}

pub record Datetime : Type 0 where
  pub year : ℕ
  pub month : ℕ
  pub day : ℕ
  pub hour : ℕ
  pub minute : ℕ
  pub second : ℕ

-- `calendar`

unfoldable pub is_leap : ℕ → Bool
is_leap y = (y % 4 == 0) && ((not (y % 100 == 0)) || (y % 400 == 0))

unfoldable pub days_in_month : ℕ → ℕ → ℕ
unfolding is_leap
days_in_month year month =
    if month == 2 && is_leap year
    then 29
    else if month == 2
    then 28
    else if month == 4 || month == 6 || month == 9 || month == 11
    then 30
    else 31

-- days in the year before the first of the month, for months 1 to 12
unfoldable pub days_before_month : ℕ → ℕ → ℕ
unfolding days_in_month
days_before_month y zero = 0
days_before_month y (suc zero) = 0
days_before_month y (suc (suc m)) = days_before_month y (suc m) + days_in_month y (suc m)

unfoldable pub days_before_year : ℕ → ℕ
days_before_year y = let p = y - 1 in p * 365 + p / 4 - p / 100 + p / 400

-- `date.toordinal`: 1 January of year 1 is day 1
unfoldable pub to_ordinal : ℕ → ℕ → ℕ → ℕ
unfolding days_before_year days_before_month
to_ordinal y m d = days_before_year y + days_before_month y m + d

-- the first estimate of the month is right or one too large
unfoldable pub month_and_day : ℕ → ℕ → ℕ × ℕ
unfolding days_before_month
month_and_day y n =
    let m = (n + 50) / 32 in
    if ltb n (days_before_month y m)
    then (m - 1, n - days_before_month y (m - 1) + 1)
    else (m, n - days_before_month y m + 1)

-- `date.fromordinal`
unfoldable pub from_ordinal : ℕ → ℕ × ℕ × ℕ
unfolding month_and_day
from_ordinal ordinal =
    let n = ordinal - 1 in
    let n400 = n / 146097 in
    let r400 = n % 146097 in
    let n100 = r400 / 36524 in
    let r100 = r400 % 36524 in
    let n4 = r100 / 1461 in
    let r4 = r100 % 1461 in
    let n1 = r4 / 365 in
    let r1 = r4 % 365 in
    let y = n400 * 400 + 1 + n100 * 100 + n4 * 4 + n1 in
    if (n1 == 4) || (n100 == 4)
    then (y - 1, 12, 31)
    else let (m, d) = month_and_day y r1 in (y, m, d)

-- `t - timedelta(days=days)`
unfoldable pub sub_days : Datetime → ℕ → Result Datetime
unfolding to_ordinal from_ordinal
sub_days t days =
    let ordinal = to_ordinal t.year t.month t.day in
    if ltb 999999999 days || leb ordinal days
    then err overflow_error
    else let (y, m, d) = from_ordinal (ordinal - days) in
      ok (record t { year = y; month = m; day = d })

-- `strptime`. A field that is followed by a separator ends at it, so a field of one or two
-- characters is read by where the separator stands.

infixl 5 ◌>>=◌
abbrev ◌>>=◌ : {A B : Type 0} → Option A → (A → Option B) → Option B
none >>= f = none
some a >>= f = f a

abbrev or_try : {A : Type 0} → Option A → Option A → Option A
or_try none n = n
or_try (some a) n = some a

-- `[lo-hi]`
digit_in : ℕ → ℕ → Char → Option ℕ
digit_in lo hi c = if leb lo (code c) && leb (code c) hi then some (code c - 48) else none

two : Option ℕ → Option ℕ → Option ℕ
two a b = do x ← a; y ← b; some (10 * x + y)

-- `1[0-2]|0[1-9]` and `[1-9]`
pub month2 : Char → Char → Option ℕ
unfolding two digit_in
month2 a b =
    or_try (two (digit_in b'1' b'1' a) (digit_in b'0' b'2' b))
      (two (digit_in b'0' b'0' a) (digit_in b'1' b'9' b))

month1 : Char → Option ℕ
unfolding digit_in
month1 = digit_in b'1' b'9'

-- `3[0-1]|[1-2]\d|0[1-9]| [1-9]`
pub day2 : Char → Char → Option ℕ
unfolding two digit_in digit?
day2 a b = or_try (two (digit_in b'3' b'3' a) (digit_in b'0' b'1' b)) (
    or_try (two (digit_in b'1' b'2' a) (digit? b)) (
      or_try (two (digit_in b'0' b'0' a) (digit_in b'1' b'9' b))
        (if code a == b' ' then digit_in b'1' b'9' b else none)))

-- `2[0-3]|[0-1]\d`
pub hour2 : Char → Char → Option ℕ
unfolding two digit_in digit?
hour2 a b =
    or_try (two (digit_in b'2' b'2' a) (digit_in b'0' b'3' b))
      (two (digit_in b'0' b'1' a) (digit? b))

-- `[0-5]\d`
pub minute2 : Char → Char → Option ℕ
unfolding two digit_in digit?
minute2 a b = two (digit_in b'0' b'5' a) (digit? b)

-- `6[0-1]|[0-5]\d`
pub second2 : Char → Char → Option ℕ
unfolding minute2 two digit_in
second2 a b = or_try (two (digit_in b'6' b'6' a) (digit_in b'0' b'1' b)) (minute2 a b)

-- the pattern is compiled without regard to case, which matters for the `T` and the `Z`
is_letter : ℕ → Char → Bool
is_letter upper c = (code c == upper) || (code c == upper + 32)

is_sign : ℕ → Char → Bool
is_sign sign c = code c == sign

one_char : (Char → Option ℕ) → Char → String → Option (ℕ × String)
one_char f a rest = do n ← f a; some (n, rest)

two_chars : (Char → Char → Option ℕ) → Char → Char → String → Option (ℕ × String)
two_chars f a b rest = do n ← f a b; some (n, rest)

-- one field and the separator behind it
field : (Char → Option ℕ) → (Char → Char → Option ℕ) → (Char → Bool) → String → Option (ℕ × String)
unfolding one_char two_chars
field f1 f2 sep (String.◌∷◌ a (String.◌∷◌ b (String.◌∷◌ c rest))) =
    if sep c
    then two_chars f2 a b rest
    else if sep b
    then one_char f1 a (String.◌∷◌ c rest)
    else none
field f1 f2 sep (String.◌∷◌ a (String.◌∷◌ b String.[])) =
    if sep b then one_char f1 a String.[] else none
field f1 f2 sep s = none

-- `\d\d\d\d-`
year_field : String → Option (ℕ × String)
unfolding is_sign digit?
year_field (String.◌∷◌ a (String.◌∷◌ b (String.◌∷◌ c (String.◌∷◌ d (String.◌∷◌ e rest))))) = do
  w ← digit? a
  x ← digit? b
  y ← digit? c
  z ← digit? d
  if is_sign b'-' e then some (1000 * w + 100 * x + 10 * y + z, rest) else none
year_field s = none

-- the ranges that the constructor of `datetime` checks
abbrev pub IsDatetime : Datetime → Type 0
IsDatetime t =
    (1 ≤ t.year)
    × (t.year ≤ 9999)
    × (1 ≤ t.month)
    × (t.month ≤ 12)
    × (1 ≤ t.day)
    × (t.day ≤ days_in_month t.year t.month)
    × (t.hour ≤ 23)
    × (t.minute ≤ 59)
    × (t.second ≤ 59)

in_range : Datetime → Bool
unfolding days_in_month
in_range t =
    leb 1 t.year
    && leb t.year 9999
    && leb 1 t.month
    && leb t.month 12
    && leb 1 t.day
    && leb t.day (days_in_month t.year t.month)
    && leb t.hour 23
    && leb t.minute 59
    && leb t.second 59

checked : Datetime → String → Option Datetime
unfolding in_range
checked t String.[] = if in_range t then some t else none
checked t (String.◌∷◌ c s) = none

unfoldable pub strptime : String → Option Datetime
unfolding year_field field month1 month2 day2 hour2 minute2 second2 is_letter is_sign checked
strptime s = do
  (y, s1) ← year_field s
  (m, s2) ← field month1 month2 (is_sign b'-') s1
  (d, s3) ← field month1 day2 (is_letter b'T') s2
  (h, s4) ← field digit? hour2 (is_sign b':') s3
  (mi, s5) ← field digit? minute2 (is_sign b':') s4
  (se, s6) ← field digit? second2 (is_letter b'Z') s5
  checked (record { year = y; month = m; day = d; hour = h; minute = mi; second = se }) s6

-- `strftime`

unfoldable pub digit : ℕ → String
digit n =
    if n == 0
    then "0"
    else if n == 1
    then "1"
    else if n == 2
    then "2"
    else if n == 3
    then "3"
    else if n == 4
    then "4"
    else if n == 5
    then "5"
    else if n == 6
    then "6"
    else if n == 7
    then "7"
    else if n == 8
    then "8"
    else "9"

-- two digits, zero padded
unfoldable pub pad2 : ℕ → String
unfolding digit
pad2 n = String.◌++◌ (digit (n / 10 % 10)) (digit (n % 10))

-- `%Y` of the C library does not pad
pub print_year : ℕ → String
unfolding digit pad2
print_year y =
    if leb 1000 y
    then String.◌++◌ (pad2 (y / 100)) (pad2 (y % 100))
    else if leb 100 y
    then String.◌++◌ (digit (y / 100)) (pad2 (y % 100))
    else if leb 10 y
    then pad2 y
    else digit y

infixr 65 ◌<>◌
abbrev ◌<>◌ : String → String → String
s <> t = String.◌++◌ s t

unfoldable pub strftime : Datetime → String
unfolding print_year pad2
strftime t =
    print_year t.year
    <> "-"
    <> pad2 t.month
    <> "-"
    <> pad2 t.day
    <> "T"
    <> pad2 t.hour
    <> ":"
    <> pad2 t.minute
    <> ":"
    <> pad2 t.second
    <> "Z"

abbrev leap_day : Datetime
leap_day = record { year = 2024; month = 3; day = 1; hour = 6; minute = 5; second = 9 }

strptime-leap_day : strptime "2024-03-01T06:05:09Z" ≡ some leap_day
unfolding strptime
strptime-leap_day = refl

strptime-loose : strptime "2024-3-1t6:5:9z" ≡ some leap_day
unfolding strptime
strptime-loose = refl

strptime-no_such_day : strptime "2026-02-30T00:00:00Z" ≡ none
unfolding strptime
strptime-no_such_day = refl

sub_days-leap_day :
    sub_days leap_day 1
    ≡ ok (record { year = 2024; month = 2; day = 29; hour = 6; minute = 5; second = 9 })
unfolding sub_days
sub_days-leap_day = refl

strftime-leap_day : strftime leap_day ≡ "2024-03-01T06:05:09Z"
unfolding strftime
strftime-leap_day = refl
