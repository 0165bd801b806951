-- ===== src/Clock/RoundTrip.antt =====
-- A time that `strftime` prints is the time that `strptime` reads.
use Prim.Native.Char.{Char}
use Prim.Native.String
use text.Mathlib.TextLemmas.{nil-append, cons-append, append_assoc}
use argo_workflows_exporter.Base.{
  ℕ, ◌+◌, ◌*◌, ◌/◌, ◌%◌, ◌≤◌, String, ◌≡◌, refl, Bool, true, Option, some, arith,
}
use argo_workflows_exporter.Base.Text.{digit?}
use argo_workflows_exporter.Clock.{
  Datetime, days_in_month, pad2, month1, month2, day2, hour2, minute2, second2, field, two_chars,
  year_field, is_sign, is_letter, in_range, checked, IsDatetime, print_year, strftime, strptime,
}
use argo_workflows_exporter.Clock.Digits.{
  ShowsTwo, pad2-ShowsTwo, digit?-tens, digit?-ones, month2-ShowsTwo, day2-ShowsTwo, hour2-ShowsTwo,
  minute2-ShowsTwo, second2-ShowsTwo,
}

one_then : (c : Char) (s : String) → String.◌++◌ (String.◌∷◌ c "") s ≡ String.◌∷◌ c s
one_then c s = rw (cons-append c "" s, nil-append s) refl

-- one field in front of its separator
field-ShowsTwo :
    (f1 : Char → Option ℕ) (f2 : Char → Char → Option ℕ) (sep : Char → Bool) (c : Char)
    (rest : String) (n : ℕ) (w : ShowsTwo n)
    → sep c ≡ true
    → f2 w.tens w.ones ≡ some n
    → field f1 f2 sep (String.◌++◌ (pad2 n) (String.◌++◌ (String.◌∷◌ c "") rest)) ≡ some (n, rest)
unfolding field two_chars
field-ShowsTwo f1 f2 sep c rest n w h e =
    rw (w.shown (String.◌++◌ (String.◌∷◌ c "") rest), one_then c rest, h, e) refl

pub print_year-long :
    (y : ℕ) → 1000 ≤ y → print_year y ≡ String.◌++◌ (pad2 (y / 100)) (pad2 (y % 100))
unfolding print_year
print_year-long y l = ground arith

year-digits :
    (y : ℕ) → 1000 * (y / 100 / 10) + 100 * (y / 100 % 10) + 10 * (y % 100 / 10) + y % 100 % 10 ≡ y
year-digits y = omega arith

year_field-ShowsTwo :
    (y : ℕ) (rest : String) (a : ShowsTwo (y / 100)) (b : ShowsTwo (y % 100))
    → 1000 ≤ y
    → y ≤ 9999
    → year_field (String.◌++◌ (print_year y) (String.◌++◌ "-" rest)) ≡ some (y, rest)
unfolding year_field is_sign
year_field-ShowsTwo y rest a b l u =
    rw
      (
        print_year-long y l,
        append_assoc (pad2 (y / 100)) (pad2 (y % 100)) (String.◌++◌ "-" rest),
        a.shown (String.◌++◌ (pad2 (y % 100)) (String.◌++◌ "-" rest)),
        b.shown (String.◌++◌ "-" rest),
        cons-append _ "" rest,
        nil-append rest,
        digit?-tens _ a (omega (arith, u)),
        digit?-ones _ a,
        digit?-tens _ b (omega arith),
        digit?-ones _ b,
        year-digits y,
      )
      refl

in_range-IsDatetime : (t : Datetime) → IsDatetime t → in_range t ≡ true
unfolding in_range
in_range-IsDatetime t h = ground arith

month-shown :
    (n : ℕ) (rest : String)
    → 1 ≤ n
    → n ≤ 12
    → field month1 month2 (is_sign b'-') (String.◌++◌ (pad2 n) (String.◌++◌ "-" rest))
      ≡ some (n, rest)
unfolding is_sign
month-shown n rest l u =
    let w = pad2-ShowsTwo n (omega arith) in
    field-ShowsTwo month1 month2 (is_sign b'-') "-" rest n w refl (month2-ShowsTwo n w l u)

day-shown :
    (n : ℕ) (rest : String)
    → 1 ≤ n
    → n ≤ 31
    → field month1 day2 (is_letter b'T') (String.◌++◌ (pad2 n) (String.◌++◌ "T" rest))
      ≡ some (n, rest)
unfolding is_letter
day-shown n rest l u =
    let w = pad2-ShowsTwo n (omega arith) in
    field-ShowsTwo month1 day2 (is_letter b'T') "T" rest n w refl (day2-ShowsTwo n w l u)

hour-shown :
    (n : ℕ) (rest : String)
    → n ≤ 23
    → field digit? hour2 (is_sign b':') (String.◌++◌ (pad2 n) (String.◌++◌ ":" rest))
      ≡ some (n, rest)
unfolding is_sign
hour-shown n rest u =
    let w = pad2-ShowsTwo n (omega arith) in
    field-ShowsTwo digit? hour2 (is_sign b':') ":" rest n w refl (hour2-ShowsTwo n w u)

minute-shown :
    (n : ℕ) (rest : String)
    → n ≤ 59
    → field digit? minute2 (is_sign b':') (String.◌++◌ (pad2 n) (String.◌++◌ ":" rest))
      ≡ some (n, rest)
unfolding is_sign
minute-shown n rest u =
    let w = pad2-ShowsTwo n (omega arith) in
    field-ShowsTwo digit? minute2 (is_sign b':') ":" rest n w refl (minute2-ShowsTwo n w u)

second-shown :
    (n : ℕ) (rest : String)
    → n ≤ 59
    → field digit? second2 (is_letter b'Z') (String.◌++◌ (pad2 n) (String.◌++◌ "Z" rest))
      ≡ some (n, rest)
unfolding is_letter
second-shown n rest u =
    let w = pad2-ShowsTwo n (omega arith) in
    field-ShowsTwo digit? second2 (is_letter b'Z') "Z" rest n w refl (second2-ShowsTwo n w u)

pub month_size : (y m : ℕ) → days_in_month y m ≤ 31
unfolding days_in_month
month_size y m = ground arith

seconds-shown :
    (n : ℕ)
    → n ≤ 59
    → field digit? second2 (is_letter b'Z') (String.◌++◌ (pad2 n) "Z") ≡ some (n, "")
unfolding is_letter
seconds-shown n u = second-shown n "" u

-- `strptime` reads back every time from the year 1000 on that `strftime` prints.
pub strptime-strftime :
    (t : Datetime) → IsDatetime t → 1000 ≤ t.year → strptime (strftime t) ≡ some t
unfolding strptime strftime checked
strptime-strftime t h l =
    let (a, b, c, d, e, f, g, i, j) = h in
    rw
      (
        year_field-ShowsTwo t.year _ (pad2-ShowsTwo (t.year / 100) (omega arith))
            (pad2-ShowsTwo (t.year % 100) (omega arith)) l b,
        month-shown t.month _ c d,
        day-shown t.day _ e (omega (arith, month_size t.year t.month)),
        hour-shown t.hour _ g,
        minute-shown t.minute _ i,
        second-shown t.second "" j,
        in_range-IsDatetime t h,
      )
      refl
