-- ===== src/Clock/Iso.antt =====
-- Instants in UTC: `astimezone(timezone.utc)` of an aware datetime, the difference of two in whole
-- seconds, and `isoformat` with `Z` in place of `+00:00`.
use Prim.Native.String
use argo_workflows_exporter.Base.{
  ℕ, suc, ◌+◌, ◌-◌, ◌*◌, ◌/◌, ◌%◌, String, ◌≡◌, refl, ltb, leb, ◌==◌, if◌then◌else◌,
}
use argo_workflows_exporter.Base.Int.{ℤ, pos, negsuc}
use argo_workflows_exporter.Base.Results.{Result, ok, err, overflow_error}
use argo_workflows_exporter.Clock.{pad2, from_ordinal}

-- What `datetime.fromisoformat` makes of a text: a datetime with no time zone, or one with its local
-- time, in microseconds from the start of year 1, and its offset from UTC in microseconds.
pub data Stamp : Type 0 where
  naive : Stamp
  aware : ℕ → ℤ → Stamp

-- the first instant after year 9999
abbrev pub end_of_time : ℕ
end_of_time = 3652059 * 86400 * 1000000

abbrev in_time : ℕ → Result ℕ
in_time t = if ltb t end_of_time then ok t else err overflow_error

-- `t.astimezone(timezone.utc)`
unfoldable pub to_utc : ℕ → ℤ → Result ℕ
to_utc local (pos offset) =
    if leb offset local then in_time (local - offset) else err overflow_error
to_utc local (negsuc n) = in_time (local + suc n)

-- `int((finish - start).total_seconds())`, towards zero
abbrev negated : ℕ → ℤ
negated n = if n == 0 then pos 0 else negsuc (n - 1)

unfoldable pub seconds_between : ℕ → ℕ → ℤ
seconds_between start finish =
    if leb start finish
    then pos ((finish - start) / 1000000)
    else negated ((start - finish) / 1000000)

infixr 65 ◌<>◌
abbrev ◌<>◌ : String → String → String
s <> t = String.◌++◌ s t

-- `.ffffff`, left out when zero
fraction : ℕ → String
unfolding pad2
fraction micros =
    if micros == 0
    then ""
    else "." <> pad2 (micros / 10000) <> pad2 (micros / 100 % 100) <> pad2 (micros % 100)

print_day : ℕ × ℕ × ℕ → String
unfolding pad2
print_day (y, m, d) = pad2 (y / 100) <> pad2 (y % 100) <> "-" <> pad2 m <> "-" <> pad2 d

-- `t.isoformat().replace("+00:00", "Z")`
unfoldable pub print_utc : ℕ → String
unfolding fraction print_day from_ordinal pad2
print_utc t =
    let seconds = t / 1000000 in
    print_day (from_ordinal (seconds / 86400 + 1))
    <> "T"
    <> pad2 (seconds / 3600 % 24)
    <> ":"
    <> pad2 (seconds / 60 % 60)
    <> ":"
    <> pad2 (seconds % 60)
    <> fraction (t % 1000000)
    <> "Z"

print_utc-leap_day : print_utc 63844829109000000 ≡ "2024-02-29T18:45:09Z"
unfolding print_utc
print_utc-leap_day = refl
