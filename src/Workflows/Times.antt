-- ===== src/Workflows/Times.antt =====
-- `_parse_ts`, `normalize_timestamp` and `duration_seconds` of src/workflows.py. The parser
-- `datetime.fromisoformat` is a parameter, `none` where it raises `ValueError`.
use Prim.Native.Char.{code}
use Prim.Native.String
use argo_workflows_exporter.Base.{ℕ, String, ◌≡◌, refl, Option, none, some, ◌==◌, if◌then◌else◌}
use argo_workflows_exporter.Base.Text.{is_empty}
use argo_workflows_exporter.Base.Int.{ℤ}
use argo_workflows_exporter.Base.Results.{Result, ok, ◌>>=◌}
use argo_workflows_exporter.Json.{Value, text}
use argo_workflows_exporter.Clock.Iso.{Stamp, naive, aware, to_utc, seconds_between, print_utc}

-- `value.replace("Z", "+00:00")`
unfoldable pub replace_z : String → String
replace_z String.[] = String.[]
replace_z (String.◌∷◌ c s) =
    let rest = replace_z s in
    if code c == b'Z' then String.◌++◌ "+00:00" rest else String.◌∷◌ c rest

replace_z-zulu : replace_z "2024-02-29T18:45:09Z" ≡ "2024-02-29T18:45:09+00:00"
unfolding replace_z
replace_z-zulu = refl

-- an instant in UTC, if there is one
abbrev pub utc_of : Option Stamp → Result (Option ℕ)
utc_of none = ok none
utc_of (some naive) = ok none
utc_of (some (aware local offset)) = do t ← to_utc local offset; ok (some t)

abbrev pub printed : Option ℕ → Option String
printed none = none
printed (some t) = some (print_utc t)

-- both instants, or `None`
abbrev pub span : Option Stamp → Option Stamp → Result (Option ℤ)
span (some (aware start start_offset)) (some (aware finish finish_offset)) = do
  finish_utc ← to_utc finish finish_offset
  start_utc ← to_utc start start_offset
  ok (some (seconds_between start_utc finish_utc))
span _ _ = ok none

module _ (fromisoformat : String → Option Stamp) where
  unfoldable pub parse_ts : Value → Option Stamp
  unfolding replace_z
  parse_ts (text s) = if is_empty s then none else fromisoformat (replace_z s)
  parse_ts _ = none

  unfoldable pub normalize_timestamp : Value → Result (Option String)
  normalize_timestamp value = do t ← utc_of (parse_ts value); ok (printed t)

  unfoldable pub duration_seconds : Value → Value → Result (Option ℤ)
  duration_seconds started_at finished_at = span (parse_ts started_at) (parse_ts finished_at)
