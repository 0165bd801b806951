-- ===== src/Config/Integers.antt =====
-- Python's `int(text)`, of a text with no spaces at its ends: a sign, and digits of any script with
-- single underscores between them, at most 4300 of them. `print_int` is `str` of a natural number.
use Prim.Native.Char.{code}
use argo_workflows_exporter.Base.{
  ℕ, zero, suc, ◌+◌, ◌*◌, String, ◌≡◌, refl, Bool, true, false, Option, none, some, leb, ◌==◌,
  if◌then◌else◌,
}
use argo_workflows_exporter.Base.Text.{digit?}
use argo_workflows_exporter.Base.Int.{ℤ, pos, negsuc}

-- the number and how many digits it has
abbrev closed : Bool → ℕ → ℕ → Option (ℕ × ℕ)
closed true value count = some (value, count)
closed false value count = none

unfoldable pub int_digits : Bool → ℕ → ℕ → String → Option (ℕ × ℕ)
unfolding digit?
int_digits after_digit value count String.[] = closed after_digit value count
int_digits after_digit value count (String.◌∷◌ c s) = elim (digit? c) [
  | some d ↦ int_digits true (value * 10 + d) (suc count) s
  | none ↦ elim (code c == b'_') [
    | true ↦ elim after_digit [ true ↦ int_digits false value count s | false ↦ none ]
    | false ↦ none
  ]
]

-- `sys.int_info.default_max_str_digits`
abbrev pub max_str_digits : ℕ
max_str_digits = 4300

abbrev pub limited : Option (ℕ × ℕ) → Option ℕ
limited none = none
limited (some (value, count)) = if leb count max_str_digits then some value else none

abbrev pub plus : Option ℕ → Option ℤ
plus none = none
plus (some n) = some (pos n)

abbrev pub minus : Option ℕ → Option ℤ
minus none = none
minus (some zero) = some (pos 0)
minus (some (suc n)) = some (negsuc n)

unfoldable pub parse_int : String → Option ℤ
unfolding int_digits
parse_int String.[] = none
parse_int (String.◌∷◌ c s) =
    if code c == b'-'
    then minus (limited (int_digits false 0 0 s))
    else if code c == b'+'
    then plus (limited (int_digits false 0 0 s))
    else plus (limited (int_digits false 0 0 (String.◌∷◌ c s)))

parse_int-underscore : parse_int "1_000" ≡ some (pos 1000)
unfolding parse_int
parse_int-underscore = refl

parse_int-trailing : parse_int "10_" ≡ none
unfolding parse_int
parse_int-trailing = refl
