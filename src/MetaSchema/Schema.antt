-- ===== src/MetaSchema/Schema.antt =====
-- `_check` and `META_SCHEMA`. An entry of the error list is the kind of the violation and the place
-- that its message names.
use Prim.Native.Char.{Char, code}
use Prim.Native.String
use argo_workflows_exporter.Base.{
  ℕ, suc, String, Bool, true, false, not, ◌&&◌, ◌||◌, Option, none, some, List, [], ◌∷◌, ◌++◌, leb,
  ◌==◌, if◌then◌else◌,
}
use argo_workflows_exporter.Base.Text.{digit?, text_eq}
use argo_workflows_exporter.Base.Lists.{length}
use argo_workflows_exporter.Base.Dict.{Dict, has, lookup, string_eq}
use argo_workflows_exporter.Base.Int.{ℤ, pos, ltb_ℤ}
use argo_workflows_exporter.Clock.{strptime}
use argo_workflows_exporter.Json.{Value, entries, as_obj, as_arr, as_text, as_int, as_bool, is_some}

-- `meta`, `meta.clusters`, `meta.clusters[0]`
pub data Where : Type 0 where
  root : Where
  member : Where → String → Where
  index : Where → ℕ → Where

pub data Kind : Type 0 where
  object array string integer boolean : Kind

pub data Violation : Type 0 where
  wrong_type : Where → Kind → Violation
  missing_field unexpected_field : Where → String → Violation
  too_few_items : Where → Violation
  empty_string : Where → Violation
  pattern_mismatch : Where → Violation
  not_a_time : Where → Violation
  below_minimum : Where → Violation
  id_not_extending : Violation
  duplicate_names : Violation
  wrong_total : Violation
  not_ok_with_rows : ℕ → Violation

-- the patterns of the schema: `_GENERATION_ID` is the only one
pub data Pattern : Type 0 where
  generation_id : Pattern

mutual
  -- a schema of META_SCHEMA, with the keywords that it uses
  pub data Rule : Type 0 where
    -- `required`, `properties`; `additionalProperties` is always false
    object_rule : List String → Properties → Rule
    -- `minItems`, `items`
    array_rule : ℕ → Rule → Rule
    -- `minLength`, `pattern`, `format: rfc3339-utc-second`
    string_rule : ℕ → Option Pattern → Bool → Rule
    -- `minimum`
    integer_rule : Option ℤ → Rule
    boolean_rule : Rule

  pub data Properties : Type 0 where
    no_property : Properties
    property : String → Rule → Properties → Properties

-- a character class of a pattern; `\d` is a decimal digit of any script
pub data Class : Type 0 where
  decimal : Class
  hex : Class
  literal : ℕ → Class

unfoldable pub fits : Class → Char → Bool
fits decimal c = is_some (digit? c)
fits hex c = (leb b'0' (code c) && leb (code c) b'9') || (leb b'a' (code c) && leb (code c) b'f')
fits (literal n) c = code c == n

-- `re.fullmatch` of a sequence of classes
unfoldable pub full_match : List Class → String → Bool
unfolding fits digit?
full_match [] String.[] = true
full_match [] (String.◌∷◌ c s) = false
full_match (k ∷ ks) String.[] = false
full_match (k ∷ ks) (String.◌∷◌ c s) = fits k c && full_match ks s

abbrev pub timestamp_classes : List Class
timestamp_classes =
    decimal
    ∷ decimal
    ∷ decimal
    ∷ decimal
    ∷ literal b'-'
    ∷ decimal
    ∷ decimal
    ∷ literal b'-'
    ∷ decimal
    ∷ decimal
    ∷ literal b'T'
    ∷ decimal
    ∷ decimal
    ∷ literal b':'
    ∷ decimal
    ∷ decimal
    ∷ literal b':'
    ∷ decimal
    ∷ decimal
    ∷ literal b'Z'
    ∷ []

abbrev pub suffix_classes : List Class
suffix_classes =
    literal b'-' ∷ hex ∷ hex ∷ hex ∷ hex ∷ hex ∷ hex ∷ hex ∷ hex ∷ hex ∷ hex ∷ hex ∷ hex ∷ []

-- `re.fullmatch(rule["pattern"], value)`
unfoldable pub matches : Pattern → String → Bool
unfolding full_match
matches generation_id s = full_match (timestamp_classes ++ suffix_classes) s

abbrev pub has_property : String → Properties → Bool
has_property k no_property = false
has_property k (property j r ps) = if text_eq j k then true else has_property k ps

-- the characters of a `str`
abbrev pub char_count : String → ℕ
char_count s = String.count s

abbrev pub report : Bool → Violation → List Violation
report true v = []
report false v = v ∷ []

-- the check of what may be absent
abbrev pub each : {A : Type 0} → Option A → (A → List Violation) → List Violation
each none f = []
each (some a) f = f a

-- `for key in rule["required"]`
unfoldable pub check_required : Dict String Value → List String → Where → List Violation
check_required d [] w = []
check_required d (k ∷ ks) w = report (has k d) (missing_field w k) ++ check_required d ks w

-- `for key in value`
unfoldable pub check_expected : Dict String Value → Properties → Where → List Violation
check_expected [] ps w = []
check_expected ((k, v) ∷ d) ps w =
    report (has_property k ps) (unexpected_field w k) ++ check_expected d ps w

-- `for i, item in enumerate(value)`
unfoldable pub check_items :
    (Value → Where → List Violation) → List Value → Where → ℕ → List Violation
check_items f [] w i = []
check_items f (v ∷ vs) w i = f v (index w i) ++ check_items f vs w (suc i)

unfoldable pub check_string : ℕ → Option Pattern → Bool → String → Where → List Violation
check_string min_length pattern timed s w =
    report (leb min_length (char_count s)) (empty_string w)
    ++ (each pattern (λ p. report (matches p s) (pattern_mismatch w))
        ++ (if timed then report (is_some (strptime s)) (not_a_time w) else []))

unfoldable pub check_integer : Option ℤ → ℤ → Where → List Violation
check_integer none n w = []
check_integer (some minimum) n w = report (not (ltb_ℤ n minimum)) (below_minimum w)

-- the type test of `_check`, and its early return
abbrev pub typed : {A : Type 0} → Option A → Kind → Where → (A → List Violation) → List Violation
typed none k w f = wrong_type w k ∷ []
typed (some a) k w f = f a

unfoldable mutual
  -- `_check(value, rule, where, errors)`: what it appends to `errors`
  pub check : Rule → Value → Where → List Violation
  check (object_rule required ps) v w = typed (as_obj v) object w (λ fs.
      check_required (entries fs) required w
      ++ (check_expected (entries fs) ps w ++ check_properties ps (entries fs) w))
  check (array_rule min_items r) v w =
      typed (as_arr v) array w
        (λ vs. report (leb min_items (length vs)) (too_few_items w) ++ check_items (check r) vs w 0)
  check (string_rule min_length pattern timed) v w =
      typed (as_text v) string w (λ s. check_string min_length pattern timed s w)
  check (integer_rule minimum) v w = typed (as_int v) integer w (λ n. check_integer minimum n w)
  check boolean_rule v w = typed (as_bool v) boolean w (λ b. [])

  -- `for key, sub in rule["properties"].items()`
  pub check_properties : Properties → Dict String Value → Where → List Violation
  check_properties no_property d w = []
  check_properties (property k r ps) d w =
      each (lookup k d) (λ v. check r v (member w k)) ++ check_properties ps d w

-- `CLUSTER_SCHEMA`
abbrev pub cluster_schema : Rule
cluster_schema = object_rule ("name" ∷ "ok" ∷ "workflows" ∷ []) (
    property "name" (string_rule 1 none false)
      (property "ok" boolean_rule (property "workflows" (integer_rule (some (pos 0))) no_property)))

-- `META_SCHEMA`. A string rule with no `minLength` has 1, as `_check` reads it.
abbrev pub meta_schema : Rule
meta_schema =
    object_rule
      ("version" ∷ "generated_at" ∷ "generation_id" ∷ "poll_interval_seconds" ∷ "run_retention_days"
        ∷ "clusters" ∷ "workflows" ∷ "runs" ∷ [])
      (property "version" (string_rule 1 none false) (
        property "generated_at" (string_rule 1 none true) (
          property "generation_id" (string_rule 1 (some generation_id) false) (
            property "poll_interval_seconds" (integer_rule (some (pos 1))) (
              property "run_retention_days" (integer_rule (some (pos 1))) (
                property "clusters" (array_rule 1 cluster_schema) (
                  property "workflows" (integer_rule (some (pos 0)))
                    (property "runs" (integer_rule (some (pos 0))) no_property))))))))
