-- ===== src/Taxonomy.antt =====
-- src/failure_taxonomy.py: the failure columns that both Parquet files share.
pub mod Laws
pub mod Loader
use Prim.Native.String
use argo_workflows_exporter.Base.{
  ℕ, String, ◌≡◌, refl, Bool, true, false, not, Option, none, some, List, [], ◌∷◌, if◌then◌else◌,
}
use argo_workflows_exporter.Base.Text.{is_blank, strip}
use argo_workflows_exporter.Base.Lists.{any}
use argo_workflows_exporter.Json.{Value, null, text}

-- What the code takes from `re`, `hashlib` and `str.lower`. A pattern is given by its source text.
pub record TextTools : Type 0 where
  -- `re.compile(pattern, re.IGNORECASE).search(text)` is a match
  pub search : String → String → Bool
  -- `re.compile(pattern).sub(replacement, text)`
  pub sub : String → String → String → String
  pub lower : String → String
  -- `hashlib.sha256(text.encode()).hexdigest()`
  pub sha256 : String → String

-- `_NORMALIZATIONS`, in the order in which the rules run
abbrev pub normalizations : List (String × String)
normalizations =
    ("\\b[0-9a-f]{8}-[0-9a-f]{4}-[0-9a-f]{4}-[0-9a-f]{4}-[0-9a-f]{12}\\b", "<uuid>")
    ∷ (
      "\\b\\d{4}-\\d{2}-\\d{2}[ t]\\d{2}:\\d{2}:\\d{2}(?:[.,]\\d+)?(?:z|[+-]\\d{2}:?\\d{2})?\\b",
      "<ts>",
    )
    ∷ ("\\bhttps?://[^\\s'\")\\]}]+", "<url>")
    ∷ ("(?<![\\w/])(?:/[a-z0-9_.@+-]+){2,}/?(?::\\d+)?", "<path>")
    ∷ (
      "\\b\\d+(?:\\.\\d+)?(?:ms|us|µs|ns|h|m|s)(?:\\d+(?:\\.\\d+)?(?:ms|us|µs|ns|h|m|s))*\\b",
      "<dur>",
    )
    ∷ ("\\b[a-z0-9]+(?:-[a-z0-9]+){1,6}-[a-z0-9]{5}\\b", "<pod>")
    ∷ ("\\b[a-z0-9][a-z0-9-]*(?:\\.[a-z0-9-]+)+\\.[a-z]{2,}\\b", "<node>")
    ∷ ("\\b\\d{1,3}(?:\\.\\d{1,3}){3}\\b", "<ip>")
    ∷ ("\\b(?=[0-9a-f]*[0-9])[0-9a-f]{7,}\\b", "<hash>")
    ∷ ("\\b\\d{4,}\\b", "<n>")
    ∷ []

-- `_usable_message`
unfoldable pub usable_message : Value → Option String
unfolding is_blank
usable_message (text s) = if is_blank s then none else some s
usable_message _ = none

-- a rule of `_FAILURE_RULES`: a class and its patterns
abbrev pub Rule : Type 0
Rule = String × List String

-- the row cells that the taxonomy derives
pub record Columns : Type 0 where
  pub failure_fingerprint : Option String
  pub failure_class : Option String

module _ (T : TextTools) where
  unfoldable pub normalize_with : List (String × String) → String → String
  normalize_with [] s = s
  normalize_with ((pattern, replacement) ∷ rules) s =
      normalize_with rules (T.sub pattern replacement s)

  -- `normalize_failure`, after its guard
  unfoldable pub normalize_usable : Option String → Option (String × String)
  unfolding normalize_with strip
  normalize_usable none = none
  normalize_usable (some message) =
      let normalized = normalize_with normalizations (T.lower message) in
      let result = strip (T.sub "\\s+" " " normalized) in
      some (result, String.slice (T.sha256 result) 0 12)

  -- `normalize_failure`
  unfoldable pub normalize_failure : Value → Option (String × String)
  normalize_failure message = normalize_usable (usable_message message)

  unfoldable pub first_match : List Rule → String → String
  first_match [] message = "unknown"
  first_match ((name, patterns) ∷ rules) message =
      if any (λ p. T.search p message) patterns then name else first_match rules message

-- `a or b` for two messages of which none is empty
abbrev pub or_else : Option String → Option String → Option String
or_else none b = b
or_else (some a) b = some a

abbrev pub fingerprint_of : Option (String × String) → Option String
fingerprint_of none = none
fingerprint_of (some (_, fingerprint)) = some fingerprint

-- a message as a Python value
abbrev pub message_value : Option String → Value
message_value none = null
message_value (some s) = text s

module _ (T : TextTools) (rules : List Rule) where
  -- `failure_class`, after its guard
  unfoldable pub class_of_usable : Option String → Option String
  class_of_usable none = none
  class_of_usable (some message) = some (first_match T rules message)

  -- `failure_class`
  unfoldable pub failure_class : Value → Option String
  failure_class message = class_of_usable (usable_message message)

  -- `failure_columns`: the step's message is preferred to the workflow's
  unfoldable pub failure_columns : Value → Value → Columns
  failure_columns step_message workflow_message =
      let message =
        message_value (or_else (usable_message step_message) (usable_message workflow_message)) in
      record {
        failure_fingerprint = fingerprint_of (normalize_failure T message);
        failure_class = failure_class message;
      }
