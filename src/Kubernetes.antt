-- ===== src/Kubernetes.antt =====
-- src/k8s_api.py: fetch_json, list_path and list_items. `request i token` is what the request number
-- `i`, with that continuation token, comes to: the server may answer a token differently each time.
pub mod Turns
pub mod Listing
pub mod Incomplete
pub mod Bounded
pub mod Request
use Prim.Native.String
use argo_workflows_exporter.Base.{
  ℕ, zero, suc, String, Bool, true, false, not, ◌&&◌, Option, none, some, List, [], ◌∷◌, ◌++◌, ◌==◌,
  if◌then◌else◌,
}
use argo_workflows_exporter.Base.Text.{text_eq, is_empty, is_blank}
use argo_workflows_exporter.Base.Lists.{any}
use argo_workflows_exporter.Base.Results.{Result, ok, err, Error, response_error, ◌>>=◌}
use argo_workflows_exporter.Json.{
  Value, null, Fields, get, contains, as_obj, as_arr, as_text, is_null,
}

-- A request that raises `RequestException` or `OSError`, one that raises another exception, or a
-- status with the body that `json()` decodes, `none` if it raises.
pub data HttpOutcome : Type 0 where
  unreachable : HttpOutcome
  raises : Error → HttpOutcome
  response : ℕ → Option Value → HttpOutcome

unfoldable pub body_of : Option Value → Result (Option Value)
body_of none = err response_error
body_of (some body) = if is_null body then err response_error else ok (some body)

-- `fetch_json`, from what its request comes to
unfoldable pub fetch_json : HttpOutcome → Result (Option Value)
unfolding body_of
fetch_json unreachable = ok none
fetch_json (raises e) = err e
fetch_json (response status body) = if status == 200 then body_of body else ok none

abbrev group_path : String
group_path = "/apis/argoproj.io/v1alpha1"

unfoldable pub list_path : String → String → String
list_path namespace plural =
    if is_empty namespace
    then String.◌++◌ group_path (String.◌++◌ "/" plural)
    else String.◌++◌ group_path
        (String.◌++◌ "/namespaces/" (String.◌++◌ namespace (String.◌++◌ "/" plural)))

abbrev or_raise {ℓ} : {A : Type ℓ} → Option A → Result A
or_raise none = err response_error
or_raise (some a) = ok a

-- `metadata["continue"]`, once it is known to be there
abbrev checked_token : String → Result String
checked_token token =
    if not (is_empty token) && is_blank token then err response_error else ok token

-- the continuation token of a page, empty for `None`
abbrev token_of : Value → Result String
token_of metadata = if is_null metadata then ok "" else (do
  fs ← or_raise (as_obj metadata)
  if contains "continue" fs
      then (do token ← or_raise (as_text (get "continue" fs)); checked_token token)
      else ok "")

-- the items of a page, and its token
unfoldable pub read_page : Value → Result (List Value × String)
unfolding get contains is_blank
read_page page = do
  fs ← or_raise (as_obj page)
  page_items ←
      (if contains "items" fs then or_raise (as_arr (get "items" fs)) else err response_error)
  token ← token_of (get "metadata" fs)
  ok (page_items, token)

-- How a turn of the loop ends: the function returns or raises, or asks for the next page.
pub data Turn : Type 0 where
  stop : Result (List Value × Bool) → Turn
  next : String → List Value → Turn

-- after the page has been read: `items` holds its items too
unfoldable pub turn_on : List String → List Value → String → Turn
turn_on seen_tokens items token =
    if is_empty token
    then stop (ok (items, true))
    else if any (text_eq token) seen_tokens
    then stop (err response_error)
    else next token items

unfoldable pub turn_of_page : List String → List Value → Result (List Value × String) → Turn
turn_of_page seen_tokens items (err e) = stop (err e)
turn_of_page seen_tokens items (ok (page_items, token)) =
    turn_on seen_tokens (items ++ page_items) token

-- a turn of the loop, from what `fetch` returns
unfoldable pub turn : List String → List Value → Result (Option Value) → Turn
turn seen_tokens items (err e) = stop (err e)
turn seen_tokens items (ok none) = stop (ok ([], false))
turn seen_tokens items (ok (some page)) = turn_of_page seen_tokens items (read_page page)

module _ (request : ℕ → Option String → HttpOutcome) where
  -- the loop, for at most as many turns as the fuel
  unfoldable pub list_pages :
      ℕ → ℕ → Option String → List String → List Value → Option (Result (List Value × Bool))
  list_pages zero i token seen_tokens items = none
  list_pages (suc fuel) i token seen_tokens items =
      elim (turn seen_tokens items (fetch_json (request i token))) [
        | stop r ↦ some r
        | next t all ↦ list_pages fuel (suc i) (some t) (t ∷ seen_tokens) all
      ]

  unfoldable pub list_items : ℕ → Option (Result (List Value × Bool))
  list_items fuel = list_pages fuel 0 none [] []
