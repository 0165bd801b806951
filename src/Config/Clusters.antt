-- ===== src/Config/Clusters.antt =====
-- `_parse_clusters` of src/config.py.
pub mod Valid
use argo_workflows_exporter.Base.{
  ℕ, String, Bool, true, false, not, Option, none, some, List, [], ◌∷◌, map, leb, if◌then◌else◌,
}
use argo_workflows_exporter.Base.Text.{is_empty, text_eq}
use argo_workflows_exporter.Base.Lists.{any, keep, length}
use argo_workflows_exporter.Base.Results.{
  Result, ok, err, Error, json_decode_error, config_error, ◌>>=◌, require,
}
use argo_workflows_exporter.Json.{Value, null, text, obj, Fields, get, as_obj, as_arr}
use argo_workflows_exporter.Workflows.Collect.{Cluster}

-- `except json.JSONDecodeError`; any other `ValueError` of `json.loads` passes
abbrev pub loaded : Result Value → Result Value
loaded (err json_decode_error) = err config_error
loaded r = r

abbrev pub or_raise {ℓ} : {A : Type ℓ} → Option A → Result A
or_raise none = err config_error
or_raise (some a) = ok a

-- a name is a text that is not empty; a missing name is null here, and refused like it
abbrev pub cluster_name : Value → Result String
cluster_name (text s) = if is_empty s then err config_error else ok s
cluster_name _ = err config_error

-- a string or null
abbrev pub optional_field : Value → Result (Option String)
optional_field null = ok none
optional_field (text s) = ok (some s)
optional_field _ = err config_error

unfoldable pub parse_cluster : Value → Result Cluster
parse_cluster item = do
  fs ← or_raise (as_obj item)
  name ← cluster_name (get "name" fs)
  base_url ← optional_field (get "base_url" fs)
  namespace ← optional_field (get "namespace" fs)
  ok (record { name = name; base_url = base_url; namespace = namespace })

unfoldable pub parse_all : List Value → Result (List Cluster)
parse_all [] = ok []
parse_all (item ∷ items) = do
  cluster ← parse_cluster item
  clusters ← parse_all items
  ok (cluster ∷ clusters)

-- `len(set(names)) != len(names)`
abbrev pub has_repeats : List String → Bool
has_repeats [] = false
has_repeats (n ∷ ns) = if any (text_eq n) ns then true else has_repeats ns

abbrev pub is_local : Cluster → Bool
is_local c = elim c.base_url [ none ↦ true | some url ↦ false ]

abbrev pub not_empty : List Value → Bool
not_empty [] = false
not_empty (v ∷ vs) = true

unfoldable pub check_clusters : List Cluster → Result (List Cluster)
check_clusters clusters = do
  distinct ← require (not (has_repeats (map (λ c. c.name) clusters))) config_error
  one_local ← require (leb (length (keep is_local clusters)) 1) config_error
  ok clusters

unfoldable pub parse_clusters : (String → Result Value) → String → Result (List Cluster)
parse_clusters loads raw = do
  value ← loaded (loads raw)
  items ← or_raise (as_arr value)
  present ← require (not_empty items) config_error
  clusters ← parse_all items
  check_clusters clusters
