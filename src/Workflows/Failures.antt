-- ===== src/Workflows/Failures.antt =====
-- `_decode_compressed_nodes` and `failed_step` of src/workflows.py. `inflate` is
-- `json.loads(gzip.decompress(base64.b64decode(value, validate=True)))`.
pub mod Least
pub mod First
use argo_workflows_exporter.Base.{
  ℕ, String, Bool, true, false, not, ◌&&◌, ◌||◌, Option, none, some, List, [], ◌∷◌, ltb, leb, ◌==◌,
  if◌then◌else◌,
}
use argo_workflows_exporter.Base.Text.{text_eq, text_leb, is_empty}
use argo_workflows_exporter.Base.Lists.{keep}
use argo_workflows_exporter.Base.Int.{ℤ, pos, eqb_ℤ}
use argo_workflows_exporter.Base.Dict.{Dict}
use argo_workflows_exporter.Base.Results.{
  Result, ok, err, Error, value_error, json_decode_error, type_error, os_error, decode_error,
  response_error, malformed_workflow, ◌>>=◌,
}
use argo_workflows_exporter.Json.{
  or_value, Value, null, bool, int, float, text, arr, obj, Items, nil, cons, Fields, end, field,
  get, entries, as_text,
}
use argo_workflows_exporter.Clock.Iso.{Stamp}
use argo_workflows_exporter.Workflows.Times.{parse_ts, utc_of}
use argo_workflows_exporter.Workflows.Extract.{mapping_at}

-- `binascii.Error`, `JSONDecodeError` and `UnicodeError` are `ValueError`s, and `EOFError` is counted as `os_error`,
-- which is caught beside it; `zlib.error` is none of these
abbrev pub is_ignored : Error → Bool
is_ignored value_error = true
is_ignored json_decode_error = true
is_ignored decode_error = true
is_ignored type_error = true
is_ignored os_error = true
is_ignored response_error = true
is_ignored malformed_workflow = true
is_ignored _ = false

abbrev pub Nodes : Type 0
Nodes = Dict String Fields

-- the entries whose value is a `dict`
abbrev pub usable : Dict String Value → Nodes
usable [] = []
usable ((k, obj fs) ∷ d) = (k, fs) ∷ usable d
usable ((k, v) ∷ d) = usable d

-- `dict` or not, in either case as a map of usable nodes
abbrev pub nodes_of : Value → Nodes
nodes_of (obj fs) = usable (entries fs)
nodes_of _ = []

abbrev pub decoded_nodes : Result Value → Result Nodes
decoded_nodes (ok v) = ok (nodes_of v)
decoded_nodes (err e) = if is_ignored e then ok [] else err e

-- `_decode_compressed_nodes`
unfoldable pub decode_compressed_nodes : (String → Result Value) → Value → Result Nodes
decode_compressed_nodes inflate (text s) = if is_empty s then ok [] else decoded_nodes (inflate s)
decode_compressed_nodes inflate _ = ok []

-- `status.nodes`, and `status.compressedNodes` where that is null or not there
abbrev pub nodes_or : (String → Result Value) → Value → Value → Result Nodes
nodes_or inflate null compressed = decode_compressed_nodes inflate compressed
nodes_or inflate nodes compressed = ok (nodes_of nodes)

abbrev pub is_any : Option String → String → String → Bool
is_any none a b = false
is_any (some s) a b = text_eq s a || text_eq s b

-- a pod node whose phase is terminal and no success
abbrev pub is_failed_pod : String × Fields → Bool
is_failed_pod (name, node) =
    is_any (as_text (get "phase" node)) "Failed" "Error"
    && is_any (as_text (get "type" node)) "Pod" "Pod"

-- `selection_key`: the instant, or `none` where the node sorts last, and the name
abbrev pub SelectionKey : Type 0
SelectionKey = Option ℕ × String

abbrev pub key_leb : SelectionKey → SelectionKey → Bool
key_leb (none, a) (none, b) = text_leb a b
key_leb (none, a) (some t, b) = false
key_leb (some s, a) (none, b) = true
key_leb (some s, a) (some t, b) = if s == t then text_leb a b else ltb s t

abbrev pub Keyed : Type 0
Keyed = SelectionKey × Fields

module _ (fromisoformat : String → Option Stamp) where
  unfoldable pub selection_key : String × Fields → Result SelectionKey
  selection_key (name, node) = do
    t ← utc_of (parse_ts fromisoformat (get "startedAt" node))
    ok (t, name)

  unfoldable pub with_keys : Nodes → Result (List Keyed)
  with_keys [] = ok []
  with_keys ((name, node) ∷ rest) = do
    key ← selection_key (name, node)
    others ← with_keys rest
    ok ((key, node) ∷ others)

-- `min`: the first of the least
unfoldable pub least : Keyed → List Keyed → Keyed
least best [] = best
least best (x ∷ xs) = least (if key_leb best.0 x.0 then best else x) xs

abbrev pub step_of : List Keyed → Value × Value
step_of [] = (null, null)
step_of (x ∷ xs) =
    let node = (least x xs).1 in
    (or_value (get "displayName" node) (get "name" node), get "message" node)

module _ (fromisoformat : String → Option Stamp) (inflate : String → Result Value) where
  -- the failed pods, with their keys
  unfoldable pub failures_of : Fields → Result (List Keyed)
  failures_of wf = do
    let status = mapping_at "status" wf
    nodes ← nodes_or inflate (get "nodes" status) (get "compressedNodes" status)
    with_keys fromisoformat (keep is_failed_pod nodes)

  -- `failed_step`
  unfoldable pub failed_step : Fields → Result (Value × Value)
  failed_step wf = do failures ← failures_of wf; ok (step_of failures)
