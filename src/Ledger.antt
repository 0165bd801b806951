-- ===== src/Ledger.antt =====
-- src/ledger.py: the ledger of observed runs, keyed by cluster and uid.
pub mod Spec
pub mod Promise
pub mod Merge
pub mod Order
use argo_workflows_exporter.Base.{
  ℕ, String, ◌≡◌, refl, Bool, true, false, not, Option, none, some, List, [], ◌∷◌, map,
  if◌then◌else◌,
}
use argo_workflows_exporter.Base.Text.{text_eq, text_leb, is_empty}
use argo_workflows_exporter.Base.Lists.{keep}
use argo_workflows_exporter.Base.Dict.{Dict, Eq, pair_eq, string_eq, lookup, put}
use argo_workflows_exporter.Base.Sort.{sort}
use argo_workflows_exporter.Base.Results.{Result, ok, err, value_error, ◌>>=◌}
use argo_workflows_exporter.Clock.{strptime, strftime, sub_days}
use argo_workflows_exporter.Taxonomy.{TextTools, Rule, failure_columns}
use argo_workflows_exporter.Rows.{SharedFields, WorkflowRow, RunRow, or_empty, cell}

-- `_cutoff`
unfoldable pub cutoff : ℕ → String → Result String
unfolding strptime strftime sub_days
cutoff retention_days generated_at = elim (strptime generated_at) [
  | none ↦ err value_error
  | some cycle_time ↦ do t ← sub_days cycle_time retention_days; ok (strftime t)
]

abbrev pub Key : Type 0
Key = String × String

instance abbrev pub key_eq : Eq Key
key_eq = pair_eq string_eq string_eq

-- `_identity`, of a row whose uid is known not to be empty
abbrev pub identity : SharedFields → Key
identity row = (or_empty row.cluster, or_empty row.uid)

-- `row.get("uid")` as a condition
abbrev pub has_uid : SharedFields → Bool
has_uid row = not (is_empty (or_empty row.uid))

abbrev pub Index : Type 0
Index = Dict Key RunRow

-- the comprehension that builds `by_key`
unfoldable pub index_rows : Index → List RunRow → Index
unfolding put
index_rows by_key [] = by_key
index_rows by_key (row ∷ rows) =
    index_rows (if has_uid row.shared then put (identity row.shared) row by_key else by_key) rows

-- `previous["first_seen_at"] if previous else generated_at`
abbrev pub first_seen : String → Option RunRow → Option String
first_seen generated_at none = some generated_at
first_seen generated_at (some previous) = previous.first_seen_at

module _ (T : TextTools) (rules : List Rule) (generated_at : String) where
  -- the ledger row of an observation, over the row that was there
  unfoldable pub run_row : Option RunRow → WorkflowRow → RunRow
  unfolding failure_columns
  run_row previous observed = record {
    shared = record (observed.shared) {
      taxonomy =
          failure_columns T rules observed.shared.failed_step_message
            (cell observed.shared.message);
    };
    first_seen_at = first_seen generated_at previous;
    last_seen_at = some generated_at;
  }

  -- the loop over `observed_rows`
  unfoldable pub fold_observations : Index → List WorkflowRow → Index
  unfolding run_row lookup put
  fold_observations by_key [] = by_key
  fold_observations by_key (observed ∷ rest) =
      let key = identity observed.shared in
      fold_observations
        (if has_uid observed.shared
          then put key (run_row (lookup key by_key) observed) by_key
          else by_key)
        rest

-- `(r.get("last_seen_at") or "") >= cutoff`
abbrev pub is_retained : String → RunRow → Bool
is_retained limit row = text_leb limit (or_empty row.last_seen_at)

-- `<=` of two tuples of texts
abbrev pub triple_leb : String × String × String → String × String × String → Bool
triple_leb (a, b, c) (x, y, z) =
    if text_eq a x then (if text_eq b y then text_leb c z else text_leb b y) else text_leb a x

abbrev pub sort_key : RunRow → String × String × String
sort_key row =
    let (cluster, uid) = identity row.shared in (or_empty row.first_seen_at, cluster, uid)

abbrev pub row_leb : RunRow → RunRow → Bool
row_leb a b = triple_leb (sort_key a) (sort_key b)

-- `by_key.values()`
abbrev pub values : Index → List RunRow
values = map (λ (_, row). row)

module _ (T : TextTools) (rules : List Rule) where
  -- `by_key` after both loops of `merge`
  unfoldable pub merged_index : List RunRow → List WorkflowRow → String → Index
  unfolding index_rows fold_observations
  merged_index existing_rows observed_rows generated_at =
      fold_observations T rules generated_at (index_rows [] existing_rows) observed_rows

  unfoldable pub merge : List RunRow → List WorkflowRow → String → ℕ → Result (List RunRow)
  merge existing_rows observed_rows generated_at retention_days = do
    let by_key = merged_index existing_rows observed_rows generated_at
    limit ← cutoff retention_days generated_at
    ok (sort row_leb (keep (is_retained limit) (values by_key)))
