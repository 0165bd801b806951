-- ===== src/Storage.antt =====
-- src/s3io.py, and the Parquet calls of src/parquet_io.py that carry the generation id. boto3 and
-- pyarrow are parameters.
pub mod Conform
use Prim.Native.Char.{Char, code}
use Prim.Native.String
use argo_workflows_exporter.Base.{
  ℕ, String, ◌≡◌, refl, Bool, Option, none, some, List, [], ◌∷◌, ◌&&◌, ◌==◌, if◌then◌else◌,
}
use argo_workflows_exporter.Base.Text.{is_empty, strip}
use argo_workflows_exporter.Base.Dict.{Dict, lookup, string_eq}
use argo_workflows_exporter.Base.Results.{Result, ok, err, Error, ◌>>=◌}
use argo_workflows_exporter.Rows.{WorkflowRow, RunRow}

abbrev pub Bytes : Type 0
Bytes = List ℕ

-- what a `get_object` call comes to; a `ClientError` with another code is `failed client_error`
pub data GetOutcome : Type 0 where
  body : Bytes → GetOutcome
  no_such_key : GetOutcome
  failed : Error → GetOutcome

-- `download_bytes`, from what its call comes to
unfoldable pub download_bytes : GetOutcome → Result (Option Bytes)
download_bytes (body b) = ok (some b)
download_bytes no_such_key = ok none
download_bytes (failed e) = err e

is_slash : Char → Bool
is_slash c = code c == b'/'

strip_left_slashes : String → String
unfolding is_slash
strip_left_slashes String.[] = String.[]
strip_left_slashes (String.◌∷◌ c s) = if is_slash c then strip_left_slashes s else String.◌∷◌ c s

strip_right_slashes : String → String
unfolding is_slash
strip_right_slashes String.[] = String.[]
strip_right_slashes (String.◌∷◌ c s) =
    let rest = strip_right_slashes s in
    if is_empty rest && is_slash c then String.[] else String.◌∷◌ c rest

-- `normalize_s3_prefix` of src/config.py
unfoldable pub normalize_s3_prefix : String → String
unfolding strip strip_left_slashes strip_right_slashes
normalize_s3_prefix prefix = strip_right_slashes (strip_left_slashes (strip prefix))

unfoldable pub object_key : String → String → String
unfolding normalize_s3_prefix
object_key prefix name =
    let normal = normalize_s3_prefix prefix in
    if is_empty normal then name else String.◌++◌ normal (String.◌++◌ "/" name)

object_key-default : object_key " /argo/data/ " "meta.json" ≡ "argo/data/meta.json"
unfolding object_key
object_key-default = refl

-- What the code takes from pyarrow and from `str.encode` and `bytes.decode`.
pub record Pyarrow : Type 1 where
  pub Table : Type 0
  -- `pa.Table.from_pylist(rows, schema=…)`
  pub from_workflow_rows : List WorkflowRow → Result Table
  pub from_run_rows : List RunRow → Result Table
  -- `table.replace_schema_metadata`
  pub replace_schema_metadata : Table → Dict String String → Table
  -- `pq.write_table`, into a buffer
  pub write_table : Table → Result Bytes
  -- `pq.read_metadata(…).metadata`, its values still encoded
  pub read_metadata : Bytes → Result (Option (Dict String Bytes))
  -- the rows of `conform(pq.read_table(…), RUNS_SCHEMA)`
  pub read_run_rows : Bytes → Result (List RunRow)
  pub decode : Bytes → Result String

-- `GENERATION_ID_KEY`
abbrev pub generation_id_key : String
generation_id_key = "generation_id"

module _ (P : Pyarrow) where
  -- `stamp_generation`
  unfoldable pub stamp_generation : P.Table → String → P.Table
  stamp_generation table generation_id =
      P.replace_schema_metadata table ((generation_id_key, generation_id) ∷ [])

  stamp_if : P.Table → Option String → P.Table
  stamp_if table none = table
  stamp_if table (some generation_id) = stamp_generation table generation_id

  -- `table_to_parquet_bytes`, for each of the two schemas
  unfoldable pub workflows_to_parquet_bytes : List WorkflowRow → Option String → Result Bytes
  unfolding stamp_if stamp_generation
  workflows_to_parquet_bytes rows generation_id = do
    table ← P.from_workflow_rows rows
    P.write_table (stamp_if table generation_id)

  unfoldable pub runs_to_parquet_bytes : List RunRow → Option String → Result Bytes
  unfolding stamp_if stamp_generation
  runs_to_parquet_bytes rows generation_id = do
    table ← P.from_run_rows rows
    P.write_table (stamp_if table generation_id)

  decode_value : Option Bytes → Result (Option String)
  decode_value none = ok none
  decode_value (some value) = do text ← P.decode value; ok (some text)

  -- `read_generation_id`
  unfoldable pub read_generation_id : Bytes → Result (Option String)
  unfolding decode_value lookup
  read_generation_id data_bytes = do
    metadata ← P.read_metadata data_bytes
    elim metadata [ none ↦ ok none | some d ↦ decode_value (lookup generation_id_key d) ]

  -- the rows of `parquet_bytes_to_table(data, RUNS_SCHEMA)`
  unfoldable pub stored_runs : Option Bytes → Result (List RunRow)
  stored_runs none = ok []
  stored_runs (some b) = P.read_run_rows b
