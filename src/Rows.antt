-- ===== src/Rows.antt =====
-- The rows of the two Parquet files, column by column (`_SHARED_FIELDS`, `WORKFLOWS_SCHEMA` and
-- `RUNS_SCHEMA` of src/parquet_io.py). A cell is a nullable string or integer. The two cells that
-- are copied from a workflow node hold any JSON value until the row is encoded.
use argo_workflows_exporter.Base.{String, Option, none, some}
use argo_workflows_exporter.Base.Int.{ℤ}
use argo_workflows_exporter.Json.{Value}
use argo_workflows_exporter.Taxonomy.{Columns}

pub record SharedFields : Type 0 where
  pub uid : Option String
  pub cluster : Option String
  pub namespace : Option String
  pub name : Option String
  pub template : Option String
  pub template_scope : Option String
  pub trigger_kind : Option String
  pub trigger_name : Option String
  pub phase : Option String
  pub message : Option String
  pub progress : Option String
  pub created_at : Option String
  pub started_at : Option String
  pub finished_at : Option String
  pub duration_seconds : Option ℤ
  pub resources_duration_cpu : Option ℤ
  pub resources_duration_memory : Option ℤ
  pub failed_step : Value
  pub failed_step_message : Value
  pub taxonomy : Columns

-- a row of `workflows.parquet`
pub record WorkflowRow : Type 0 where
  pub shared : SharedFields
  pub observed_at : Option String

-- a row of `runs.parquet`
pub record RunRow : Type 0 where
  pub shared : SharedFields
  pub first_seen_at : Option String
  pub last_seen_at : Option String

-- `cell or ""`
abbrev pub or_empty : Option String → String
or_empty none = ""
or_empty (some s) = s

-- the cell of a nullable string column, as a Python value
abbrev pub cell : Option String → Value
cell none = Value.null
cell (some s) = Value.text s
