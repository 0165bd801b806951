-- ===== src/Workflows/Row/Identity.antt =====
-- A row has the identity of the workflow that it was made from.
use argo_workflows_exporter.Base.{
  some_injective, String, ◌≡◌, refl, sym, ap, ◌∙◌, Bool, true, false, not, some,
}
use argo_workflows_exporter.Base.Text.{is_blank}
use argo_workflows_exporter.Base.Results.{
  ok_injective, ok, Error, malformed_workflow, bind-eq-ok, require,
}
use argo_workflows_exporter.Json.{Value, text, Fields, get, as_obj, as_text, obj}
use argo_workflows_exporter.Rows.{WorkflowRow}
use argo_workflows_exporter.Workflows.Failures.{failed_step}
use argo_workflows_exporter.Workflows.Times.{normalize_timestamp, duration_seconds}
use argo_workflows_exporter.Workflows.Extract.{mapping_at, or_end}
use argo_workflows_exporter.Workflows.{
  require_mapping, require_string, each_field, identity_fields, validate_workflow,
}
use argo_workflows_exporter.Workflows.Row.{RowTools, text_or_empty, row_of, to_row}

-- a text that is not blank
abbrev pub IsSolid : Value → String → Type 0
IsSolid v s = (v ≡ text s) × (is_blank s ≡ false)

abbrev pub Holds : String → Fields → String → Type 0
Holds k fs s = IsSolid (get k fs) s

-- The row's identity is that of the metadata of `wf`, in the cluster that listed it.
pub record IsIdentified (wf : Value) (cluster_name observed_at : String) (row : WorkflowRow)
    : Type 0 where
  pub fields : Fields
  pub is_object : as_obj wf ≡ some fields
  pub uid : String
  pub uid_held : Holds "uid" (mapping_at "metadata" fields) uid
  pub uid_copied : row.shared.uid ≡ some uid
  pub name : String
  pub name_held : Holds "name" (mapping_at "metadata" fields) name
  pub name_copied : row.shared.name ≡ some name
  pub namespace : String
  pub namespace_held : Holds "namespace" (mapping_at "metadata" fields) namespace
  pub namespace_copied : row.shared.namespace ≡ some namespace
  pub in_cluster : row.shared.cluster ≡ some cluster_name
  pub at_time : row.observed_at ≡ some observed_at

require-true : (b : Bool) (e : Error) (u : Unit {0}) → require b e ≡ ok u → b ≡ true
require-true true e u h = refl
require-true false e u h = absurd (cc h)

not-true : (b : Bool) → not b ≡ true → b ≡ false
not-true true h = absurd (cc h)
not-true false h = refl

require_string-IsSolid :
    (v : Value) (u : Unit {0}) → require_string v ≡ ok u → (s : String) × IsSolid v s
require_string-IsSolid (text s) u h =
    (s, (refl, not-true (is_blank s) (require-true (not (is_blank s)) malformed_workflow u h)))
require_string-IsSolid _ u h = absurd (cc h)

require_mapping-obj : (v : Value) (fs : Fields) → require_mapping v ≡ ok fs → as_obj v ≡ some fs
require_mapping-obj (obj gs) fs h = cc
require_mapping-obj _ fs h = absurd (cc h)

mapping_at-obj : (k : String) (fs gs : Fields) → as_obj (get k fs) ≡ some gs → mapping_at k fs ≡ gs
mapping_at-obj k fs gs h = ap or_end h

-- the three texts that `_validate_workflow` asks for
valid-identity :
    (m : Fields) (u : Unit {0})
    → each_field require_string m identity_fields ≡ ok u
    → ((uid : String) × Holds "uid" m uid)
      × ((name : String) × Holds "name" m name)
      × ((namespace : String) × Holds "namespace" m namespace)
valid-identity m u h =
    let (a, p, h1) = bind-eq-ok (require_string (get "uid" m)) _ h in
    let (b, q, h2) = bind-eq-ok (require_string (get "name" m)) _ h1 in
    let (c, r, h3) = bind-eq-ok (require_string (get "namespace" m)) _ h2 in
    (
      require_string-IsSolid (get "uid" m) a p,
      require_string-IsSolid (get "name" m) b q,
      require_string-IsSolid (get "namespace" m) c r,
    )

-- what the identity of a valid workflow is
validate_workflow-identity :
    (wf : Value) (u : Unit {0})
    → validate_workflow wf ≡ ok u
    → (fs : Fields) × (as_obj wf ≡ some fs)
      × ((uid : String) × Holds "uid" (mapping_at "metadata" fs) uid)
      × ((name : String) × Holds "name" (mapping_at "metadata" fs) name)
      × ((namespace : String) × Holds "namespace" (mapping_at "metadata" fs) namespace)
unfolding validate_workflow
validate_workflow-identity wf u h =
    let (fs, f, h1) = bind-eq-ok (require_mapping wf) _ h in
    let (m, g, h2) = bind-eq-ok (require_mapping (get "metadata" fs)) _ h1 in
    let (v, i, h3) = bind-eq-ok (each_field require_string m identity_fields) _ h2 in
    let at = mapping_at-obj "metadata" fs m (require_mapping-obj _ m g) in
    let parts = valid-identity m v i in
    (fs, require_mapping-obj wf fs f, rw at parts.0, rw at parts.1, rw at parts.2)

copied :
    (k : String) (fs gs : Fields) (s : String)
    → gs ≡ fs
    → Holds k (mapping_at "metadata" gs) s
    → some (text_or_empty (as_text (get k (mapping_at "metadata" fs)))) ≡ some s
copied k fs gs s same h =
    ap (λ x. some (text_or_empty (as_text (get k (mapping_at "metadata" x))))) (sym same)
    ∙ ap (λ v. some (text_or_empty (as_text v))) h.0

module _ (R : RowTools) where
  -- Each row that `to_row` returns has the uid, the name and the namespace of the workflow's
  -- metadata, none of them blank, the name of the cluster, and the time of the observation.
  pub to_row-IsIdentified :
      (wf : Value) (cluster_name observed_at : String) (row : WorkflowRow)
      → to_row R wf cluster_name observed_at ≡ ok row
      → IsIdentified wf cluster_name observed_at row
  unfolding to_row row_of
  to_row-IsIdentified wf cluster_name observed_at row h =
      let (u, valid, h1) = bind-eq-ok (validate_workflow wf) _ h in
      let (fs, f, h2) = bind-eq-ok (require_mapping wf) _ h1 in
      let (gs, g, (uid, p), (name, q), (namespace, r)) = validate_workflow-identity wf u valid in
      let same : gs ≡ fs = some_injective (sym g ∙ require_mapping-obj wf fs f) in
      let meta = mapping_at "metadata" fs in
      let status = mapping_at "status" fs in
      let (step, s, h3) = bind-eq-ok (failed_step R.fromisoformat R.inflate fs) _ h2 in
      let (t1, a, h4) =
        bind-eq-ok (normalize_timestamp R.fromisoformat (get "creationTimestamp" meta)) _ h3 in
      let (t2, b, h5) =
        bind-eq-ok (normalize_timestamp R.fromisoformat (get "startedAt" status)) _ h4 in
      let (t3, c, h6) =
        bind-eq-ok (normalize_timestamp R.fromisoformat (get "finishedAt" status)) _ h5 in
      let (d, e, h7) =
        bind-eq-ok
          (duration_seconds R.fromisoformat (get "startedAt" status) (get "finishedAt" status)) _
          h6 in
      let made = ok_injective h7 in
      record {
        fields = fs;
        is_object = require_mapping-obj wf fs f;
        uid = uid;
        uid_held = rw (sym same) p;
        uid_copied = ap (λ x. x.shared.uid) (sym made) ∙ copied "uid" fs gs uid same p;
        name = name;
        name_held = rw (sym same) q;
        name_copied = ap (λ x. x.shared.name) (sym made) ∙ copied "name" fs gs name same q;
        namespace = namespace;
        namespace_held = rw (sym same) r;
        namespace_copied =
            ap (λ x. x.shared.namespace) (sym made) ∙ copied "namespace" fs gs namespace same r;
        in_cluster = ap (λ x. x.shared.cluster) (sym made);
        at_time = ap (λ x. x.observed_at) (sym made);
      }
