-- ===== src/MetaSchema/CrossField.antt =====
-- `_cross_field_violations` and `validate`.
use text.Mathlib.Text.{starts_with}
use Prim.Native.String
use argo_workflows_exporter.Base.{
  ℕ, suc, String, Bool, true, false, not, ◌&&◌, ◌||◌, Option, none, some, List, [], ◌∷◌, ◌++◌, ltb,
  leb, ◌==◌, if◌then◌else◌,
}
use argo_workflows_exporter.Base.Lists.{length}
use argo_workflows_exporter.Base.Int.{ℤ, pos, ◌+ℤ◌, eqb_ℤ}
use argo_workflows_exporter.Base.Results.{Result, ok, err, ◌>>=◌, meta_schema_error, type_error}
use argo_workflows_exporter.Json.{Value, get, as_obj, as_arr, as_text, as_int, as_bool, value_eq}
use argo_workflows_exporter.MetaSchema.Schema.{
  Violation, id_not_extending, duplicate_names, wrong_total, not_ok_with_rows, report, root,
  meta_schema, check,
}

-- `[c.get("name") for c in clusters if isinstance(c, dict)]`
unfoldable pub listed_names : List Value → List Value
unfolding get
listed_names [] = []
listed_names (v ∷ vs) = elim (as_obj v) [
  | none ↦ listed_names vs
  | some c ↦ get "name" c ∷ listed_names vs
]

-- `c["workflows"] if c.get("ok") is True and _is_integer(c.get("workflows"))`
unfoldable pub accounted_rows : Value → ℤ
unfolding get
accounted_rows v = elim (as_obj v) [
  | none ↦ pos 0
  | some c ↦ elim (as_bool (get "ok" c)) [
    | none ↦ pos 0
    | some b ↦ elim (as_int (get "workflows" c)) [ none ↦ pos 0 | some n ↦ if b then n else pos 0 ]
  ]
]

-- `accounted`
unfoldable pub accounted : List Value → ℤ
unfolding accounted_rows ◌+ℤ◌
accounted [] = pos 0
accounted (v ∷ vs) = accounted_rows v +ℤ accounted vs

-- `names.count(n)`
unfoldable pub count : Value → List Value → ℕ
unfolding value_eq
count n [] = 0
count n (v ∷ vs) = let rest = count n vs in if value_eq v n then suc rest else rest

-- the names that a set comprehension over `names` keeps, each once: those that occur twice
unfoldable pub duplicated : List Value → List Value → List Value
duplicated names [] = []
duplicated names (v ∷ vs) =
    let rest = duplicated names vs in
    if ltb 1 (count v names) && (count v rest == 0) then v ∷ rest else rest

abbrev pub is_hashable : Value → Bool
is_hashable (Value.arr vs) = false
is_hashable (Value.obj fs) = false
is_hashable _ = true

abbrev pub is_number : Value → Bool
is_number (Value.bool b) = true
is_number (Value.int n) = true
is_number (Value.float s) = true
is_number _ = false

abbrev pub is_text : Value → Bool
is_text (Value.text s) = true
is_text _ = false

abbrev pub all : (Value → Bool) → List Value → Bool
all p [] = true
all p (v ∷ vs) = if p v then all p vs else false

-- `sorted({…})`: a name that is no hash key, or names that do not compare, are a `TypeError`
unfoldable pub sortable : List Value → Bool
sortable vs = all is_hashable vs && (leb (length vs) 1 || (all is_text vs || all is_number vs))

abbrev pub not_ok_rows : Value → Bool
not_ok_rows v = elim (as_obj v) [
  | none ↦ false
  | some c ↦ elim (as_bool (get "ok" c)) [
    | none ↦ false
    | some answered ↦ elim (as_int (get "workflows" c)) [
      | none ↦ false
      | some n ↦ not answered && not (eqb_ℤ n (pos 0))
    ]
  ]
]

-- the last loop of `_cross_field_violations`
unfoldable pub not_ok_violations : List Value → ℕ → List Violation
unfolding get
not_ok_violations [] i = []
not_ok_violations (v ∷ vs) i =
    report (not (not_ok_rows v)) (not_ok_with_rows i) ++ not_ok_violations vs (suc i)

-- the rules on `clusters` and `workflows`
unfoldable pub cluster_violations : List Value → ℤ → Result (List Violation)
cluster_violations clusters total =
    let repeated = duplicated (listed_names clusters) (listed_names clusters) in
    if sortable repeated
    then ok (
        report (length repeated == 0) duplicate_names
        ++ (report (eqb_ℤ (accounted clusters) total) wrong_total ++ not_ok_violations clusters 0))
    else err type_error

-- `f"{generated_at}-"`
abbrev pub id_prefix : String → String
id_prefix generated_at = String.◌++◌ generated_at "-"

unfoldable pub id_violations : Option String → Option String → List Violation
id_violations none i = []
id_violations (some g) none = []
id_violations (some g) (some i) = report (starts_with i (id_prefix g)) id_not_extending

unfoldable pub clusters_violations : Option (List Value) → Option ℤ → Result (List Violation)
clusters_violations none t = ok []
clusters_violations (some cs) none = ok []
clusters_violations (some cs) (some t) = cluster_violations cs t

-- `_cross_field_violations`
unfoldable pub cross_field_violations : Value → Result (List Violation)
cross_field_violations meta = elim (as_obj meta) [
  | none ↦ ok []
  | some fs ↦ do
    more ← clusters_violations (as_arr (get "clusters" fs)) (as_int (get "workflows" fs))
    ok (id_violations (as_text (get "generated_at" fs)) (as_text (get "generation_id" fs)) ++ more)
]

-- the end of `validate`
abbrev pub accept : List Violation → Result (Unit {0})
accept [] = ok tt
accept (v ∷ vs) = err meta_schema_error

unfoldable pub validate : Value → Result (Unit {0})
validate meta = do more ← cross_field_violations meta; accept (check meta_schema meta root ++ more)
