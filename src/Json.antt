-- ===== src/Json.antt =====
-- Decoded JSON, as the program holds it: `None`, `bool`, `int`, `float`, `str`, `list` and `dict`.
-- A float is known by its `repr`, since no code that reads JSON computes with one.
use argo_workflows_exporter.Base.{
  String, Bool, true, false, not, if◌then◌else◌, ◌&&◌, ◌||◌, Option, none, some, List, [], ◌∷◌,
  ◌==◌,
}
use argo_workflows_exporter.Base.Text.{text_eq, is_empty}
use argo_workflows_exporter.Base.Int.{ℤ, pos, eqb_ℤ}
use argo_workflows_exporter.Base.Lists.{length}
use argo_workflows_exporter.Base.Dict.{Dict, lookup, has, string_eq}

mutual
  pub data Value : Type 0 where
    null : Value
    bool : Bool → Value
    int : ℤ → Value
    float : String → Value
    text : String → Value
    arr : Items → Value
    obj : Fields → Value

  pub data Fields : Type 0 where
    end : Fields
    field : String → Value → Fields → Fields

  pub data Items : Type 0 where
    nil : Items
    cons : Value → Items → Items

-- the items of a `list`
unfoldable pub items : Items → List Value
items nil = []
items (cons v vs) = v ∷ items vs

-- the items of a `dict`, in order
unfoldable pub entries : Fields → Dict String Value
entries end = []
entries (field k v fs) = (k, v) ∷ entries fs

unfoldable pub of_items : List Value → Items
of_items [] = nil
of_items (v ∷ vs) = cons v (of_items vs)

-- `d.get(key)`, with `None` for a key that is not there
unfoldable pub get : String → Fields → Value
unfolding entries lookup
get k fs = elim (lookup k (entries fs)) [ none ↦ null | some v ↦ v ]

-- `key in d`
unfoldable pub contains : String → Fields → Bool
unfolding entries has
contains k fs = has k (entries fs)

abbrev pub is_null : Value → Bool
is_null null = true
is_null _ = false

-- `isinstance(value, dict)`, and so on; a `bool` is no integer here, as `_is_integer` has it
abbrev pub as_obj : Value → Option Fields
as_obj (obj fs) = some fs
as_obj _ = none

abbrev pub as_arr : Value → Option (List Value)
as_arr (arr vs) = some (items vs)
as_arr _ = none

abbrev pub as_text : Value → Option String
as_text (text s) = some s
as_text _ = none

abbrev pub as_int : Value → Option ℤ
as_int (int n) = some n
as_int _ = none

abbrev pub as_bool : Value → Option Bool
as_bool (bool b) = some b
as_bool _ = none

abbrev pub is_some : {A : Type 0} → Option A → Bool
is_some none = false
is_some (some a) = true

-- a number, if the value is one for Python's `==`: `True` is 1
abbrev as_number : Value → Option ℤ
as_number (int n) = some n
as_number (bool true) = some (pos 1)
as_number (bool false) = some (pos 0)
as_number _ = none

abbrev same_number : Option ℤ → Option ℤ → Bool
same_number none n = false
same_number (some m) none = false
same_number (some m) (some n) = eqb_ℤ m n

abbrev is_zero_float : String → Bool
is_zero_float s = text_eq s "0.0" || text_eq s "-0.0"

abbrev and_also : Bool → Bool → Bool
and_also true b = b
and_also false b = false

-- Python's `==`. A float equals only floats here.
unfoldable mutual
  pub value_eq : Value → Value → Bool
  value_eq null v = is_null v
  value_eq (bool b) v = same_number (as_number (bool b)) (as_number v)
  value_eq (int n) v = same_number (some n) (as_number v)
  value_eq (float s) v = elim v [
    | float t ↦ text_eq s t || (is_zero_float s && is_zero_float t)
    | _ ↦ false
  ]
  value_eq (text s) v = elim (as_text v) [ none ↦ false | some t ↦ text_eq s t ]
  value_eq (arr vs) v = elim (as_arr v) [ none ↦ false | some ws ↦ items_eq vs ws ]
  value_eq (obj fs) v = elim (as_obj v) [
    | none ↦ false
    | some gs ↦ and_also (length (entries fs) == length (entries gs)) (fields_in fs (entries gs))
  ]

  pub items_eq : Items → List Value → Bool
  items_eq nil [] = true
  items_eq nil (w ∷ ws) = false
  items_eq (cons v vs) [] = false
  items_eq (cons v vs) (w ∷ ws) = and_also (value_eq v w) (items_eq vs ws)

  pub fields_in : Fields → Dict String Value → Bool
  fields_in end d = true
  fields_in (field k v fs) d =
      and_also (elim (lookup k d) [ none ↦ false | some w ↦ value_eq v w ]) (fields_in fs d)

-- `bool(value)`
abbrev pub truthy : Value → Bool
truthy null = false
truthy (bool b) = b
truthy (int n) = not (eqb_ℤ n (pos 0))
truthy (float s) = not (is_zero_float s)
truthy (text s) = not (is_empty s)
truthy (arr nil) = false
truthy (arr (cons v vs)) = true
truthy (obj end) = false
truthy (obj (field k v fs)) = true

abbrev pub or_value : Value → Value → Value
or_value v w = if truthy v then v else w
