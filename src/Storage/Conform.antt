-- ===== src/Storage/Conform.antt =====
-- `conform` of src/parquet_io.py, on tables of columns. The cells, the types of the columns and the
-- cast of a column are pyarrow's; the names of a table's columns are different.
use argo_workflows_exporter.Base.{
  ℕ, zero, suc, ◌≤◌, String, ◌≡◌, refl, sym, ap, subst, ◌∙◌, inl, inr, Option, none, some, List, [],
  ◌∷◌, map, arith,
}
use argo_workflows_exporter.Base.Dict.{Dict, lookup, string_eq, In-lookup}
use argo_workflows_exporter.Base.Lists.{All, All-In, In, length}
use argo_workflows_exporter.Base.Results.{Result, ok, ◌>>=◌, bind-eq-ok, ok_injective}

module _ (Cell Kind : Type 0) where
  -- a `pa.Schema`
  abbrev pub Schema : Type 0
  Schema = List (String × Kind)

  -- a `pa.Table`
  pub record Table : Type 0 where
    pub num_rows : ℕ
    pub columns : Dict String (List Cell)

-- `table.num_rows`, of a table that is made from its columns
abbrev pub rows_of : {Cell : Type 0} → Dict String (List Cell) → ℕ
rows_of [] = 0
rows_of ((name, column) ∷ columns) = length column

-- `pa.nulls`
abbrev pub nulls : {Cell : Type 0} → Cell → ℕ → List Cell
nulls c zero = []
nulls c (suc n) = c ∷ nulls c n

module _ {Cell Kind : Type 0} (cast : Kind → List Cell → Result (List Cell)) (null : Cell) where
  abbrev pub conformed : ℕ → Kind → Option (List Cell) → Result (List Cell)
  conformed num_rows kind none = ok (nulls null num_rows)
  conformed num_rows kind (some column) = cast kind column

  -- the loop over the fields of the schema
  unfoldable pub conform_columns :
      Table Cell Kind → Schema Cell Kind → Result (Dict String (List Cell))
  conform_columns table [] = ok []
  conform_columns table ((name, kind) ∷ fields) = do
    column ← conformed table.num_rows kind (lookup name table.columns)
    columns ← conform_columns table fields
    ok ((name, column) ∷ columns)

  unfoldable pub conform : Table Cell Kind → Schema Cell Kind → Result (Table Cell Kind)
  conform table schema = do
    columns ← conform_columns table schema
    ok (record { num_rows = rows_of columns; columns = columns })

nulls-length : {Cell : Type 0} (c : Cell) (n : ℕ) → length (nulls c n) ≡ n
nulls-length c zero = refl
nulls-length c (suc n) = omega (arith, nulls-length c n)

module _ {Cell Kind : Type 0} (cast : Kind → List Cell → Result (List Cell)) (null : Cell) where
  -- a cast changes the cells one by one
  abbrev pub KeepsLength : Type 0
  KeepsLength =
      (kind : Kind) (column result : List Cell)
      → cast kind column ≡ ok result
      → length result ≡ length column

  -- the columns of a table are equally long
  abbrev pub IsTable : ℕ → Dict String (List Cell) → Type 0
  IsTable n columns = All (λ (c : String × List Cell). length c.1 ≡ n) columns

  abbrev pub names_of : Dict String (List Cell) → List String
  names_of = map (λ (c : String × List Cell). c.0)

  abbrev pub schema_names : Schema Cell Kind → List String
  schema_names = map (λ (f : String × Kind). f.0)

  -- what the columns of a table that is re-shaped are
  pub record AreConformed (table : Table Cell Kind) (schema : Schema Cell Kind)
      (columns : Dict String (List Cell)) : Type 0 where
    pub names_are : names_of columns ≡ schema_names schema
    pub is_table : IsTable table.num_rows columns
    pub missing_are :
        (name : String) (kind : Kind)
        → In (name, kind) schema
        → lookup name table.columns ≡ none
        → In (name, nulls null table.num_rows) columns
    pub present_are :
        (name : String) (kind : Kind) (column : List Cell)
        → In (name, kind) schema
        → lookup name table.columns ≡ some column
        → (result : List Cell) × (cast kind column ≡ ok result) × In (name, result) columns

  conformed-length :
      (table : Table Cell Kind) (name : String) (kind : Kind) (o : Option (List Cell))
      (result : List Cell)
      → KeepsLength
      → IsTable table.num_rows table.columns
      → lookup name table.columns ≡ o
      → conformed cast null table.num_rows kind o ≡ ok result
      → length result ≡ table.num_rows
  conformed-length table name kind none result k t l h =
      subst (λ x. length x ≡ table.num_rows) (ok_injective h) (nulls-length null table.num_rows)
  conformed-length table name kind (some column) result k t l h =
      k kind column result h
      ∙ All-In (λ (c : String × List Cell). length c.1 ≡ table.num_rows) table.columns
          (name, column) t (In-lookup name column table.columns l)

  head-missing :
      (table : Table Cell Kind) (n name : String) (d kind : Kind) (c : List Cell)
      → ◌≡◌ {A = String × Kind} (n, d) (name, kind)
      → lookup n table.columns ≡ none
      → conformed cast null table.num_rows kind (lookup name table.columns) ≡ ok c
      → ◌≡◌ {A = String × List Cell} (n, nulls null table.num_rows) (name, c)
  head-missing table n name d kind c q l e =
      let same : n ≡ name = ap (λ (x : String × Kind). x.0) q in
      let gone : lookup name table.columns ≡ none =
        subst (λ x. lookup x table.columns ≡ none) same l in
      ap (λ (x : String). (x, nulls null table.num_rows)) same
      ∙ ap (λ (x : List Cell). (name, x))
          (ok_injective (ap (conformed cast null table.num_rows kind) (sym gone) ∙ e))

  head-present :
      (table : Table Cell Kind) (n name : String) (d kind : Kind) (c column : List Cell)
      → ◌≡◌ {A = String × Kind} (n, d) (name, kind)
      → lookup n table.columns ≡ some column
      → conformed cast null table.num_rows kind (lookup name table.columns) ≡ ok c
      → (cast d column ≡ ok c) × ◌≡◌ {A = String × List Cell} (n, c) (name, c)
  head-present table n name d kind c column q l e =
      let same : n ≡ name = ap (λ (x : String × Kind). x.0) q in
      let kinds : d ≡ kind = ap (λ (x : String × Kind). x.1) q in
      let there : lookup name table.columns ≡ some column =
        subst (λ x. lookup x table.columns ≡ some column) same l in
      (
        ap (λ x. cast x column) kinds
            ∙ ap (conformed cast null table.num_rows kind) (sym there)
            ∙ e,
        ap (λ (x : String). (x, c)) same,
      )

  conform_columns-AreConformed :
      (table : Table Cell Kind) (schema : Schema Cell Kind) (columns : Dict String (List Cell))
      → KeepsLength
      → IsTable table.num_rows table.columns
      → conform_columns cast null table schema ≡ ok columns
      → AreConformed table schema columns
  unfolding conform_columns
  conform_columns-AreConformed table [] columns k t h =
      subst (AreConformed table []) (ok_injective h) (record {
        names_are = refl;
        is_table = tt;
        missing_are = λ name kind i. absurd i;
        present_are = λ name kind column i. absurd i;
      })
  conform_columns-AreConformed table ((name, kind) ∷ fields) columns k t h =
      let (c, e, h) =
        bind-eq-ok (conformed cast null table.num_rows kind (lookup name table.columns)) _ h in
      let (cs, f, h) = bind-eq-ok (conform_columns cast null table fields) _ h in
      let r = conform_columns-AreConformed table fields cs k t f in
      subst (AreConformed table ((name, kind) ∷ fields)) (ok_injective h) (record {
        names_are = ap (λ x. name ∷ x) r.names_are;
        is_table =
            (conformed-length table name kind (lookup name table.columns) c k t refl e, r.is_table);
        missing_are = λ n d i l. elim i [
          | inl q ↦ inl (head-missing table n name d kind c q l e)
          | inr j ↦ inr (r.missing_are n d j l)
        ];
        present_are = λ n d column i l. elim i [
          | inl q ↦ let (u, v) = head-present table n name d kind c column q l e in (c, u, inl v)
          | inr j ↦ let (x, y, z) = r.present_are n d column j l in (x, y, inr z)
        ];
      })

  rows_of-IsTable :
      (n : ℕ) (columns : Dict String (List Cell))
      → 1 ≤ length columns
      → IsTable n columns
      → rows_of columns ≡ n
  rows_of-IsTable n [] p h = absurd (omega (arith, p))
  rows_of-IsTable n (c ∷ cs) p h = h.0

  same-length :
      (columns : Dict String (List Cell)) (schema : Schema Cell Kind)
      → names_of columns ≡ schema_names schema
      → length columns ≡ length schema
  same-length [] [] h = refl
  same-length [] (f ∷ fs) h = absurd (cc h)
  same-length (c ∷ cs) [] h = absurd (cc h)
  same-length (c ∷ cs) (f ∷ fs) h = ap suc (same-length cs fs (cc h))

  -- A table that is re-shaped to a schema with a field has the columns of the schema, in its order,
  -- and as many rows as before: a column that the table had is cast, and one that it had not is
  -- null throughout.
  pub conform-AreConformed :
      (table : Table Cell Kind) (schema : Schema Cell Kind) (result : Table Cell Kind)
      → KeepsLength
      → IsTable table.num_rows table.columns
      → 1 ≤ length schema
      → conform cast null table schema ≡ ok result
      → (result.num_rows ≡ table.num_rows) × AreConformed table schema result.columns
  unfolding conform
  conform-AreConformed table schema result k t p h =
      let (columns, e, h) = bind-eq-ok (conform_columns cast null table schema) _ h in
      let r = conform_columns-AreConformed table schema columns k t e in
      subst (λ x. (x.num_rows ≡ table.num_rows) × AreConformed table schema x.columns)
        (ok_injective h)
        (
          rows_of-IsTable table.num_rows columns
              (subst (λ n. 1 ≤ n) (sym (same-length columns schema r.names_are)) p) r.is_table,
          r,
        )
