-- ===== src/Ledger/Order.antt =====
-- The rows come out sorted, with one row for each identity.
use argo_workflows_exporter.Base.{
  ℕ, String, ◌≡◌, ◌≢◌, sym, ◌∙◌, subst, Bool, true, false, none, List, [], ◌∷◌, arith, Bool-cases,
  inl, inr, if◌then◌else◌,
}
use text.Mathlib.TextEquality.{eq_iff}
use argo_workflows_exporter.Base.Text.{text_eq, text_leb}
use argo_workflows_exporter.Base.Text.Order.{text_leb_antisym, text_leb_trans, text_leb_total}
use argo_workflows_exporter.Base.Lists.{keep, All, IsPairwise, keep-IsPairwise, weaken-IsPairwise}
use argo_workflows_exporter.Base.Sort.{sort, IsSorted, sort-IsSorted, sort-IsPairwise}
use argo_workflows_exporter.Base.Results.{ok}
use argo_workflows_exporter.Taxonomy.{TextTools, Rule}
use argo_workflows_exporter.Rows.{WorkflowRow, RunRow}
use argo_workflows_exporter.Ledger.Promise.{
  InOrder, AreDistinct, row_leb-InOrder, other-AreDistinct,
}
use argo_workflows_exporter.Ledger.Merge.{merged_index-IsKeyed, merge_of_cutoff}
use argo_workflows_exporter.Base.Dict.{lookup, UniqueKeys}
use argo_workflows_exporter.Ledger.{
  Key, key_eq, Index, identity, triple_leb, row_leb, sort_key, is_retained, values, merged_index,
  merge, cutoff,
}

text_eq→eq : (s t : String) → text_eq s t ≡ true → s ≡ t
text_eq→eq s t = (eq_iff s t).0

-- The order on pairs whose second parts are ordered by `r`.
lex : String → String → Bool → Bool
lex a x r = if text_eq a x then r else text_leb a x

lex_trans :
    (a b c : String) (r s t : Bool)
    → (r ≡ true → s ≡ true → t ≡ true)
    → lex a b r ≡ true
    → lex b c s ≡ true
    → lex a c t ≡ true
unfolding lex
lex_trans a b c r s t h p q =
    grind (arith, eq_iff a b, eq_iff b c, eq_iff a c, h, text_leb_trans a b c, text_leb_antisym a b)

lex_total :
    (a b : String) (r s : Bool) → (r ≡ false → s ≡ true) → lex a b r ≡ false → lex b a s ≡ true
unfolding lex
lex_total a b r s h p = ground (arith, eq_iff a b, eq_iff b a, h, text_leb_total a b)

pub triple_leb_trans :
    (p q r : String × String × String)
    → triple_leb p q ≡ true
    → triple_leb q r ≡ true
    → triple_leb p r ≡ true
unfolding lex
triple_leb_trans (a, b, c) (d, e, f) (x, y, z) =
    lex_trans a d x (lex b e (text_leb c f)) (lex e y (text_leb f z)) (lex b y (text_leb c z))
      (lex_trans b e y (text_leb c f) (text_leb f z) (text_leb c z) (text_leb_trans c f z))

pub triple_leb_total :
    (p q : String × String × String) → triple_leb p q ≡ false → triple_leb q p ≡ true
unfolding lex
triple_leb_total (a, b, c) (x, y, z) =
    lex_total a x (lex b y (text_leb c z)) (lex y b (text_leb z c))
      (lex_total b y (text_leb c z) (text_leb z c) (text_leb_total c z))

-- Two rows are of different runs.
abbrev pub IsOtherRun : RunRow → RunRow → Type 0
IsOtherRun a b = identity a.shared ≢ identity b.shared

other_keys :
    (k : Key) (d : Index)
    → lookup k d ≡ none
    → All (λ (j, r). j ≡ identity r.shared) d
    → All (λ r. k ≢ identity r.shared) (values d)
unfolding lookup
other_keys k [] e h = tt
other_keys k ((j, r) ∷ d) e h = elim (Bool-cases (key_eq.beq j k)) [
  | inl q ↦ absurd (cc (rw q at e))
  | inr q ↦ (λ p. cc ((key_eq.beq_iff j k).1 (h.0 ∙ sym p), q), other_keys k d (rw q at e) h.1)
]

values-IsPairwise :
    (d : Index)
    → UniqueKeys d
    → All (λ (j, r). j ≡ identity r.shared) d
    → IsPairwise IsOtherRun (values d)
values-IsPairwise [] u h = tt
values-IsPairwise ((j, r) ∷ d) u h = (
  subst (λ k. All (λ s. k ≢ identity s.shared) (values d)) h.0 (other_keys j d u.0 h.1),
  values-IsPairwise d u.1 h.1,
)

IsSorted-IsPairwise :
    (rows : List RunRow) → IsSorted row_leb rows → IsPairwise (λ a b. row_leb a b ≡ true) rows
IsSorted-IsPairwise [] h = tt
IsSorted-IsPairwise (row ∷ rows) h = (h.0, IsSorted-IsPairwise rows h.1)

IsSorted-InOrder : (rows : List RunRow) → IsSorted row_leb rows → IsPairwise InOrder rows
IsSorted-InOrder rows h =
    weaken-IsPairwise (λ a b. row_leb a b ≡ true) InOrder row_leb-InOrder rows
      (IsSorted-IsPairwise rows h)

module _ (T : TextTools) (rules : List Rule) where
  -- Whatever the stored ledger and the observations, when the cutoff can be computed `merge` returns
  -- a ledger. Each of its rows was first seen before every later one; or at the same time, in a
  -- cluster before the other's; or in the same cluster too, with a uid that is no later. No two rows
  -- have the same cluster and uid.
  pub merge-IsSorted :
      (existing_rows : List RunRow) (observed_rows : List WorkflowRow) (generated_at : String)
      (retention_days : ℕ) (limit : String)
      → cutoff retention_days generated_at ≡ ok limit
      → (kept : List RunRow) × (merge T rules existing_rows observed_rows generated_at
            retention_days
          ≡ ok kept)
        × IsPairwise InOrder kept
        × IsPairwise AreDistinct kept
  merge-IsSorted existing_rows observed_rows generated_at retention_days limit p =
      let d = merged_index T rules existing_rows observed_rows generated_at in
      let keyed = merged_index-IsKeyed T rules generated_at existing_rows observed_rows in
      let rows = keep (is_retained limit) (values d) in
      (
        sort row_leb rows,
        merge_of_cutoff T rules existing_rows observed_rows generated_at retention_days limit p,
        IsSorted-InOrder (sort row_leb rows) (
            sort-IsSorted row_leb (λ a b c. triple_leb_trans (sort_key a) (sort_key b) (sort_key c))
              (λ a b. triple_leb_total (sort_key a) (sort_key b)) rows),
        weaken-IsPairwise IsOtherRun AreDistinct other-AreDistinct (sort row_leb rows) (
            sort-IsPairwise row_leb IsOtherRun (λ a b n e. n (sym e)) rows
              (keep-IsPairwise (is_retained limit) IsOtherRun (values d)
                (values-IsPairwise d keyed.0 keyed.1))),
      )
