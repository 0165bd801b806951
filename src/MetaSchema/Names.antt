-- ===== src/MetaSchema/Names.antt =====
-- The test for duplicate names finds nothing exactly if the names are different.
use text.Mathlib.TextEquality.{eq_iff}
use text.Mathlib.TextPositions.{eq_refl}
use argo_workflows_exporter.Base.{
  ℕ, suc, ◌≤◌, String, ◌≡◌, ◌≢◌, refl, ◌↔◌, true, ◌&&◌, List, [], ◌∷◌, map, inl, inr, arith, ltb,
  ◌==◌, Bool-cases, if◌then◌else◌,
}
use argo_workflows_exporter.Base.Text.{text_eq}
use argo_workflows_exporter.Base.Lists.{All, IsPairwise}
use argo_workflows_exporter.Json.{Value, value_eq}
use argo_workflows_exporter.MetaSchema.CrossField.{
  count, duplicated, is_hashable, is_text, all, sortable,
}

abbrev pub texts : List String → List Value
texts = map Value.text

value_eq-text : (s t : String) → value_eq (Value.text s) (Value.text t) ≡ text_eq s t
unfolding value_eq
value_eq-text s t = refl

count-cons :
    (s t : String) (ts : List String)
    → count (Value.text s) (texts (t ∷ ts)) ≡ (
        if text_eq t s
        then suc (count (Value.text s) (texts ts))
        else count (Value.text s) (texts ts))
unfolding count
count-cons s t ts = rw (value_eq-text t s)

count_absent :
    (s : String) (ts : List String) → (count (Value.text s) (texts ts) ≡ 0) ↔ All (λ t. s ≢ t) ts
count_absent s [] = (λ h. tt, λ h. unfold count in refl)
count_absent s (t ∷ ts) = rw count-cons (ground (arith, eq_iff t s, count_absent s ts))

-- every name of the list occurs in `ts` once at most
abbrev AreSingle : List String → List String → Type 0
AreSingle ts = All (λ s. count (Value.text s) (texts ts) ≤ 1)

single_tail : (t : String) (ts ss : List String) → AreSingle (t ∷ ts) ss → AreSingle ts ss
single_tail t ts [] h = tt
single_tail t ts (s ∷ ss) h = (ground (arith, count-cons s t ts, h.0), single_tail t ts ss h.1)

single_cons :
    (t : String) (ts ss : List String)
    → All (λ s. t ≢ s) ss
    → AreSingle ts ss
    → AreSingle (t ∷ ts) ss
single_cons t ts [] n h = tt
single_cons t ts (s ∷ ss) n h =
    (ground (arith, count-cons s t ts, eq_iff t s, n.0, h.0), single_cons t ts ss n.1 h.1)

single_iff : (ts : List String) → AreSingle ts ts ↔ IsPairwise ◌≢◌ ts
single_iff [] = (λ h. tt, λ h. tt)
single_iff (t ∷ ts) = (
  λ h. (
    (count_absent t ts).0 (ground (arith, count-cons t t ts, eq_refl t, h.0)),
    (single_iff ts).0 (single_tail t ts ts h.1),
  ),
  λ h. (
    ground (arith, count-cons t t ts, eq_refl t, (count_absent t ts).1 h.0),
    single_cons t ts ts h.0 ((single_iff ts).1 h.1),
  ),
)

collect_iff :
    (n : ℕ) (v : Value) (rest : List Value)
    → ((if ltb 1 n && (count v rest == 0) then v ∷ rest else rest) ≡ []) ↔ ((n ≤ 1) × (rest ≡ []))
collect_iff n v [] = unfold count in ground arith
collect_iff n v (r ∷ rs) = (
  λ h. elim (Bool-cases (ltb 1 n && (count v (r ∷ rs) == 0))) [
    | inl e ↦ absurd (cc (rw e at h))
    | inr e ↦ absurd (cc (rw e at h))
  ],
  λ (a, h). absurd (cc h),
)

duplicated_iff : (ts ss : List String) → (duplicated (texts ts) (texts ss) ≡ []) ↔ AreSingle ts ss
unfolding duplicated
duplicated_iff ts [] = (λ h. tt, λ h. refl)
duplicated_iff ts (s ∷ ss) =
    let (into, from) =
      collect_iff (count (Value.text s) (texts ts)) (Value.text s)
        (duplicated (texts ts) (texts ss)) in
    (
      λ h. let (a, b) = into h in (a, (duplicated_iff ts ss).0 b),
      λ (a, b). from (a, (duplicated_iff ts ss).1 b),
    )

-- The set of duplicates of some texts is empty exactly if the texts are different.
pub duplicated-Unique :
    (ts : List String) → (duplicated (texts ts) (texts ts) ≡ []) ↔ IsPairwise ◌≢◌ ts
duplicated-Unique ts = (
  λ h. (single_iff ts).0 ((duplicated_iff ts ts).0 h),
  λ h. (duplicated_iff ts ts).1 ((single_iff ts).1 h),
)

duplicated-texts : (ts ss : List String) → all is_text (duplicated (texts ts) (texts ss)) ≡ true
unfolding duplicated
duplicated-texts ts [] = refl
duplicated-texts ts (s ∷ ss) = ground (arith, duplicated-texts ts ss)

hashable_of_text : (vs : List Value) → all is_text vs ≡ true → all is_hashable vs ≡ true
hashable_of_text [] h = refl
hashable_of_text (Value.text s ∷ vs) h = hashable_of_text vs h
hashable_of_text (v ∷ vs) h = absurd (cc h)

-- Names that are texts can be sorted.
pub sortable-texts : (ts : List String) → sortable (duplicated (texts ts) (texts ts)) ≡ true
unfolding sortable
sortable-texts ts =
    ground (arith, duplicated-texts ts ts, hashable_of_text (duplicated (texts ts) (texts ts)))
