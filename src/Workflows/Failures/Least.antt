-- ===== src/Workflows/Failures/Least.antt =====
-- The order of the failed pods of src/workflows.py, and the first of them.
use argo_workflows_exporter.Base.{
  ◌≡◌, refl, sym, ap, subst, inl, inr, Bool, true, false, Bool-cases, none, some, List, [], ◌∷◌,
  arith, if◌then◌else◌,
}
use argo_workflows_exporter.Base.Text.Order.{text_leb_trans, text_leb_total, text_leb_refl}
use argo_workflows_exporter.Base.Lists.{In, All}
use argo_workflows_exporter.Workflows.Failures.{SelectionKey, key_leb, Keyed, least}

key_leb_refl : (k : SelectionKey) → key_leb k k ≡ true
key_leb_refl (none, a) = text_leb_refl a
key_leb_refl (some t, a) = ground (arith, text_leb_refl a)

key_leb_trans :
    (j k l : SelectionKey) → key_leb j k ≡ true → key_leb k l ≡ true → key_leb j l ≡ true
key_leb_trans (none, a) (none, b) (none, c) p q = text_leb_trans a b c p q
key_leb_trans (none, a) (none, b) (some u, c) p q = absurd (cc q)
key_leb_trans (none, a) (some t, b) l p q = absurd (cc p)
key_leb_trans (some s, a) (none, b) (none, c) p q = refl
key_leb_trans (some s, a) (none, b) (some u, c) p q = absurd (cc q)
key_leb_trans (some s, a) (some t, b) (none, c) p q = refl
key_leb_trans (some s, a) (some t, b) (some u, c) p q = ground (arith, text_leb_trans a b c)

key_leb_total : (j k : SelectionKey) → key_leb j k ≡ false → key_leb k j ≡ true
key_leb_total (none, a) (none, b) h = text_leb_total a b h
key_leb_total (none, a) (some t, b) h = refl
key_leb_total (some s, a) (none, b) h = absurd (cc h)
key_leb_total (some s, a) (some t, b) h = ground (arith, text_leb_total a b)

skip_second : (a b c : Keyed) (xs : List Keyed) → In a (b ∷ xs) → In a (b ∷ c ∷ xs)
skip_second a b c xs (inl e) = inl e
skip_second a b c xs (inr i) = inr (inr i)

-- a failed pod such that no other one sorts before it
abbrev pub IsFirst : List Keyed → Keyed → Type 0
IsFirst failures x = In x failures × All (λ y. key_leb x.0 y.0 ≡ true) failures

All-weaken :
    (j k : SelectionKey) (xs : List Keyed)
    → key_leb j k ≡ true
    → All (λ y. key_leb k y.0 ≡ true) xs
    → All (λ y. key_leb j y.0 ≡ true) xs
All-weaken j k [] h a = tt
All-weaken j k (x ∷ xs) h a = (key_leb_trans j k x.0 h a.0, All-weaken j k xs h a.1)

least-none : (best : Keyed) → best ≡ least best []
unfolding least
least-none best = refl

least-keeps :
    (best x : Keyed) (xs : List Keyed) (b : Bool)
    → key_leb best.0 x.0 ≡ b
    → least best (x ∷ xs) ≡ least (if b then best else x) xs
unfolding least
least-keeps best x xs b e = ap (λ (c : Bool). least (if c then best else x) xs) e

pub least-IsFirst : (best : Keyed) (xs : List Keyed) → IsFirst (best ∷ xs) (least best xs)
least-IsFirst best [] =
    subst (IsFirst (best ∷ [])) (least-none best) (inl refl, (key_leb_refl best.0, tt))
least-IsFirst best (x ∷ xs) = elim (Bool-cases (key_leb best.0 x.0)) [
  | inl e ↦
      let (i, a) = least-IsFirst best xs in
      subst (IsFirst (best ∷ x ∷ xs)) (sym (least-keeps best x xs true e))
        (skip_second _ best x xs i, (a.0, (key_leb_trans _ best.0 x.0 a.0 e, a.1)))
  | inr e ↦
      let (i, a) = least-IsFirst x xs in
      subst (IsFirst (best ∷ x ∷ xs)) (sym (least-keeps best x xs false e))
        (inr i, (key_leb_trans _ x.0 best.0 a.0 (key_leb_total best.0 x.0 e), a))
]
