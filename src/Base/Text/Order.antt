-- ===== src/Base/Text/Order.antt =====
-- The order of texts is total: reflexive, transitive, antisymmetric and connected.
use Prim.Native.Nat.{ℕ, Ordering, compare as compare_ℕ}
use Prim.Native.Char.{Char, code}
use Prim.Native.String.{String, [], ◌∷◌, compare, then}
use Prim.Native.String.compare
use mathlib.Core.Path.{◌≡◌, refl, sym, ap, ap₂, ◌∙◌}
use mathlib.Core.Bool.{Bool, true, false}
use native.Mathlib.Omega.{arith}
use text.Mathlib.Text.{is_le}
use text.Mathlib.TextEquality.{codes_equal}
use text.Mathlib.TextPositions.{compare_refl}
use argo_workflows_exporter.Base.Text.{text_leb}

then_le : Ordering → Bool → Bool
then_le Ordering.lt b = true
then_le Ordering.eq b = b
then_le Ordering.gt b = false

is_le-then : (o r : Ordering) → is_le (then o r) ≡ then_le o (is_le r)
unfolding then_le
is_le-then Ordering.lt r = refl
is_le-then Ordering.eq r = refl
is_le-then Ordering.gt r = refl

leb-cons :
    (c d : Char) (s t : String)
    → text_leb (c ∷ s) (d ∷ t) ≡ then_le (compare_ℕ (code c) (code d)) (text_leb s t)
leb-cons c d s t =
    ap is_le (compare.cons-cons c d s t) ∙ is_le-then (compare_ℕ (code c) (code d)) (compare s t)

then_le_trans :
    (x y z : ℕ) (a b c : Bool)
    → (a ≡ true → b ≡ true → c ≡ true)
    → then_le (compare_ℕ x y) a ≡ true
    → then_le (compare_ℕ y z) b ≡ true
    → then_le (compare_ℕ x z) c ≡ true
unfolding then_le
then_le_trans x y z a b c h p q = ground arith

then_le_total :
    (x y : ℕ) (a b : Bool)
    → (a ≡ false → b ≡ true)
    → then_le (compare_ℕ x y) a ≡ false
    → then_le (compare_ℕ y x) b ≡ true
unfolding then_le
then_le_total x y a b h p = ground arith

pub text_leb_trans :
    (s t u : String) → text_leb s t ≡ true → text_leb t u ≡ true → text_leb s u ≡ true
text_leb_trans [] t [] p q = ap is_le compare.nil-nil
text_leb_trans [] t (e ∷ u) p q = ap is_le (compare.nil-cons e u)
text_leb_trans (c ∷ s) [] u p q = absurd (cc (ap is_le (compare.cons-nil c s), p))
text_leb_trans (c ∷ s) (d ∷ t) [] p q = absurd (cc (ap is_le (compare.cons-nil d t), q))
text_leb_trans (c ∷ s) (d ∷ t) (e ∷ u) p q =
    leb-cons c e s u
    ∙ then_le_trans (code c) (code d) (code e) _ _ _ (text_leb_trans s t u)
        (sym (leb-cons c d s t) ∙ p) (sym (leb-cons d e t u) ∙ q)

pub text_leb_total : (s t : String) → text_leb s t ≡ false → text_leb t s ≡ true
text_leb_total [] [] p = ap is_le compare.nil-nil
text_leb_total [] (d ∷ t) p = absurd (cc (ap is_le (compare.nil-cons d t), p))
text_leb_total (c ∷ s) [] p = ap is_le (compare.nil-cons c s)
text_leb_total (c ∷ s) (d ∷ t) p =
    leb-cons d c t s
    ∙ then_le_total (code c) (code d) _ _ (text_leb_total s t) (sym (leb-cons c d s t) ∙ p)

then_le_antisym :
    (x y : ℕ) (a b : Bool)
    → then_le (compare_ℕ x y) a ≡ true
    → then_le (compare_ℕ y x) b ≡ true
    → (compare_ℕ x y ≡ Ordering.eq) × (a ≡ true) × (b ≡ true)
unfolding then_le
then_le_antisym x y a b p q = ground arith

pub text_leb_antisym : (s t : String) → text_leb s t ≡ true → text_leb t s ≡ true → s ≡ t
text_leb_antisym [] [] p q = refl
text_leb_antisym [] (d ∷ t) p q = absurd (cc (ap is_le (compare.cons-nil d t), q))
text_leb_antisym (c ∷ s) [] p q = absurd (cc (ap is_le (compare.cons-nil c s), p))
text_leb_antisym (c ∷ s) (d ∷ t) p q =
    let (same, le, ge) =
      then_le_antisym (code c) (code d) (text_leb s t) (text_leb t s) (sym (leb-cons c d s t) ∙ p)
        (sym (leb-cons d c t s) ∙ q) in
    ap₂ ◌∷◌ (codes_equal c d same) (text_leb_antisym s t le ge)

pub text_leb_refl : (s : String) → text_leb s s ≡ true
text_leb_refl s = ap is_le (compare_refl s)
