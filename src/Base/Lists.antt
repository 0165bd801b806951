-- ===== src/Base/Lists.antt =====
-- Lists measured by native numbers, and the predicates on lists that the components share.
use Prim.Native.Nat.{ℕ, suc, ◌+◌}
use mathlib.Core.Path.{◌≡◌, ap, sym, subst, ◌∙◌}
use mathlib.Core.Logic.{◌⊎◌, inl, inr}
use mathlib.Core.Bool.{Bool, true, false}
use mathlib.Core.List.{List, [], ◌∷◌, ◌++◌}
use native.Mathlib.Omega.{arith}
use argo_workflows_exporter.Base.Tests.{Bool-cases, if◌then◌else◌}

module _ {ℓ} {A : Type ℓ} where
  abbrev pub length : List A → ℕ
  length [] = 0
  length (x ∷ xs) = suc (length xs)

  -- `[x for x in xs if p(x)]`
  abbrev pub keep : (A → Bool) → List A → List A
  keep p [] = []
  keep p (x ∷ xs) = let rest = keep p xs in if p x then x ∷ rest else rest

  abbrev pub any : (A → Bool) → List A → Bool
  any p [] = false
  any p (x ∷ xs) = if p x then true else any p xs

  pub length-append : (xs ys : List A) → length (xs ++ ys) ≡ length xs + length ys
  length-append [] ys = omega arith
  length-append (x ∷ xs) ys = omega (arith, length-append xs ys)

module _ {ℓ κ} {A : Type ℓ} (P : A → Type κ) where
  abbrev pub All : List A → Type κ
  All [] = Unit
  All (x ∷ xs) = P x × All xs

-- every two items, the earlier one first
abbrev pub IsPairwise {ℓ κ} : {A : Type ℓ} → (A → A → Type κ) → List A → Type κ
IsPairwise R [] = Unit
IsPairwise R (x ∷ xs) = All (R x) xs × IsPairwise R xs

module _ {ℓ κ} {A : Type ℓ} (p : A → Bool) where
  pub keep-All : (P : A → Type κ) (xs : List A) → All P xs → All P (keep p xs)
  keep-All P [] h = tt
  keep-All P (x ∷ xs) h = elim (Bool-cases (p x)) [
    | inl e ↦ rw e (h.0, keep-All P xs h.1)
    | inr e ↦ rw e (keep-All P xs h.1)
  ]

  pub keep-IsPairwise :
      (R : A → A → Type κ) (xs : List A) → IsPairwise R xs → IsPairwise R (keep p xs)
  keep-IsPairwise R [] h = tt
  keep-IsPairwise R (x ∷ xs) h = elim (Bool-cases (p x)) [
    | inl e ↦ rw e (keep-All (R x) xs h.0, keep-IsPairwise R xs h.1)
    | inr e ↦ rw e (keep-IsPairwise R xs h.1)
  ]

module _ {ℓ κ} {A : Type ℓ} where
  All-weaken : (P Q : A → Type κ) → ((x : A) → P x → Q x) → (xs : List A) → All P xs → All Q xs
  All-weaken P Q f [] h = tt
  All-weaken P Q f (x ∷ xs) h = (f x h.0, All-weaken P Q f xs h.1)

  pub weaken-IsPairwise :
      (R S : A → A → Type κ)
      → ((x y : A) → R x y → S x y)
      → (xs : List A) → IsPairwise R xs
      → IsPairwise S xs
  weaken-IsPairwise R S f [] h = tt
  weaken-IsPairwise R S f (x ∷ xs) h =
      (All-weaken (R x) (S x) (f x) xs h.0, weaken-IsPairwise R S f xs h.1)

-- membership, with its witness
abbrev pub In : {A : Type 0} → A → List A → Type 0
In a [] = ⊥
In a (x ∷ xs) = (a ≡ x) ⊎ In a xs

module _ {A : Type 0} where
  pub In-keep : (p : A → Bool) (xs : List A) (a : A) → In a (keep p xs) → In a xs × (p a ≡ true)
  In-keep p [] a h = absurd h
  In-keep p (x ∷ xs) a h = elim (Bool-cases (p x)) [
    | inl e ↦ elim (let h' : In a (x ∷ keep p xs) = rw e at h in h') [
      | inl q ↦ (inl q, rw q e)
      | inr r ↦ let (i, t) = In-keep p xs a r in (inr i, t)
    ]
    | inr e ↦ let (i, t) = In-keep p xs a (rw e at h) in (inr i, t)
  ]

  pub All-In {ℓ} : (P : A → Type ℓ) (xs : List A) (a : A) → All P xs → In a xs → P a
  All-In P [] a h i = absurd i
  All-In P (x ∷ xs) a h (inl e) = subst P (sym e) h.0
  All-In P (x ∷ xs) a h (inr i) = All-In P xs a h.1 i

  pub keep-In : (p : A → Bool) (xs : List A) (a : A) → In a xs → p a ≡ true → In a (keep p xs)
  keep-In p [] a h t = absurd h
  keep-In p (x ∷ xs) a (inl q) t = rw (ap p (sym q) ∙ t) (inl q)
  keep-In p (x ∷ xs) a (inr r) t = elim (Bool-cases (p x)) [
    | inl e ↦ rw e (inr (keep-In p xs a r t))
    | inr e ↦ rw e (keep-In p xs a r t)
  ]
