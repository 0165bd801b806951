-- ===== src/Base/Sort.antt =====
-- Python's `sorted` and `list.sort`: a stable sort by a Boolean order on the items. Insertion from
-- the right puts an item in front of the later ones that are equal to it, as a stable sort does.
use mathlib.Core.Path.{◌≡◌}
use mathlib.Core.Logic.{◌↔◌, inl, inr}
use mathlib.Core.Bool.{Bool, true, false}
use mathlib.Core.List.{List, [], ◌∷◌, Perm}
use mathlib.Core.List.Perm
use argo_workflows_exporter.Base.Tests.{Bool-cases, if◌then◌else◌}
use argo_workflows_exporter.Base.Lists.{All, In, IsPairwise}

module _ {ℓ} {A : Type ℓ} (le : A → A → Bool) where
  unfoldable pub insert : A → List A → List A
  insert a [] = a ∷ []
  insert a (x ∷ xs) = if le a x then a ∷ x ∷ xs else x ∷ insert a xs

  unfoldable pub sort : List A → List A
  unfolding insert
  sort [] = []
  sort (x ∷ xs) = insert x (sort xs)

  abbrev pub IsSorted : List A → Type 0
  IsSorted [] = Unit
  IsSorted (x ∷ xs) = All (λ y. le x y ≡ true) xs × IsSorted xs

  pub insert-perm : (a : A) (xs : List A) → Perm (insert a xs) (a ∷ xs)
  unfolding insert
  insert-perm a [] = Perm.refl (a ∷ [])
  insert-perm a (x ∷ xs) = elim (Bool-cases (le a x)) [
    | inl e ↦ rw e (Perm.refl (a ∷ x ∷ xs))
    | inr e ↦ rw e (Perm.trans (Perm.cons x (insert-perm a xs)) (Perm.swap a x xs))
  ]

  pub sort-perm : (xs : List A) → Perm (sort xs) xs
  unfolding sort
  sort-perm [] = Perm.refl []
  sort-perm (x ∷ xs) = Perm.trans (insert-perm x (sort xs)) (Perm.cons x (sort-perm xs))

module _ {ℓ κ} {A : Type ℓ} (le : A → A → Bool) (P : A → Type κ) where
  pub insert-All : (a : A) (xs : List A) → P a → All P xs → All P (insert le a xs)
  unfolding insert
  insert-All a [] p h = (p, tt)
  insert-All a (x ∷ xs) p h = elim (Bool-cases (le a x)) [
    | inl e ↦ rw e (p, h)
    | inr e ↦ rw e (h.0, insert-All a xs p h.1)
  ]

  pub sort-All : (xs : List A) → All P xs → All P (sort le xs)
  unfolding sort
  sort-All [] h = tt
  sort-All (x ∷ xs) h = insert-All x (sort le xs) h.0 (sort-All xs h.1)

module _ {ℓ} {A : Type ℓ} (le : A → A → Bool)
    (le_trans : (a b c : A) → le a b ≡ true → le b c ≡ true → le a c ≡ true)
    (le_total : (a b : A) → le a b ≡ false → le b a ≡ true) where
  below-All :
      (a x : A) (xs : List A)
      → le a x ≡ true
      → All (λ y. le x y ≡ true) xs
      → All (λ y. le a y ≡ true) xs
  below-All a x [] p h = tt
  below-All a x (y ∷ ys) p h = (le_trans a x y p h.0, below-All a x ys p h.1)

  pub insert-IsSorted : (a : A) (xs : List A) → IsSorted le xs → IsSorted le (insert le a xs)
  unfolding insert
  insert-IsSorted a [] h = (tt, tt)
  insert-IsSorted a (x ∷ xs) h = elim (Bool-cases (le a x)) [
    | inl e ↦ rw e ((e, below-All a x xs e h.0), h)
    | inr e ↦
        rw e
          (insert-All le (λ y. le x y ≡ true) a xs (le_total a x e) h.0, insert-IsSorted a xs h.1)
  ]

  pub sort-IsSorted : (xs : List A) → IsSorted le (sort le xs)
  unfolding sort
  sort-IsSorted [] = tt
  sort-IsSorted (x ∷ xs) = insert-IsSorted x (sort le xs) (sort-IsSorted xs)

module _ {A : Type 0} (le : A → A → Bool) where
  insert-In : (a : A) (xs : List A) (b : A) → In b (insert le a xs) ↔ In b (a ∷ xs)
  unfolding insert
  insert-In a [] b = (λ h. h, λ h. h)
  insert-In a (x ∷ xs) b = elim (Bool-cases (le a x)) [
    | inl e ↦ rw e (λ h. h, λ h. h)
    | inr e ↦ rw e (rotate (insert-In a xs b).0, unrotate (insert-In a xs b).1)
  ]
    where
      rotate :
          (In b (insert le a xs) → In b (a ∷ xs)) → In b (x ∷ insert le a xs) → In b (a ∷ x ∷ xs)
      rotate f (inl p) = inr (inl p)
      rotate f (inr h) = elim (f h) [ inl q ↦ inl q | inr r ↦ inr (inr r) ]

      unrotate :
          (In b (a ∷ xs) → In b (insert le a xs)) → In b (a ∷ x ∷ xs) → In b (x ∷ insert le a xs)
      unrotate f (inl p) = inr (f (inl p))
      unrotate f (inr (inl p)) = inl p
      unrotate f (inr (inr h)) = inr (f (inr h))

  pub sort-In : (xs : List A) (b : A) → In b (sort le xs) ↔ In b xs
  unfolding sort
  sort-In [] b = (λ h. h, λ h. h)
  sort-In (x ∷ xs) b = (
    λ h. later _ _ (sort-In xs b).0 ((insert-In x (sort le xs) b).0 h),
    λ h. (insert-In x (sort le xs) b).1 (later _ _ (sort-In xs b).1 h),
  )
    where
      later : (ys zs : List A) → (In b ys → In b zs) → In b (x ∷ ys) → In b (x ∷ zs)
      later ys zs f (inl p) = inl p
      later ys zs f (inr h) = inr (f h)

module _ {ℓ κ} {A : Type ℓ} (le : A → A → Bool) (R : A → A → Type κ)
    (R_symm : (a b : A) → R a b → R b a) where
  insert-IsPairwise :
      (a : A) (xs : List A) → All (R a) xs → IsPairwise R xs → IsPairwise R (insert le a xs)
  unfolding insert
  insert-IsPairwise a [] h p = (tt, tt)
  insert-IsPairwise a (x ∷ xs) h p = elim (Bool-cases (le a x)) [
    | inl e ↦ rw e (h, p)
    | inr e ↦ rw e (insert-All le (R x) a xs (R_symm a x h.0) p.0, insert-IsPairwise a xs h.1 p.1)
  ]

  pub sort-IsPairwise : (xs : List A) → IsPairwise R xs → IsPairwise R (sort le xs)
  unfolding sort
  sort-IsPairwise [] p = tt
  sort-IsPairwise (x ∷ xs) p =
      insert-IsPairwise x (sort le xs) (sort-All le (R x) xs p.0) (sort-IsPairwise xs p.1)
