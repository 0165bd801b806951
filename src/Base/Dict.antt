-- ===== src/Base/Dict.antt =====
-- Python's `dict`: association lists in insertion order, over any type of keys with an equality.
use Prim.Native.String.{String}
use mathlib.Core.Path.{◌≡◌, refl, sym, ap, subst}
use mathlib.Core.Logic.{◌≢◌, ◌↔◌, inl, inr}
use mathlib.Core.Bool.{Bool, true, false, ◌&&◌}
use mathlib.Core.Option.{Option, none, some}
use mathlib.Core.List.{List, [], ◌∷◌}
use native.Mathlib.Omega.{arith}
use text.Mathlib.TextEquality.{eq_iff}
use argo_workflows_exporter.Base.Tests.{Bool-cases, if◌then◌else◌}
use argo_workflows_exporter.Base.Text.{text_eq}
use argo_workflows_exporter.Base.Lists.{All, In, any}

pub record Eq {ℓ} (A : Type ℓ) : Type ℓ where
  pub beq : A → A → Bool
  pub beq_iff : (a b : A) → (beq a b ≡ true) ↔ (a ≡ b)

instance abbrev pub string_eq : Eq String
string_eq = record { beq = text_eq; beq_iff = eq_iff }

-- `s not in ns`
pub any-All : (s : String) (ns : List String) → any (text_eq s) ns ≡ false → All (λ n. s ≢ n) ns
any-All s [] h = tt
any-All s (n ∷ ns) h = elim (Bool-cases (text_eq s n)) [
  | inl e ↦ absurd (cc (rw e at h))
  | inr e ↦ (ground (arith, eq_iff s n, e), any-All s ns (rw e at h))
]

module _ {A B : Type 0} (e : Eq A) (f : Eq B) where
  abbrev pub pair_beq : A × B → A × B → Bool
  pair_beq (a, b) (c, d) = e.beq a c && f.beq b d

  pub pair_beq_iff : (x y : A × B) → (pair_beq x y ≡ true) ↔ (x ≡ y)
  pair_beq_iff (a, b) (c, d) = ground (arith, e.beq_iff a c, f.beq_iff b d)

abbrev pub pair_eq : {A B : Type 0} → Eq A → Eq B → Eq (A × B)
pair_eq e f = record { beq = pair_beq e f; beq_iff = pair_beq_iff e f }

abbrev pub Dict {ℓ κ} : Type ℓ → Type κ → Type (ℓ ⊔ κ)
Dict K V = List (K × V)

module _ {K V : Type 0} ⦃e : Eq K⦄ where
  -- `d.get(k)`
  unfoldable pub lookup : K → Dict K V → Option V
  lookup k [] = none
  lookup k ((j, v) ∷ d) = if e.beq j k then some v else lookup k d

  -- `k in d`
  unfoldable pub has : K → Dict K V → Bool
  has k [] = false
  has k ((j, v) ∷ d) = if e.beq j k then true else has k d

  -- `d[k] = v`: a key that is there keeps its place
  unfoldable pub put : K → V → Dict K V → Dict K V
  put k v [] = (k, v) ∷ []
  put k v ((j, w) ∷ d) = if e.beq j k then (j, v) ∷ d else (j, w) ∷ put k v d

  abbrev pub UniqueKeys : Dict K V → Type 0
  UniqueKeys [] = Unit
  UniqueKeys ((k, v) ∷ d) = (lookup k d ≡ none) × UniqueKeys d

  pub lookup-put :
      (k j : K) (v : V) (d : Dict K V)
      → lookup j (put k v d) ≡ (if e.beq k j then some v else lookup j d)
  unfolding lookup put
  lookup-put k j v [] = refl
  lookup-put k j v ((i, w) ∷ d) =
      ground (arith, e.beq_iff k j, e.beq_iff i k, e.beq_iff i j, lookup-put k j v d)

  pub put-UniqueKeys : (k : K) (v : V) (d : Dict K V) → UniqueKeys d → UniqueKeys (put k v d)
  unfolding put lookup
  put-UniqueKeys k v [] h = (refl, tt)
  put-UniqueKeys k v ((i, w) ∷ d) h =
      ground (arith, e.beq_iff i k, e.beq_iff k i, lookup-put k i v d, put-UniqueKeys k v d h.1)

  -- An entry that is found stands in the dictionary.
  pub In-lookup : (k : K) (v : V) (d : Dict K V) → lookup k d ≡ some v → In (k, v) d
  unfolding lookup
  In-lookup k v [] h = absurd (cc h)
  In-lookup k v ((i, w) ∷ d) h = elim (Bool-cases (e.beq i k)) [
    | inl q ↦ inl (cc (rw q at h, (e.beq_iff i k).0 q))
    | inr q ↦ inr (In-lookup k v d (rw q at h))
  ]

  -- A key of an entry is found.
  lookup-In_key : (k : K) (v : V) (d : Dict K V) → In (k, v) d → lookup k d ≢ none
  unfolding lookup
  lookup-In_key k v [] h = absurd h
  lookup-In_key k v ((i, w) ∷ d) (inl p) =
      rw ((e.beq_iff i k).1 (sym (ap (λ (q : K × V). q.0) p))) (λ q. cc q)
  lookup-In_key k v ((i, w) ∷ d) (inr h) = elim (Bool-cases (e.beq i k)) [
    | inl q ↦ rw q (λ t. cc t)
    | inr q ↦ rw q (lookup-In_key k v d h)
  ]

  -- With unique keys an entry is what its key finds.
  pub lookup-In : (k : K) (v : V) (d : Dict K V) → UniqueKeys d → In (k, v) d → lookup k d ≡ some v
  unfolding lookup
  lookup-In k v [] u h = absurd h
  lookup-In k v ((i, w) ∷ d) u (inl p) =
      rw ((e.beq_iff i k).1 (sym (ap (λ (q : K × V). q.0) p)))
        (ap some (sym (ap (λ (q : K × V). q.1) p)))
  lookup-In k v ((i, w) ∷ d) u (inr h) = elim (Bool-cases (e.beq i k)) [
    | inl q ↦
        absurd (lookup-In_key k v d h (subst (λ t. lookup t d ≡ none) ((e.beq_iff i k).0 q) u.0))
    | inr q ↦ rw q (lookup-In k v d u.1 h)
  ]
