-- ===== src/Kubernetes/Turns.antt =====
-- One turn of the loop of list_items in src/k8s_api.py: what has been read when it ends.
use argo_workflows_exporter.Base.{
  String, ◌≡◌, ◌≢◌, refl, sym, ap, ◌∙◌, true, false, Bool-cases, Option, none, some, List, [], ◌∷◌,
  ◌++◌, inl, inr,
}
use argo_workflows_exporter.Base.Text.{text_eq, is_empty}
use argo_workflows_exporter.Base.Lists.{any}
use argo_workflows_exporter.Base.Results.{Result, ok, err}
use argo_workflows_exporter.Json.{Value}
use argo_workflows_exporter.Kubernetes.{read_page, stop, next, turn, turn_of_page, turn_on}

-- the items and the continuation token of each page
abbrev pub Pages : Type 0
Pages = List (List Value × String)

abbrev pub items_of : Pages → List Value
items_of [] = []
items_of ((xs, t) ∷ ps) = xs ++ items_of ps

-- a page of these items and this token was fetched
abbrev pub IsFetched : Result (Option Value) → List Value → String → Type 0
IsFetched r xs t = (page : Value) × (r ≡ ok (some page)) × (read_page page ≡ ok (xs, t))

turn_on-next :
    (seen : List String) (all : List Value) (t u : String) (xs : List Value)
    → turn_on seen all t ≡ next u xs
    → (t ≡ u) × (all ≡ xs) × (is_empty t ≡ false) × (any (text_eq t) seen ≡ false)
unfolding turn_on
turn_on-next seen all t u xs h = elim (Bool-cases (is_empty t)) [
  | inl e ↦ absurd (cc (rw e at h))
  | inr e ↦ elim (Bool-cases (any (text_eq t) seen)) [
    | inl f ↦ absurd (cc (rw (e, f) at h))
    | inr f ↦ (cc (rw (e, f) at h), cc (rw (e, f) at h), e, f)
  ]
]

turn_on-stop :
    (seen : List String) (all : List Value) (t : String) (xs : List Value)
    → turn_on seen all t ≡ stop (ok (xs, true))
    → (all ≡ xs) × (is_empty t ≡ true)
unfolding turn_on
turn_on-stop seen all t xs h = elim (Bool-cases (is_empty t)) [
  | inl e ↦ (cc (rw e at h), e)
  | inr e ↦ elim (Bool-cases (any (text_eq t) seen)) [
    | inl f ↦ absurd (cc (rw (e, f) at h))
    | inr f ↦ absurd (cc (rw (e, f) at h))
  ]
]

turn_of_page-next :
    (seen : List String) (items all : List Value) (t : String) (page : Value)
    (o : Result (List Value × String))
    → read_page page ≡ o
    → turn_of_page seen items o ≡ next t all
    → (xs : List Value) × IsFetched (ok (some page)) xs t
      × (all ≡ items ++ xs)
      × (is_empty t ≡ false)
      × (any (text_eq t) seen ≡ false)
unfolding turn_of_page
turn_of_page-next seen items all t page (err e) p k = absurd (cc k)
turn_of_page-next seen items all t page (ok (xs, u)) p k =
    let (same, joined, more, unseen) = turn_on-next seen (items ++ xs) u t all k in
    (
      xs,
      (page, refl, p ∙ ap (λ x. ok (xs, x)) same),
      sym joined,
      ap is_empty (sym same) ∙ more,
      ap (λ x. any (text_eq x) seen) (sym same) ∙ unseen,
    )

-- what a turn that asks for the next page has read
pub turn-next :
    (seen : List String) (items all : List Value) (t : String) (r : Result (Option Value))
    → turn seen items r ≡ next t all
    → (xs : List Value) × IsFetched r xs t
      × (all ≡ items ++ xs)
      × (is_empty t ≡ false)
      × (any (text_eq t) seen ≡ false)
unfolding turn
turn-next seen items all t (err e) h = absurd (cc h)
turn-next seen items all t (ok none) h = absurd (cc h)
turn-next seen items all t (ok (some page)) h =
    turn_of_page-next seen items all t page (read_page page) refl h

turn_of_page-stop :
    (seen : List String) (items all : List Value) (page : Value) (o : Result (List Value × String))
    → read_page page ≡ o
    → turn_of_page seen items o ≡ stop (ok (all, true))
    → (xs : List Value) × (t : String) × IsFetched (ok (some page)) xs t
      × (all ≡ items ++ xs)
      × (is_empty t ≡ true)
unfolding turn_of_page
turn_of_page-stop seen items all page (err e) p k = absurd (cc k)
turn_of_page-stop seen items all page (ok (xs, u)) p k =
    let (joined, closed) = turn_on-stop seen (items ++ xs) u all k in
    (xs, u, (page, refl, p), sym joined, closed)

pub turn-stop :
    (seen : List String) (items all : List Value) (r : Result (Option Value))
    → turn seen items r ≡ stop (ok (all, true))
    → (xs : List Value) × (t : String) × IsFetched r xs t
      × (all ≡ items ++ xs)
      × (is_empty t ≡ true)
unfolding turn
turn-stop seen items all (err e) h = absurd (cc h)
turn-stop seen items all (ok none) h = absurd (cc h)
turn-stop seen items all (ok (some page)) h =
    turn_of_page-stop seen items all page (read_page page) refl h

pub turn-last :
    (seen : List String) (items xs : List Value) (t : String) (r : Result (Option Value))
    → IsFetched r xs t
    → is_empty t ≡ true
    → turn seen items r ≡ stop (ok ((items ++ xs), true))
unfolding turn turn_of_page turn_on
turn-last seen items xs t r (page, f, p) closed = rw (f, p, closed) refl

pub turn-more :
    (seen : List String) (items xs : List Value) (t : String) (r : Result (Option Value))
    → IsFetched r xs t
    → is_empty t ≡ false
    → any (text_eq t) seen ≡ false
    → turn seen items r ≡ next t (items ++ xs)
unfolding turn turn_of_page turn_on
turn-more seen items xs t r (page, f, p) more unseen = rw (f, p, more, unseen) refl

token_complete :
    (seen : List String) (all xs : List Value) (t : String)
    → turn_on seen all t ≢ stop (ok (xs, false))
unfolding turn_on
token_complete seen all xs t h = elim (Bool-cases (is_empty t)) [
  | inl e ↦ absurd (cc (rw e at h))
  | inr e ↦ elim (Bool-cases (any (text_eq t) seen)) [
    | inl f ↦ absurd (cc (rw (e, f) at h))
    | inr f ↦ absurd (cc (rw (e, f) at h))
  ]
]

page_complete :
    (seen : List String) (items xs : List Value) (o : Result (List Value × String))
    → turn_of_page seen items o ≢ stop (ok (xs, false))
unfolding turn_of_page
page_complete seen items xs (err e) h = absurd (cc h)
page_complete seen items xs (ok (ys, t)) h = token_complete seen (items ++ ys) xs t h

-- what a turn that gives up has fetched
pub turn-incomplete :
    (seen : List String) (items xs : List Value) (r : Result (Option Value))
    → turn seen items r ≡ stop (ok (xs, false))
    → (r ≡ ok none) × (xs ≡ [])
unfolding turn
turn-incomplete seen items xs (err e) h = absurd (cc h)
turn-incomplete seen items xs (ok none) h = (refl, cc h)
turn-incomplete seen items xs (ok (some page)) h =
    absurd (page_complete seen items xs (read_page page) h)
