-- ===== src/Kubernetes/Listing.antt =====
-- A listing is complete exactly if the server hands out a chain of pages to its end.
use argo_workflows_exporter.Base.{
  ℕ, zero, suc, ◌≤◌, String, ◌≡◌, refl, sym, ap, ◌∙◌, ◌↔◌, Bool, true, false, Option, none, some,
  List, [], ◌∷◌, ◌++◌, arith,
}
use mathlib.Core.List.{append_assoc, append-nil}
use argo_workflows_exporter.Base.Text.{text_eq, is_empty}
use argo_workflows_exporter.Base.Lists.{any, length}
use argo_workflows_exporter.Base.Results.{Result, ok}
use argo_workflows_exporter.Json.{Value}
use argo_workflows_exporter.Kubernetes.{
  HttpOutcome, fetch_json, Turn, stop, next, turn, list_pages, list_items,
}
use argo_workflows_exporter.Kubernetes.Turns.{
  Pages, items_of, IsFetched, turn-next, turn-stop, turn-last, turn-more,
}

module _ (request : ℕ → Option String → HttpOutcome) where
  -- From request `i` on the server hands out these pages: each token but the last is not empty and
  -- new, and the last one is empty.
  abbrev pub IsChain : ℕ → Option String → List String → Pages → Type 0
  IsChain i token seen [] = ⊥
  IsChain i token seen ((xs, t) ∷ []) =
      IsFetched (fetch_json (request i token)) xs t × (is_empty t ≡ true)
  IsChain i token seen ((xs, t) ∷ (p ∷ ps)) =
      IsFetched (fetch_json (request i token)) xs t
      × (is_empty t ≡ false)
      × (any (text_eq t) seen ≡ false)
      × IsChain (suc i) (some t) (t ∷ seen) (p ∷ ps)

  -- the pages that a run reads, and the items that it returns
  abbrev IsListed : ℕ → ℕ → Option String → List String → List Value → List Value → Type 0
  IsListed fuel i token seen items all =
      (ps : Pages) × IsChain i token seen ps × (length ps ≤ fuel) × (all ≡ items ++ items_of ps)

  one_more :
      (fuel i : ℕ) (token : Option String) (seen : List String) (items all ys xs : List Value)
      (t : String)
      → IsFetched (fetch_json (request i token)) xs t
      → ys ≡ items ++ xs
      → is_empty t ≡ false
      → any (text_eq t) seen ≡ false
      → IsListed fuel (suc i) (some t) (t ∷ seen) ys all
      → IsListed (suc fuel) i token seen items all
  one_more fuel i token seen items all ys xs t f joined more unseen ([], c, l, e) = absurd c
  one_more fuel i token seen items all ys xs t f joined more unseen (p ∷ ps, c, l, e) = (
    (xs, t) ∷ (p ∷ ps),
    (f, more, unseen, c),
    omega (arith, l),
    e ∙ ap (λ x. x ++ items_of (p ∷ ps)) joined ∙ append_assoc items xs (items_of (p ∷ ps)),
  )

  list_pages-IsListed :
      (fuel i : ℕ) (token : Option String) (seen : List String) (items all : List Value)
      → list_pages request fuel i token seen items ≡ some (ok (all, true))
      → IsListed fuel i token seen items all
  unfolding list_pages
  list_pages-IsListed zero i token seen items all h = absurd (cc h)
  list_pages-IsListed (suc fuel) i token seen items all h =
      by_turn (turn seen items (fetch_json (request i token)))
        (λ j u s ys k. list_pages-IsListed fuel j u s ys all k) refl h
    where
      by_turn :
          (o : Turn)
          → ((j : ℕ) (u : Option String) (s : List String) (ys : List Value)
              → list_pages request fuel j u s ys ≡ some (ok (all, true))
              → IsListed fuel j u s ys all)
          → turn seen items (fetch_json (request i token)) ≡ o
          → elim o [
            | stop r ↦ some r
            | next t ys ↦ list_pages request fuel (suc i) (some t) (t ∷ seen) ys
          ]
            ≡ some (ok (all, true))
          → IsListed (suc fuel) i token seen items all
      by_turn (stop r) rest e k =
          let (xs, t, f, joined, closed) =
            turn-stop seen items all (fetch_json (request i token)) (e ∙ ap stop (cc k)) in
          (
            (xs, t) ∷ [],
            (f, closed),
            omega arith,
            joined ∙ ap (λ x. items ++ x) (sym (append-nil xs)),
          )
      by_turn (next t ys) rest e k =
          let (xs, f, joined, more, unseen) =
            turn-next seen items ys t (fetch_json (request i token)) e in
          one_more fuel i token seen items all ys xs t f joined more unseen
            (rest (suc i) (some t) (t ∷ seen) ys k)

  -- the rest of the loop after a turn
  abbrev after_turn : ℕ → ℕ → List String → Turn → Option (Result (List Value × Bool))
  after_turn fuel i seen (stop r) = some r
  after_turn fuel i seen (next t all) = list_pages request fuel (suc i) (some t) (t ∷ seen) all

  list_pages-turn :
      (fuel i : ℕ) (token : Option String) (seen : List String) (items : List Value) (o : Turn)
      → turn seen items (fetch_json (request i token)) ≡ o
      → list_pages request (suc fuel) i token seen items ≡ after_turn fuel i seen o
  unfolding list_pages
  list_pages-turn fuel i token seen items o e = ap (after_turn fuel i seen) e

  IsChain-list_pages :
      (fuel i : ℕ) (token : Option String) (seen : List String) (items : List Value) (ps : Pages)
      → IsChain i token seen ps
      → length ps ≤ fuel
      → list_pages request fuel i token seen items ≡ some (ok ((items ++ items_of ps), true))
  IsChain-list_pages fuel i token seen items [] c l = absurd c
  IsChain-list_pages zero i token seen items (p ∷ ps) c l = absurd (omega (arith, l))
  IsChain-list_pages (suc fuel) i token seen items ((xs, t) ∷ []) (f, closed) l =
      list_pages-turn fuel i token seen items _
        (turn-last seen items xs t (fetch_json (request i token)) f closed)
      ∙ ap (λ x. some (ok ((items ++ x), true))) (sym (append-nil xs))
  IsChain-list_pages (suc fuel) i token seen items ((xs, t) ∷ (p ∷ ps)) (f, more, unseen, c) l =
      list_pages-turn fuel i token seen items _
        (turn-more seen items xs t (fetch_json (request i token)) f more unseen)
      ∙ IsChain-list_pages fuel (suc i) (some t) (t ∷ seen) (items ++ xs) (p ∷ ps) c
          (omega (arith, l))
      ∙ ap (λ x. some (ok (x, true))) (append_assoc items xs (items_of (p ∷ ps)))

  -- With a bound on the number of requests, the listing is returned as complete exactly if the
  -- server hands out a chain of pages within the bound, each with a new token until one has none,
  -- and then it is all of their items, in order.
  pub list_items-IsChain :
      (fuel : ℕ) (all : List Value)
      → (list_items request fuel ≡ some (ok (all, true)))
        ↔ ((ps : Pages) × IsChain 0 none [] ps × (length ps ≤ fuel) × (all ≡ items_of ps))
  unfolding list_items
  list_items-IsChain fuel all = (
    λ h. list_pages-IsListed fuel 0 none [] [] all h,
    λ (ps, c, l, e).
        IsChain-list_pages fuel 0 none [] [] ps c l ∙ ap (λ x. some (ok (x, true))) (sym e),
  )
