-- ===== src/Kubernetes/Incomplete.antt =====
-- An incomplete listing carries none of the items that were read before the failed request.
use argo_workflows_exporter.Base.{
  ℕ, zero, suc, String, ◌≡◌, ◌≢◌, refl, ap, ◌∙◌, ◌⊎◌, inl, inr, false, Bool-cases, Option, none,
  some, List, [], ◌∷◌, arith, ◌==◌,
}
use argo_workflows_exporter.Base.Text.{text_eq, is_empty}
use argo_workflows_exporter.Base.Lists.{any}
use argo_workflows_exporter.Base.Results.{ok}
use argo_workflows_exporter.Json.{Value, is_null}
use argo_workflows_exporter.Kubernetes.{
  HttpOutcome, unreachable, raises, response, fetch_json, body_of, Turn, stop, next, turn,
  list_pages, list_items,
}
use argo_workflows_exporter.Kubernetes.Turns.{Pages, IsFetched, turn-incomplete, turn-next}

-- the request raised `RequestException` or `OSError`, or was answered with another status than 200
abbrev pub IsLost : HttpOutcome → Type 0
IsLost o =
    (o ≡ unreachable)
    ⊎ ((status : ℕ) × (body : Option Value) × (o ≡ response status body) × (status ≢ 200))

body_of-some : (body : Option Value) → body_of body ≢ ok none
unfolding body_of
body_of-some none h = cc h
body_of-some (some v) h = elim (Bool-cases (is_null v)) [
  | inl e ↦ cc (rw e at h)
  | inr e ↦ cc (rw e at h)
]

fetch_json-IsLost : (o : HttpOutcome) → fetch_json o ≡ ok none → IsLost o
unfolding fetch_json
fetch_json-IsLost unreachable h = inl refl
fetch_json-IsLost (raises e) h = absurd (cc h)
fetch_json-IsLost (response status body) h = elim (Bool-cases (status == 200)) [
  | inl e ↦ absurd (body_of-some body (rw e at h))
  | inr e ↦ inr (status, body, refl, λ k. ground (arith, e, k))
]

module _ (request : ℕ → Option String → HttpOutcome) where
  -- From request `i` on the server hands out these pages, each with a token that is not empty and
  -- new, and the request after the last of them is lost.
  abbrev pub IsBroken : ℕ → Option String → List String → Pages → Type 0
  IsBroken i token seen [] = IsLost (request i token)
  IsBroken i token seen ((xs, t) ∷ ps) =
      IsFetched (fetch_json (request i token)) xs t
      × (is_empty t ≡ false)
      × (any (text_eq t) seen ≡ false)
      × IsBroken (suc i) (some t) (t ∷ seen) ps

  abbrev GivesUp : ℕ → Option String → List String → List Value → Type 0
  GivesUp i token seen xs = (ps : Pages) × IsBroken i token seen ps × (xs ≡ [])

  list_pages-GivesUp :
      (fuel i : ℕ) (token : Option String) (seen : List String) (items xs : List Value)
      → list_pages request fuel i token seen items ≡ some (ok (xs, false))
      → GivesUp i token seen xs
  unfolding list_pages
  list_pages-GivesUp zero i token seen items xs h = absurd (cc h)
  list_pages-GivesUp (suc fuel) i token seen items xs h =
      by_turn (turn seen items (fetch_json (request i token)))
        (λ j u s ys k. list_pages-GivesUp fuel j u s ys xs k) refl h
    where
      by_turn :
          (o : Turn)
          → ((j : ℕ) (u : Option String) (s : List String) (ys : List Value)
              → list_pages request fuel j u s ys ≡ some (ok (xs, false))
              → GivesUp j u s xs)
          → turn seen items (fetch_json (request i token)) ≡ o
          → elim o [
            | stop r ↦ some r
            | next t ys ↦ list_pages request fuel (suc i) (some t) (t ∷ seen) ys
          ]
            ≡ some (ok (xs, false))
          → GivesUp i token seen xs
      by_turn (stop r) rest e k =
          let (failed, empty) =
            turn-incomplete seen items xs (fetch_json (request i token)) (e ∙ ap stop (cc k)) in
          ([], fetch_json-IsLost (request i token) failed, empty)
      by_turn (next t ys) rest e k =
          let (read, f, joined, more, unseen) =
            turn-next seen items ys t (fetch_json (request i token)) e in
          let (ps, broken, empty) = rest (suc i) (some t) (t ∷ seen) ys k in
          ((read, t) ∷ ps, (f, more, unseen, broken), empty)

  -- A listing that is returned as incomplete has no items, however many pages were read: the server
  -- handed out some pages in a row, each with a new token, and the request that followed them
  -- raised `RequestException` or `OSError`, or was answered with a status other than 200.
  pub list_items-incomplete :
      (fuel : ℕ) (xs : List Value)
      → list_items request fuel ≡ some (ok (xs, false))
      → (ps : Pages) × IsBroken 0 none [] ps × (xs ≡ [])
  unfolding list_items
  list_items-incomplete fuel xs h = list_pages-GivesUp fuel 0 none [] [] xs h
