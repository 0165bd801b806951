-- ===== src/Kubernetes/Bounded.antt =====
-- The loop of list_items in src/k8s_api.py ends: a token that comes again stops it, so a server that
-- knows finitely many tokens cannot keep it going.
use text.Mathlib.TextEquality.{eq_iff}
use argo_workflows_exporter.Base.{
  ℕ, zero, suc, ◌+◌, ◌≤◌, ◌<◌, String, ◌≡◌, ◌≢◌, refl, sym, inl, inr, Bool, false, not, Option,
  none, some, List, [], ◌∷◌, arith,
}
use argo_workflows_exporter.Base.Text.{text_eq, is_empty}
use argo_workflows_exporter.Base.Lists.{All, In, IsPairwise, keep, length, keep-In}
use argo_workflows_exporter.Base.Dict.{any-All}
use argo_workflows_exporter.Base.Results.{Result}
use argo_workflows_exporter.Json.{Value}
use argo_workflows_exporter.Kubernetes.{
  HttpOutcome, fetch_json, Turn, stop, next, turn, list_pages, list_items,
}
use argo_workflows_exporter.Kubernetes.Turns.{IsFetched, turn-next}

abbrev without : String → List String → List String
without t ts = keep (λ u. not (text_eq u t)) ts

keep-le : (p : String → Bool) (ts : List String) → length (keep p ts) ≤ length ts
keep-le p [] = omega arith
keep-le p (t ∷ ts) = ground (arith, keep-le p ts)

without-length : (t : String) (ts : List String) → In t ts → length (without t ts) < length ts
without-length t [] i = absurd i
without-length t (u ∷ us) (inl e) =
    rw ((eq_iff u t).1 (sym e)) (omega (arith, keep-le (λ u. not (text_eq u t)) us))
without-length t (u ∷ us) (inr i) = ground (arith, without-length t us i)

without-In :
    (t : String) (xs ts : List String)
    → All (λ x. t ≢ x) xs
    → All (λ x. In x ts) xs
    → All (λ x. In x (without t ts)) xs
without-In t [] ts n h = tt
without-In t (x ∷ xs) ts n h = (
  keep-In (λ u. not (text_eq u t)) ts x h.0 (ground (arith, eq_iff x t, n.0)),
  without-In t xs ts n.1 h.1,
)

-- different texts of a list are no more than its items
pigeonhole :
    (xs ts : List String) → IsPairwise ◌≢◌ xs → All (λ x. In x ts) xs → length xs ≤ length ts
pigeonhole [] ts d h = omega arith
pigeonhole (x ∷ xs) ts d h =
    omega (
      arith,
      pigeonhole xs (without x ts) d.1 (without-In x xs ts d.0 h.1),
      without-length x ts h.0,
    )

module _ (request : ℕ → Option String → HttpOutcome) (tokens : List String) where
  -- the tokens of the pages that the server returns, but for the empty one that ends a listing
  abbrev pub IssuesOnly : Type 0
  IssuesOnly =
      (i : ℕ) (token : Option String) (xs : List Value) (t : String)
      → IsFetched (fetch_json (request i token)) xs t
      → is_empty t ≡ false
      → In t tokens

  abbrev Returns : Option (Result (List Value × Bool)) → Type 0
  Returns o = (r : Result (List Value × Bool)) × (o ≡ some r)

  after_turn :
      (o : Turn) (rest : String → List Value → Option (Result (List Value × Bool)))
      → ((t : String) (all : List Value) → o ≡ next t all → Returns (rest t all))
      → Returns (elim o [ stop r ↦ some r | next t all ↦ rest t all ])
  after_turn (stop r) rest h = (r, refl)
  after_turn (next t all) rest h = h t all refl

  list_pages-Returns :
      (fuel i : ℕ) (token : Option String) (seen : List String) (items : List Value)
      → IssuesOnly
      → IsPairwise ◌≢◌ seen
      → All (λ t. In t tokens) seen
      → length tokens < fuel + length seen
      → Returns (list_pages request fuel i token seen items)
  unfolding list_pages
  list_pages-Returns zero i token seen items only d a l =
      absurd (omega (arith, l, pigeonhole seen tokens d a))
  list_pages-Returns (suc fuel) i token seen items only d a l =
      after_turn (turn seen items (fetch_json (request i token)))
        (λ t all. list_pages request fuel (suc i) (some t) (t ∷ seen) all)
        (λ t all e.
          let (xs, f, g, n, u) = turn-next seen items all t (fetch_json (request i token)) e in
          list_pages-Returns fuel (suc i) (some t) (t ∷ seen) all only (any-All t seen u, d)
            (only i token xs t f n, a) (omega (arith, l)))

  -- Let the tokens of the pages that a server returns all stand in one list. Then the loop ends,
  -- whatever the server answers, after one request more than the list has tokens.
  pub list_items-returns :
      IssuesOnly
      → (r : Result (List Value × Bool)) × (list_items request (suc (length tokens)) ≡ some r)
  unfolding list_items
  list_items-returns only =
      list_pages-Returns (suc (length tokens)) 0 none [] [] only tt tt (omega arith)
