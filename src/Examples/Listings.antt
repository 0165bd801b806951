-- ===== src/Examples/Listings.antt =====
-- The theorems on the listing, on a server with two pages, and on one that fails after the first.
use argo_workflows_exporter.Base.{
  ℕ, zero, suc, sym, ap, ◌∙◌, inl, ◌≤◌, String, ◌≡◌, ◌↔◌, Bool, true, false, Option, none, some,
  refl, List, [], ◌∷◌,
}
use argo_workflows_exporter.Base.Lists.{length}
use argo_workflows_exporter.Base.Results.{Result, ok, err, value_error, ◌>>=◌, ok_injective}
use argo_workflows_exporter.Base.Text.{is_empty, is_blank}
use argo_workflows_exporter.Workflows.Collect.{fetch_workflows}
use argo_workflows_exporter.Workflows.Collect.Accounts.{Collected}
use argo_workflows_exporter.Workflows.Collect.Bounded.{fetch_workflows-returns}
use argo_workflows_exporter.Examples.Data.{new_time}
use argo_workflows_exporter.Examples.Rows.{tools, east, west}
use argo_workflows_exporter.Json.{
  get, contains, items, entries, Value, obj, arr, text, field, end, of_items,
}
use argo_workflows_exporter.Kubernetes.{
  HttpOutcome, response, fetch_json, read_page, turn, turn_of_page, turn_on, list_pages, list_items,
}
use argo_workflows_exporter.Kubernetes.Bounded.{IssuesOnly, list_items-returns}
use argo_workflows_exporter.Kubernetes.Incomplete.{IsBroken, list_items-incomplete}
use argo_workflows_exporter.Kubernetes.Turns.{Pages, items_of, IsFetched}
use argo_workflows_exporter.Kubernetes.Listing.{IsChain, list_items-IsChain}

abbrev page : String → Value → Value
page name metadata =
    obj (field "items" (arr (of_items (text name ∷ []))) (field "metadata" metadata end))

abbrev server : ℕ → Option String → HttpOutcome
server zero token = response 200 (some (page "first" (obj (field "continue" (text "t1") end))))
server (suc i) token = response 200 (some (page "second" (obj end)))

list_items-IsChain_example :
    (list_items server 5 ≡ some (ok ((text "first" ∷ text "second" ∷ []), true))) ↔ (
      (ps : Pages) × IsChain server 0 none [] ps
      × (length ps ≤ 5)
      × ((text "first" ∷ text "second" ∷ []) ≡ items_of ps))
list_items-IsChain_example = list_items-IsChain server 5 (text "first" ∷ text "second" ∷ [])

abbrev fails_later : ℕ → Option String → HttpOutcome
fails_later zero token = response 200 (some (page "first" (obj (field "continue" (text "t1") end))))
fails_later (suc i) token = response 503 none

gives_up : list_items fails_later 5 ≡ some (ok ([], false))
unfolding list_items list_pages turn turn_of_page turn_on read_page fetch_json
gives_up = refl

list_items-incomplete_example :
    (ps : Pages) × IsBroken fails_later 0 none [] ps × (◌≡◌ {A = List Value} [] [])
list_items-incomplete_example = list_items-incomplete fails_later 5 [] gives_up

-- the page that was fetched, read
abbrev read_all : Option Value → Result (List Value × String)
read_all none = err value_error
read_all (some page) = read_page page

first_token :
    (token : Option String)
    → (fetch_json (server zero token) >>= read_all) ≡ ok ((text "first" ∷ []), "t1")
unfolding fetch_json read_page get contains items of_items entries is_blank
first_token token = refl

no_token :
    (i : ℕ) (token : Option String)
    → (fetch_json (server (suc i) token) >>= read_all) ≡ ok ((text "second" ∷ []), "")
unfolding fetch_json read_page get contains items of_items entries
no_token i token = refl

same_read :
    (r : Result (Option Value)) (xs ys : List Value) (t u : String)
    → (r >>= read_all) ≡ ok (xs, t)
    → IsFetched r ys u
    → t ≡ u
same_read r xs ys t u h (page, e, f) =
    ap (λ x. x.1) (ok_injective (sym h ∙ ap (λ x. x >>= read_all) e ∙ f))

server-IssuesOnly : IssuesOnly server ("t1" ∷ [])
server-IssuesOnly zero token xs t fetched more =
    inl (sym (same_read _ _ xs "t1" t (first_token token) fetched))
server-IssuesOnly (suc i) token xs t fetched more =
    absurd (cc (more, ap is_empty (same_read _ _ xs "" t (no_token i token) fetched)))

list_items-returns_example : (r : Result (List Value × Bool)) × (list_items server 2 ≡ some r)
list_items-returns_example = list_items-returns server ("t1" ∷ []) server-IssuesOnly

fetch_workflows-returns_example :
    (c : Result Collected) × (fetch_workflows tools
        (λ cluster path. server)
        2
        ""
        new_time
        (east ∷ west ∷ [])
      ≡ some c)
fetch_workflows-returns_example =
    fetch_workflows-returns tools (λ cluster path. server) ("t1" ∷ []) "" new_time
      (λ cluster path. server-IssuesOnly) (east ∷ west ∷ [])
