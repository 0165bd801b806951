-- ===== src/Workflows/Collect/Aborted.antt =====
-- A token that cannot be decoded: `_local_request` of src/k8s_api.py raises what `fetch_json` does
-- not catch, and neither does `fetch_workflows`.
use argo_workflows_exporter.Base.{
  ℕ, zero, suc, String, ◌≡◌, ◌≢◌, refl, sym, ap, subst, ◌∙◌, inl, inr, Bool, Option, none, some,
  some_injective, List, [], ◌∷◌,
}
use argo_workflows_exporter.Base.Lists.{In}
use argo_workflows_exporter.Base.Results.{Result, ok, err, decode_error}
use argo_workflows_exporter.Json.{Value}
use argo_workflows_exporter.Kubernetes.{
  HttpOutcome, raises, fetch_json, stop, next, turn, list_pages, list_items, list_path,
}
use argo_workflows_exporter.Kubernetes.Request.{
  Files, Request, request_to, request_for, local_request,
}
use argo_workflows_exporter.Workflows.Row.{RowTools}
use argo_workflows_exporter.Workflows.Collect.{
  Cluster, Part, namespace_or, list_cluster, fetch_workflows,
}
use argo_workflows_exporter.Workflows.Collect.Accounts.{
  Collected, IsPart, IsCollected, fetch_workflows-IsCollected,
}

undecodable :
    (files : ℕ → Files) (send : ℕ → Request → HttpOutcome) (path : String) (limit timeout : ℕ)
    → (files 0).token ≡ err decode_error
    → request_to none files send path limit timeout 0 none ≡ raises decode_error
unfolding request_for local_request
undecodable files send path limit timeout h = rw h refl

module _ (request : ℕ → Option String → HttpOutcome) (fuel : ℕ) where
  -- the loop, from the outcome of its first request
  abbrev from_first : HttpOutcome → Option (Result (List Value × Bool))
  from_first o = elim (turn [] [] (fetch_json o)) [
    | stop r ↦ some r
    | next t all ↦ list_pages request fuel 1 (some t) (t ∷ []) all
  ]

  list_first : list_items request (suc fuel) ≡ from_first (request 0 none)
  unfolding list_items list_pages
  list_first = refl

  raises_first :
      request 0 none ≡ raises decode_error → list_items request (suc fuel) ≡ some (err decode_error)
  unfolding turn fetch_json
  raises_first h = list_first ∙ ap from_first h

first_raises :
    (request : ℕ → Option String → HttpOutcome) (fuel : ℕ) (listing : Result (List Value × Bool))
    → request 0 none ≡ raises decode_error
    → list_items request fuel ≡ some listing
    → listing ≡ err decode_error
unfolding list_items list_pages
first_raises request zero listing h l = absurd (cc l)
first_raises request (suc fuel) listing h l = some_injective (sym l ∙ raises_first request fuel h)

not_part :
    (R : RowTools) (observed_at name : String) (listing : Result (List Value × Bool)) (p : Part)
    → listing ≡ err decode_error
    → IsPart R observed_at name listing p
    → ⊥
not_part R observed_at name listing (rows, stat) h (inl (items, e, f, g)) = absurd (cc (h, e))
not_part R observed_at name listing (rows, stat) h (inr (inl (items, e), f, g)) = absurd (cc (h, e))
not_part R observed_at name listing (rows, stat) h (inr (inr (inl e), f, g)) = absurd (cc (h, e))
not_part R observed_at name listing (rows, stat) h (inr (inr (inr (items, x, e, i, k)), f, g)) =
    absurd (cc (h, e))

module _ (R : RowTools) (files : Cluster → ℕ → Files) (send : Cluster → ℕ → Request → HttpOutcome)
    (limit timeout fuel : ℕ) (default_namespace observed_at : String) where
  abbrev request : Cluster → String → ℕ → Option String → HttpOutcome
  request cluster path =
      request_to cluster.base_url (files cluster) (send cluster) path limit timeout

  not_collected :
      (cluster : Cluster) (clusters : List Cluster) (c : Collected)
      → cluster.base_url ≡ none
      → (files cluster 0).token ≡ err decode_error
      → In cluster clusters
      → IsCollected R request fuel default_namespace observed_at clusters c
      → ⊥
  unfolding list_cluster
  not_collected cluster [] c local h i r = i
  not_collected cluster (k ∷ ks) (rows, stats) local h (inl e)
        (listing, p, others, l, part, rest, j) =
      let path = list_path (namespace_or k.namespace default_namespace) "workflows" in
      not_part R observed_at k.name listing p
        (first_raises (request k path) fuel listing
          (subst (λ x. request x path 0 none ≡ raises decode_error) e
            (subst
              (λ u.
                request_to u (files cluster) (send cluster) path limit timeout 0 none
                ≡ raises decode_error)
              (sym local) (undecodable (files cluster) (send cluster) path limit timeout h)))
          l)
        part
  not_collected cluster (k ∷ ks) (rows, stats) local h (inr i)
        (listing, p, others, l, part, rest, j) =
      not_collected cluster ks others local h i rest

  -- While the token of the local cluster cannot be decoded as UTF-8, a collection with that cluster
  -- returns nothing at all, whatever the other clusters answer.
  pub fetch_workflows-aborts :
      (cluster : Cluster) (clusters : List Cluster) (c : Collected)
      → cluster.base_url ≡ none
      → (files cluster 0).token ≡ err decode_error
      → In cluster clusters
      → fetch_workflows R
          (λ k path. request_to k.base_url (files k) (send k) path limit timeout)
          fuel
          default_namespace
          observed_at
          clusters
        ≢ some (ok c)
  fetch_workflows-aborts cluster clusters c local h i e =
      not_collected cluster clusters c local h i
        (fetch_workflows-IsCollected R request fuel default_namespace observed_at clusters c e)
