-- ===== src/Workflows/Collect/Accounts.antt =====
-- What a collection returns, cluster by cluster, and that its entries account for its rows.
use argo_workflows_exporter.Base.{
  some_injective, ℕ, suc, String, ◌≡◌, refl, sym, ap, subst, ◌∙◌, ◌⊎◌, inl, inr, Bool, true, false,
  Option, none, some, List, [], ◌∷◌, map, arith, if◌then◌else◌,
}
use argo_workflows_exporter.Base.Lists.{length, length-append, All, In}
use argo_workflows_exporter.Base.Results.{
  Result, ok, err, Error, response_error, ◌>>=◌, bind-eq-ok, ok_injective,
}
use argo_workflows_exporter.Json.{Value}
use argo_workflows_exporter.Rows.{WorkflowRow}
use argo_workflows_exporter.Sidecar.{ClusterStat, stat_names, included_rows}
use argo_workflows_exporter.Kubernetes.{HttpOutcome}
use argo_workflows_exporter.Workflows.{validate_workflow}
use argo_workflows_exporter.Workflows.Row.{RowTools, to_row}
use argo_workflows_exporter.Workflows.Collect.{
  Cluster, Part, convert, part_of_rows, is_response_error, part_of_error, part_of_listing,
  with_part, finished, with_rest, list_cluster, fetch_workflows,
}

abbrev pub Collected : Type 0
Collected = List WorkflowRow × List ClusterStat

module _ (R : RowTools) (observed_at : String) where
  -- one row for each item, in order: the item is a valid workflow, and the row is its own
  abbrev pub AreRows : String → List Value → List WorkflowRow → Type 0
  AreRows name [] [] = Unit
  AreRows name [] (row ∷ rows) = ⊥
  AreRows name (item ∷ items) [] = ⊥
  AreRows name (item ∷ items) (row ∷ rows) =
      (validate_workflow item ≡ ok tt)
      × (to_row R item name observed_at ≡ ok row)
      × AreRows name items rows

  -- the item is no workflow, or cannot be made a row
  abbrev pub IsRefused : String → Value → Type 0
  IsRefused name item =
      (e : Error) × ((validate_workflow item ≡ err e) ⊎ (to_row R item name observed_at ≡ err e))

  -- the listing was not complete, was malformed, or has an item that is refused
  abbrev pub IsUnusable : String → Result (List Value × Bool) → Type 0
  IsUnusable name listing =
      ((items : List Value) × (listing ≡ ok (items, false)))
      ⊎ (listing ≡ err response_error)
      ⊎ ((items : List Value) × (item : Value) × (listing ≡ ok (items, true))
          × In item items
          × IsRefused name item)

  -- the rows of all items of a complete listing, or none
  abbrev pub IsPart : String → Result (List Value × Bool) → Part → Type 0
  IsPart name listing (cluster_rows, stat) =
      ((items : List Value) × (listing ≡ ok (items, true))
        × AreRows name items cluster_rows
        × (stat ≡ record { name = name; answered = true; workflows = length items }))
      ⊎ (IsUnusable name listing
          × (cluster_rows ≡ [])
          × (stat ≡ record { name = name; answered = false; workflows = 0 }))

  AreRows-length :
      (name : String) (items : List Value) (rows : List WorkflowRow)
      → AreRows name items rows
      → length items ≡ length rows
  AreRows-length name [] [] h = refl
  AreRows-length name [] (row ∷ rows) h = absurd h
  AreRows-length name (item ∷ items) [] h = absurd h
  AreRows-length name (item ∷ items) (row ∷ rows) h = ap suc (AreRows-length name items rows h.2)

  more-AreRows :
      (name : String) (item : Value) (items : List Value) (row : WorkflowRow)
      (tail rows : List WorkflowRow)
      → validate_workflow item ≡ ok tt
      → to_row R item name observed_at ≡ ok row
      → AreRows name items tail
      → row ∷ tail ≡ rows
      → AreRows name (item ∷ items) rows
  more-AreRows name item items row tail rows v r h e =
      subst (AreRows name (item ∷ items)) e (v, r, h)

  convert-AreRows :
      (name : String) (items : List Value) (rows : List WorkflowRow)
      → convert R name observed_at items ≡ ok rows
      → AreRows name items rows
  unfolding convert
  convert-AreRows name [] rows h = subst (AreRows name []) (ok_injective h) tt
  convert-AreRows name (item ∷ items) rows h =
      let (tt, v, h) = bind-eq-ok (validate_workflow item) _ h in
      let (row, r, h) = bind-eq-ok (to_row R item name observed_at) _ h in
      let (tail, t, h) = bind-eq-ok (convert R name observed_at items) _ h in
      more-AreRows name item items row tail rows v r (convert-AreRows name items tail t)
        (ok_injective h)

  -- a conversion that raises, raises on an item
  abbrev Refuses : String → List Value → Type 0
  Refuses name items = (item : Value) × In item items × IsRefused name item

  convert-Refuses :
      (name : String) (items : List Value) (e : Error)
      → convert R name observed_at items ≡ err e
      → Refuses name items
  unfolding convert
  convert-Refuses name [] e h = absurd (cc h)
  convert-Refuses name (item ∷ items) e h =
      by_item (validate_workflow item) (to_row R item name observed_at)
        (convert R name observed_at items) refl refl (convert-Refuses name items) h
    where
      by_item :
          (v : Result (Unit {0})) (r : Result WorkflowRow) (rest : Result (List WorkflowRow))
          → validate_workflow item ≡ v
          → to_row R item name observed_at ≡ r
          → ((e : Error) → rest ≡ err e → Refuses name items)
          → (do valid ← v; row ← r; rows ← rest; ok (row ∷ rows)) ≡ err e
          → Refuses name (item ∷ items)
      by_item (err e) r rest v_is r_is more k = (item, inl refl, (e, inl v_is))
      by_item (ok u) (err e) rest v_is r_is more k = (item, inl refl, (e, inr r_is))
      by_item (ok u) (ok row) (err e) v_is r_is more k =
          let (other, i, refused) = more e refl in (other, inr i, refused)
      by_item (ok u) (ok row) (ok rows) v_is r_is more k = absurd (cc k)

  part_of_rows-IsPart :
      (name : String) (items : List Value) (o : Result (List WorkflowRow))
      → convert R name observed_at items ≡ o
      → IsPart name (ok (items, true)) (part_of_rows name o)
  unfolding part_of_rows
  part_of_rows-IsPart name items (ok rows) h =
      let all = convert-AreRows name items rows h in
      inl (
        items,
        refl,
        all,
        ap (λ n. record { name = name; answered = true; workflows = n })
            (sym (AreRows-length name items rows all)),
      )
  part_of_rows-IsPart name items (err e) h =
      let (item, i, refused) = convert-Refuses name items e h in
      inr (inr (inr (items, item, refl, i, refused)), refl, refl)

  response_error-eq : (e : Error) → is_response_error e ≡ true → e ≡ response_error
  response_error-eq response_error h = refl
  response_error-eq _ h = absurd (cc h)

  error-IsPart :
      (name : String) (e : Error) (b : Bool) (p : Part)
      → is_response_error e ≡ b
      → part_of_error b name e ≡ ok p
      → IsPart name (err e) p
  error-IsPart name e true p t h =
      let made = ok_injective h in
      inr (
        inr (inl (ap err (response_error-eq e t))),
        ap (λ x. x.0) (sym made),
        ap (λ x. x.1) (sym made),
      )
  error-IsPart name e false p t h = absurd (cc h)

  part_of_listing-IsPart :
      (name : String) (listing : Result (List Value × Bool)) (p : Part)
      → part_of_listing R name observed_at listing ≡ ok p
      → IsPart name listing p
  unfolding part_of_listing
  part_of_listing-IsPart name (err e) p h = error-IsPart name e (is_response_error e) p refl h
  part_of_listing-IsPart name (ok (items, false)) p h =
      let made = ok_injective h in
      inr (inl (items, refl), ap (λ x. x.0) (sym made), ap (λ x. x.1) (sym made))
  part_of_listing-IsPart name (ok (items, true)) p h =
      subst (IsPart name (ok (items, true))) (ok_injective h)
        (part_of_rows-IsPart name items (convert R name observed_at items) refl)

finished-some {ℓ κ} :
    {A : Type ℓ} {B : Type κ} (o : Option A) (f : A → Option B) {b : B}
    → finished o f ≡ some b
    → (a : A) × (o ≡ some a) × (f a ≡ some b)
finished-some none f h = absurd (cc h)
finished-some (some a) f h = (a, refl, h)

with_rest-ok :
    (o : Result Part) (rest : Option (Result Collected)) (c : Collected)
    → with_rest o rest ≡ some (ok c)
    → (part : Part) × (others : Collected) × (o ≡ ok part)
      × (rest ≡ some (ok others))
      × (c ≡ with_part part others)
with_rest-ok (err e) rest c h = absurd (cc h)
with_rest-ok (ok part) rest c h =
    let (r, f, g) = finished-some rest _ h in
    let (others, e, k) = bind-eq-ok r _ (some_injective g) in
    (part, others, refl, f ∙ ap some e, sym (ok_injective k))

module _ (R : RowTools) (request : Cluster → String → ℕ → Option String → HttpOutcome) (fuel : ℕ)
    (default_namespace observed_at : String) where
  -- The rows and the entries are those of the clusters, in order: of each one all the rows of its
  -- complete listing, or none.
  abbrev pub IsCollected : List Cluster → Collected → Type 0
  IsCollected [] (rows, stats) = (rows ≡ []) × (stats ≡ [])
  IsCollected (cluster ∷ clusters) (rows, stats) =
      (listing : Result (List Value × Bool)) × (part : Part) × (others : Collected) × (list_cluster
          request fuel default_namespace cluster
        ≡ some listing)
      × IsPart R observed_at cluster.name listing part
      × IsCollected clusters others
      × ((rows, stats) ≡ with_part part others)

  -- A collection that returns is that of its clusters, in order: of each, one row for each item of a
  -- complete listing, in order, each of a valid workflow, and an entry that counts the items; or no
  -- row and an entry that says so, where the listing was incomplete or malformed or one of its items
  -- is no valid workflow or raises when it is made a row.
  pub fetch_workflows-IsCollected :
      (clusters : List Cluster) (c : Collected)
      → fetch_workflows R request fuel default_namespace observed_at clusters ≡ some (ok c)
      → IsCollected clusters c
  unfolding fetch_workflows
  fetch_workflows-IsCollected [] c h =
      let made = ok_injective (some_injective h) in
      (ap (λ x. x.0) (sym made), ap (λ x. x.1) (sym made))
  fetch_workflows-IsCollected (cluster ∷ clusters) c h =
      let (listing, l, g) =
        finished-some (list_cluster request fuel default_namespace cluster) _ h in
      let (part, others, p, r, e) =
        with_rest-ok (part_of_listing R cluster.name observed_at listing)
          (fetch_workflows R request fuel default_namespace observed_at clusters) c g in
      (
        listing,
        part,
        others,
        l,
        part_of_listing-IsPart R observed_at cluster.name listing part p,
        fetch_workflows-IsCollected clusters others r,
        e,
      )

-- what the sidecar's rules ask of the entries
pub record AddsUp (names : List String) (c : Collected) : Type 0 where
  pub named : stat_names c.1 ≡ names
  pub sums_up : included_rows c.1 ≡ length c.0
  pub empty_if_failed : All (λ s. s.answered ≡ false → s.workflows ≡ 0) c.1

module _ (R : RowTools) (observed_at : String) where
  part-counts :
      (name : String) (listing : Result (List Value × Bool)) (p : Part)
      → IsPart R observed_at name listing p
      → (p.1.name ≡ name)
        × ((if p.1.answered then p.1.workflows else 0) ≡ length p.0)
        × (p.1.answered ≡ false → p.1.workflows ≡ 0)
  part-counts name listing p (inl (items, l, c, e)) = (
    ap (λ x. x.name) e,
    rw e (AreRows-length R observed_at name items p.0 c),
    λ n. absurd (cc (ap (λ x. x.answered) (sym e) ∙ n)),
  )
  part-counts name listing p (inr (u, r, e)) =
      (ap (λ x. x.name) e, rw (e, r) refl, λ n. ap (λ x. x.workflows) e)

with_part-AddsUp :
    (name : String) (names : List String) (p : Part) (others : Collected)
    → (p.1.name ≡ name)
      × ((if p.1.answered then p.1.workflows else 0) ≡ length p.0)
      × (p.1.answered ≡ false → p.1.workflows ≡ 0)
    → AddsUp names others
    → AddsUp (name ∷ names) (with_part p others)
with_part-AddsUp name names p others (n, c, e) h = record {
  named = rw (n, h.named) refl;
  sums_up = omega (arith, c, h.sums_up, length-append p.0 others.0);
  empty_if_failed = (e, h.empty_if_failed);
}

module _ (R : RowTools) (request : Cluster → String → ℕ → Option String → HttpOutcome) (fuel : ℕ)
    (default_namespace observed_at : String) where
  -- The entries of a collection name the clusters in order, their counts add up to the rows, and a
  -- cluster without an answer has none.
  pub IsCollected-AddsUp :
      (clusters : List Cluster) (c : Collected)
      → IsCollected R request fuel default_namespace observed_at clusters c
      → AddsUp (map (λ x. x.name) clusters) c
  IsCollected-AddsUp [] c (r, s) = record {
    named = ap stat_names s;
    sums_up = rw (r, s) refl;
    empty_if_failed = rw s tt;
  }
  IsCollected-AddsUp (cluster ∷ clusters) c (listing, part, others, l, p, rest, e) =
      subst (AddsUp (cluster.name ∷ map (λ x. x.name) clusters)) (sym e) (
        with_part-AddsUp cluster.name (map (λ x. x.name) clusters) part others
          (part-counts R observed_at cluster.name listing part p)
          (IsCollected-AddsUp clusters others rest))
