-- ===== src/Cycle/Completes.antt =====
-- When a cycle completes.
use argo_workflows_exporter.Base.{
  ◌≡◌, refl, ap, ◌∙◌, ◌↔◌, inl, inr, Bool-cases, true, List, [], ◌∷◌,
}
use argo_workflows_exporter.Base.Lists.{any}
use argo_workflows_exporter.Base.Results.{Result, ok, err}
use argo_workflows_exporter.Json.{Value}
use argo_workflows_exporter.Taxonomy.{TextTools, Rule}
use argo_workflows_exporter.Rows.{WorkflowRow, RunRow}
use argo_workflows_exporter.Sidecar.{ClusterStat}
use argo_workflows_exporter.Storage.{Bytes, Pyarrow}
use argo_workflows_exporter.Cycle.{
  Store, PutOutcome, stored, lost, unacknowledged, Config, completed, Generation, uploads, Calls,
  publish_all, compute_generation, publish_generation, read_ledger, cycle_with, after_fetch,
  run_cycle,
}
use argo_workflows_exporter.Cycle.Publish.{IsComputed}

-- the three uploads are stored and acknowledged
abbrev pub AreStored : List PutOutcome → Type 0
AreStored puts = (rest : List PutOutcome) × (puts ≡ stored ∷ (stored ∷ (stored ∷ rest)))

module _ (T : TextTools) (rules : List Rule) (P : Pyarrow) (dumps : Value → Bytes) (cfg : Config)
    (calls : Calls) where
  -- Every call does its part: a listing that a cluster answered, a ledger that can be read, a
  -- generation that can be computed, and three uploads.
  pub record Succeeds (g : Generation) : Type 0 where
    pub computed : IsComputed T rules P dumps cfg calls g
    pub has_answer : any (λ (c : ClusterStat). c.answered) computed.stats ≡ true
    pub puts_stored : AreStored calls.puts

  module _ (store : Store) where
    publish_all-AreStored :
        (g : Generation) (stats : List ClusterStat) (puts : List PutOutcome)
        → (publish_all cfg stats (uploads g) puts [] store).1 ≡ completed
        → AreStored puts
    unfolding publish_all
    publish_all-AreStored g stats [] h = absurd (cc h)
    publish_all-AreStored g stats (lost e ∷ puts) h = absurd (cc h)
    publish_all-AreStored g stats (unacknowledged e ∷ puts) h = absurd (cc h)
    publish_all-AreStored g stats (stored ∷ []) h = absurd (cc h)
    publish_all-AreStored g stats (stored ∷ (lost e ∷ puts)) h = absurd (cc h)
    publish_all-AreStored g stats (stored ∷ (unacknowledged e ∷ puts)) h = absurd (cc h)
    publish_all-AreStored g stats (stored ∷ (stored ∷ [])) h = absurd (cc h)
    publish_all-AreStored g stats (stored ∷ (stored ∷ (lost e ∷ puts))) h = absurd (cc h)
    publish_all-AreStored g stats (stored ∷ (stored ∷ (unacknowledged e ∷ puts))) h = absurd (cc h)
    publish_all-AreStored g stats (stored ∷ (stored ∷ (stored ∷ puts))) h = (puts, refl)

    publish_generation-Succeeds :
        (rows : List WorkflowRow) (stats : List ClusterStat) (runs : List RunRow)
        (o : Result Generation)
        → calls.fetched ≡ ok (rows, stats)
        → any (λ (c : ClusterStat). c.answered) stats ≡ true
        → read_ledger P calls ≡ ok runs
        → compute_generation T rules P dumps cfg calls rows stats runs ≡ o
        → (publish_generation cfg calls stats o store).1 ≡ completed
        → (g : Generation) × Succeeds g
    unfolding publish_generation
    publish_generation-Succeeds rows stats runs (err e) f a r c h = absurd (cc h)
    publish_generation-Succeeds rows stats runs (ok g) f a r c h = (
      g,
      record {
        computed = record {
          rows = rows;
          stats = stats;
          runs = runs;
          was_fetched = f;
          was_read = r;
          was_computed = c;
        };
        has_answer = a;
        puts_stored = publish_all-AreStored g stats calls.puts h;
      },
    )

    cycle_with-Succeeds :
        (rows : List WorkflowRow) (stats : List ClusterStat) (o : Result (List RunRow))
        → calls.fetched ≡ ok (rows, stats)
        → any (λ (c : ClusterStat). c.answered) stats ≡ true
        → read_ledger P calls ≡ o
        → (cycle_with T rules P dumps cfg calls rows stats o store).1 ≡ completed
        → (g : Generation) × Succeeds g
    unfolding cycle_with
    cycle_with-Succeeds rows stats (err e) f a r h = absurd (cc h)
    cycle_with-Succeeds rows stats (ok runs) f a r h =
        publish_generation-Succeeds rows stats runs _ f a r refl h

    after_fetch-Succeeds :
        (o : Result (List WorkflowRow × List ClusterStat))
        → calls.fetched ≡ o
        → (after_fetch T rules P dumps cfg calls o store).1 ≡ completed
        → (g : Generation) × Succeeds g
    unfolding after_fetch
    after_fetch-Succeeds (err e) f h = absurd (cc h)
    after_fetch-Succeeds (ok (rows, stats)) f h =
        elim (Bool-cases (any (λ (c : ClusterStat). c.answered) stats)) [
          | inl a ↦ cycle_with-Succeeds rows stats _ f a refl (rw a at h)
          | inr n ↦ absurd (cc (rw n at h))
        ]

    after_fetch-completed :
        (rows : List WorkflowRow) (stats : List ClusterStat)
        → any (λ (c : ClusterStat). c.answered) stats ≡ true
        → after_fetch T rules P dumps cfg calls (ok (rows, stats)) store
          ≡ cycle_with T rules P dumps cfg calls rows stats (read_ledger P calls) store
    unfolding after_fetch
    after_fetch-completed rows stats a = rw a refl

    publish_all-completed :
        (g : Generation) (stats : List ClusterStat) (puts : List PutOutcome)
        → AreStored puts
        → (publish_all cfg stats (uploads g) puts [] store).1 ≡ completed
    unfolding publish_all
    publish_all-completed g stats puts (rest, e) = rw e refl

    Succeeds-completed :
        (g : Generation) → Succeeds g → (run_cycle T rules P dumps cfg calls store).1 ≡ completed
    unfolding run_cycle cycle_with publish_generation
    Succeeds-completed g s =
        let c = s.computed in
        ap (λ x. (after_fetch T rules P dumps cfg calls x store).1) c.was_fetched
        ∙ ap (λ x. x.1) (after_fetch-completed c.rows c.stats s.has_answer)
        ∙ ap (λ x. (cycle_with T rules P dumps cfg calls c.rows c.stats x store).1) c.was_read
        ∙ ap (λ x. (publish_generation cfg calls c.stats x store).1) c.was_computed
        ∙ publish_all-completed g c.stats calls.puts s.puts_stored

  -- A cycle completes exactly if a cluster answered the listing, the stored ledger can be read, the
  -- generation can be computed, and all three uploads are acknowledged; what the bucket holds plays
  -- no part.
  pub run_cycle-completes :
      (store : Store)
      → ((run_cycle T rules P dumps cfg calls store).1 ≡ completed)
        ↔ ((g : Generation) × Succeeds g)
  unfolding run_cycle
  run_cycle-completes store =
      (after_fetch-Succeeds store calls.fetched refl, λ (g, s). Succeeds-completed store g s)
