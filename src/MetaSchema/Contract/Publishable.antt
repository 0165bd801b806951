-- ===== src/MetaSchema/Contract/Publishable.antt =====
-- The sidecars that the exporter may publish, and that `validate` lets exactly those through.
use Prim.Native.Char.{Char}
use Prim.Native.String.count
use text.Mathlib.Text.{starts_with}
use argo_workflows_exporter.Base.{
  ℕ, ◌≤◌, String, ◌≡◌, ◌≢◌, refl, ◌↔◌, Bool, true, false, some, List, [], ◌∷◌, ◌++◌, map, arith,
  ◌==◌,
}
use argo_workflows_exporter.Base.Lists.{All, IsPairwise, length}
use argo_workflows_exporter.Base.Int.{pos, eqb_ℤ}
use argo_workflows_exporter.Base.Results.{ok}
use argo_workflows_exporter.Clock.{Datetime, strptime}
use argo_workflows_exporter.Json.{get}
use argo_workflows_exporter.Sidecar.{
  stat_names, included_rows, ClusterStat, Sidecar, stat_value, sidecar_value,
}
use argo_workflows_exporter.MetaSchema.Schema.{
  Violation, id_not_extending, duplicate_names, wrong_total, report, root, meta_schema,
  generation_id, matches, char_count,
}
use argo_workflows_exporter.MetaSchema.CrossField.{
  duplicated, not_ok_violations, cluster_violations, clusters_violations, id_violations,
  cross_field_violations, id_prefix, accept, validate,
}
use argo_workflows_exporter.MetaSchema.Names.{texts, duplicated-Unique, sortable-texts}
use argo_workflows_exporter.MetaSchema.Contract.{append_iff, report_iff, check_iff}
use argo_workflows_exporter.MetaSchema.Contract.Sidecar.{
  MeetsSchema, sidecar-Conforms, Conforms-sidecar, items-of_items,
}
use argo_workflows_exporter.MetaSchema.Contract.Stats.{
  listed_names-stats, accounted-stats, not_ok-stats,
}

-- the promises of docs/notes/output-schema.md
pub record IsPublishable (s : Sidecar) : Type 0 where
  pub has_version : 1 ≤ char_count s.version
  pub is_time : (t : Datetime) × (strptime s.generated_at ≡ some t)
  pub is_id : matches generation_id s.generation_id ≡ true
  pub extends_time : starts_with s.generation_id (id_prefix s.generated_at) ≡ true
  pub polls : 1 ≤ s.poll_interval_seconds
  pub retains : 1 ≤ s.run_retention_days
  pub has_clusters : 1 ≤ length s.clusters
  pub names_clusters : All (λ c. 1 ≤ char_count c.name) s.clusters
  pub unique_names : IsPairwise ◌≢◌ (stat_names s.clusters)
  pub sums_up : included_rows s.clusters ≡ s.workflows
  pub empty_if_failed : All (λ c. c.answered ≡ false → c.workflows ≡ 0) s.clusters

abbrev pub ExtendsTime : Sidecar → Type 0
ExtendsTime s = starts_with s.generation_id (id_prefix s.generated_at) ≡ true

-- what the rules across fields ask of the entries of `cluster_stats` and the total
abbrev pub AddsUp : List ClusterStat → ℕ → Type 0
AddsUp cs total =
    IsPairwise ◌≢◌ (stat_names cs)
    × ((included_rows cs ≡ total) × All (λ c. c.answered ≡ false → c.workflows ≡ 0) cs)

-- the violations of the rules across fields
abbrev stats_violations : List ClusterStat → ℕ → List Violation
stats_violations cs total =
    report (length (duplicated (texts (stat_names cs)) (texts (stat_names cs))) == 0)
      duplicate_names
    ++ (report (eqb_ℤ (pos (included_rows cs)) (pos total)) wrong_total
        ++ not_ok_violations (map stat_value cs) 0)

no_items : {A : Type 0} (xs : List A) → ((length xs == 0) ≡ true) ↔ (xs ≡ [])
no_items [] = (λ h. refl, λ h. refl)
no_items (x ∷ xs) = ground arith

stats_iff : (cs : List ClusterStat) (total : ℕ) → (stats_violations cs total ≡ []) ↔ AddsUp cs total
stats_iff cs total =
    append_iff
      (report_iff _ duplicate_names (
        λ h. (duplicated-Unique (stat_names cs)).0 ((no_items _).0 h),
        λ u. (no_items _).1 ((duplicated-Unique (stat_names cs)).1 u),
      ))
      (append_iff (report_iff _ wrong_total (same_total (included_rows cs) total))
        (not_ok-stats cs 0))
  where
    same_total : (m n : ℕ) → (eqb_ℤ (pos m) (pos n) ≡ true) ↔ (m ≡ n)
    same_total m n = ground arith

cluster_violations-stats :
    (cs : List ClusterStat) (total : ℕ)
    → cluster_violations (map stat_value cs) (pos total) ≡ ok (stats_violations cs total)
unfolding cluster_violations
cluster_violations-stats cs total =
    rw (listed_names-stats cs, sortable-texts (stat_names cs), accounted-stats cs)

cross_field-sidecar :
    (s : Sidecar)
    → cross_field_violations (sidecar_value s)
      ≡ ok (
          report (starts_with s.generation_id (id_prefix s.generated_at)) id_not_extending
          ++ stats_violations s.clusters s.workflows)
unfolding cross_field_violations clusters_violations id_violations get
cross_field-sidecar s =
    rw (items-of_items (map stat_value s.clusters), cluster_violations-stats s.clusters s.workflows)

accept_iff : (vs : List Violation) → (accept vs ≡ ok tt) ↔ (vs ≡ [])
accept_iff [] = (λ h. refl, λ h. refl)
accept_iff (v ∷ vs) = (λ h. absurd (cc h), λ h. absurd (cc h))

identity_iff : (b : Bool) → (b ≡ true) ↔ (b ≡ true)
identity_iff b = (λ h. h, λ h. h)

validate-parts :
    (s : Sidecar)
    → (validate (sidecar_value s) ≡ ok tt)
      ↔ (MeetsSchema s × (ExtendsTime s × AddsUp s.clusters s.workflows))
unfolding validate
validate-parts s =
    let (into, from) =
      append_iff
        (
          λ h. sidecar-Conforms s ((check_iff meta_schema (sidecar_value s) root).0 h),
          λ h. (check_iff meta_schema (sidecar_value s) root).1 (Conforms-sidecar s h),
        )
        (append_iff
          (report_iff (starts_with s.generation_id (id_prefix s.generated_at)) id_not_extending
            (identity_iff _))
          (stats_iff s.clusters s.workflows)) in
    rw (cross_field-sidecar s) (λ h. into ((accept_iff _).0 h), λ p. (accept_iff _).1 (from p))

count_pos : (c : Char) (s : String) → 1 ≤ char_count (String.◌∷◌ c s)
count_pos c s = omega (arith, count.cons c s)

time_size : (s : String) (t : Datetime) → strptime s ≡ some t → 1 ≤ char_count s
unfolding strptime
time_size String.[] t h = absurd (cc h)
time_size (String.◌∷◌ c s) t h = count_pos c s

id_size : (s : String) → matches generation_id s ≡ true → 1 ≤ char_count s
unfolding matches
id_size String.[] h = absurd (cc h)
id_size (String.◌∷◌ c s) h = count_pos c s

-- `validate` accepts the sidecar that the exporter builds exactly if it keeps every promise that
-- its documentation makes of meta.json: a version, a real UTC time, an id that has the required
-- form and extends that time, positive poll interval and retention, at least one cluster, clusters
-- with different names that are not empty, a total that is the sum over the clusters that answered,
-- and no rows for one that did not.
pub validate-IsPublishable : (s : Sidecar) → (validate (sidecar_value s) ≡ ok tt) ↔ IsPublishable s
validate-IsPublishable s = (
  λ h.
      let ((version, at, time, id, form, polls, retains, some_clusters, names), rest) =
        (validate-parts s).0 h in
      record {
        has_version = version;
        is_time = time;
        is_id = form;
        extends_time = rest.0;
        polls = polls;
        retains = retains;
        has_clusters = some_clusters;
        names_clusters = names;
        unique_names = rest.1.0;
        sums_up = rest.1.1.0;
        empty_if_failed = rest.1.1.1;
      },
  λ p. (validate-parts s).1 (
    (
      p.has_version,
      time_size s.generated_at p.is_time.0 p.is_time.1,
      p.is_time,
      id_size s.generation_id p.is_id,
      p.is_id,
      p.polls,
      p.retains,
      p.has_clusters,
      p.names_clusters,
    ),
    (p.extends_time, (p.unique_names, (p.sums_up, p.empty_if_failed))),
  ),
)
