-- ===== src/Config/Clusters/Valid.antt =====
-- What the list of clusters that `_parse_clusters` of src/config.py returns is like, and what it
-- raises.
use Prim.Native.String.count
use argo_workflows_exporter.Base.{
  suc, ◌≤◌, String, ◌≡◌, ◌≢◌, refl, sym, ap, subst, inl, inr, Bool, true, false, not, List, [], ◌∷◌,
  map, leb, leb→le, arith, Bool-cases,
}
use argo_workflows_exporter.Base.Text.{is_empty, text_eq}
use argo_workflows_exporter.Base.Dict.{any-All}
use argo_workflows_exporter.Base.Lists.{All, IsPairwise, any, keep, length}
use argo_workflows_exporter.Base.Results.{
  Result, ok, Error, config_error, require, bind-eq-ok, ok_injective,
}
use argo_workflows_exporter.Json.{Value, get, as_obj, as_arr}
use argo_workflows_exporter.MetaSchema.Schema.{char_count}
use argo_workflows_exporter.Workflows.Collect.{Cluster}
use argo_workflows_exporter.Config.Clusters.{
  loaded, or_raise, cluster_name, optional_field, parse_cluster, parse_all, has_repeats, is_local,
  not_empty, check_clusters, parse_clusters,
}

pub record AreValid (clusters : List Cluster) : Type 0 where
  pub has_clusters : 1 ≤ length clusters
  pub names_clusters : All (λ c. 1 ≤ char_count c.name) clusters
  pub unique_names : IsPairwise ◌≢◌ (map (λ c. c.name) clusters)
  pub one_local : length (keep is_local clusters) ≤ 1

has_repeats-IsPairwise : (ns : List String) → has_repeats ns ≡ false → IsPairwise ◌≢◌ ns
has_repeats-IsPairwise [] h = tt
has_repeats-IsPairwise (n ∷ ns) h = elim (Bool-cases (any (text_eq n) ns)) [
  | inl e ↦ absurd (cc (rw e at h))
  | inr e ↦ (any-All n ns e, has_repeats-IsPairwise ns (rw e at h))
]

-- what is required holds where the body goes on
pub require-holds : (b : Bool) (e : Error) {u : Unit {0}} → require b e ≡ ok u → b ≡ true
require-holds true e h = refl
require-holds false e h = absurd (cc h)

not-false : (b : Bool) → not b ≡ true → b ≡ false
not-false b h = ground arith

pub text_size : (s : String) → is_empty s ≡ false → 1 ≤ char_count s
text_size String.[] h = absurd (cc h)
text_size (String.◌∷◌ c s) h = omega (arith, count.cons c s)

cluster_name-size : (v : Value) (name : String) → cluster_name v ≡ ok name → 1 ≤ char_count name
cluster_name-size (Value.text s) name h = elim (Bool-cases (is_empty s)) [
  | inl e ↦ absurd (cc (rw e at h))
  | inr e ↦ subst (λ x. 1 ≤ char_count x) (ok_injective (rw e at h)) (text_size s e)
]
cluster_name-size _ name h = absurd (cc h)

parse_cluster-size : (v : Value) (c : Cluster) → parse_cluster v ≡ ok c → 1 ≤ char_count c.name
unfolding parse_cluster
parse_cluster-size v c h =
    let (fs, e, h) = bind-eq-ok (or_raise (as_obj v)) _ h in
    let (name, n, h) = bind-eq-ok (cluster_name (get "name" fs)) _ h in
    let (base_url, b, h) = bind-eq-ok (optional_field (get "base_url" fs)) _ h in
    let (namespace, s, h) = bind-eq-ok (optional_field (get "namespace" fs)) _ h in
    subst (λ x. 1 ≤ char_count x) (ap (λ x. x.name) (ok_injective h))
      (cluster_name-size (get "name" fs) name n)

parse_all-size :
    (items : List Value) (clusters : List Cluster)
    → parse_all items ≡ ok clusters
    → All (λ c. 1 ≤ char_count c.name) clusters × (length clusters ≡ length items)
unfolding parse_all
parse_all-size [] clusters h =
    subst (λ x. All (λ c. 1 ≤ char_count c.name) x × (length x ≡ 0)) (ok_injective h) (tt, refl)
parse_all-size (item ∷ items) clusters h =
    let (c, e, h) = bind-eq-ok (parse_cluster item) _ h in
    let (cs, f, h) = bind-eq-ok (parse_all items) _ h in
    let (sizes, same) = parse_all-size items cs f in
    subst (λ x. All (λ c. 1 ≤ char_count c.name) x × (length x ≡ suc (length items)))
      (ok_injective h) ((parse_cluster-size item c e, sizes), ap suc same)

not_empty-length : (items : List Value) → not_empty items ≡ true → 1 ≤ length items
not_empty-length [] h = absurd (cc h)
not_empty-length (v ∷ vs) h = omega arith

-- The list of clusters is not empty, its names are different and not empty, and at most one entry
-- is the local cluster.
pub parse_clusters-AreValid :
    (loads : String → Result Value) (raw : String) (clusters : List Cluster)
    → parse_clusters loads raw ≡ ok clusters
    → AreValid clusters
unfolding parse_clusters check_clusters
parse_clusters-AreValid loads raw clusters h =
    let (value, e, h) = bind-eq-ok (loaded (loads raw)) _ h in
    let (items, a, h) = bind-eq-ok (or_raise (as_arr value)) _ h in
    let (u, present, h) = bind-eq-ok (require (not_empty items) config_error) _ h in
    let (cs, parsed, h) = bind-eq-ok (parse_all items) _ h in
    let (u, distinct, h) =
      bind-eq-ok (require (not (has_repeats (map (λ c. c.name) cs))) config_error) _ h in
    let (u, one, h) = bind-eq-ok (require (leb (length (keep is_local cs)) 1) config_error) _ h in
    let (sizes, same) = parse_all-size items cs parsed in
    subst AreValid (ok_injective h) (record {
      has_clusters =
          subst (λ n. 1 ≤ n) (sym same)
            (not_empty-length items (require-holds (not_empty items) config_error present));
      names_clusters = sizes;
      unique_names =
          has_repeats-IsPairwise (map (λ c. c.name) cs)
            (not-false _ (require-holds _ config_error distinct));
      one_local = leb→le _ _ (require-holds _ config_error one);
    })
