-- ===== src/Consumer/Availability/Snapshot.antt =====
-- The availability map of a sidecar that `validate` accepts, and the rows that it lets through.
use text.Mathlib.TextEquality.{eq_iff}
use mathlib.Core.List.{append_assoc, append-nil}
use Prim.Native.String.count
use argo_workflows_exporter.Base.{
  ◌≤◌, String, ◌≡◌, ◌≢◌, ◌↔◌, refl, some_injective, sym, ap, subst, ◌∙◌, inl, inr, Bool, true,
  false, Option, none, some, List, [], ◌∷◌, ◌++◌, map, arith, Bool-cases,
}
use argo_workflows_exporter.Base.Text.{is_empty, text_eq}
use argo_workflows_exporter.Base.Dict.{Dict, lookup, has, put, string_eq}
use argo_workflows_exporter.Base.Lists.{All, In, IsPairwise, In-keep, keep-In}
use argo_workflows_exporter.Base.Results.{Result, ok, ok_injective}
use argo_workflows_exporter.Json.{get, contains}
use argo_workflows_exporter.Rows.{WorkflowRow}
use argo_workflows_exporter.Sidecar.{ClusterStat, Sidecar, stat_value, sidecar_value, stat_names}
use argo_workflows_exporter.Storage.{Bytes}
use argo_workflows_exporter.MetaSchema.Schema.{char_count}
use argo_workflows_exporter.MetaSchema.CrossField.{validate}
use argo_workflows_exporter.MetaSchema.Contract.Sidecar.{items-of_items}
use argo_workflows_exporter.MetaSchema.Contract.Publishable.{IsPublishable, validate-IsPublishable}
use argo_workflows_exporter.Consumer.{Publication}
use argo_workflows_exporter.Consumer.Availability.{
  add_clusters, cluster_availability, is_true, is_available, has_clusters, of_available,
  snapshot_table, current_snapshot_rows,
}

-- the entries of the map
abbrev pub availability_of : List ClusterStat → Dict String Bool
availability_of [] = []
availability_of (c ∷ cs) = (c.name, c.answered) ∷ availability_of cs

abbrev IsNewTo : Dict String Bool → String → Type 0
IsNewTo d name = has name d ≡ false

put-new :
    (k : String) (b : Bool) (d : Dict String Bool) → IsNewTo d k → put k b d ≡ d ++ ((k, b) ∷ [])
unfolding put has
put-new k b [] h = refl
put-new k b ((j, c) ∷ d) h = elim (Bool-cases (text_eq j k)) [
  | inl e ↦ absurd (cc (rw e at h))
  | inr e ↦ rw e (ap (λ x. (j, c) ∷ x) (put-new k b d (rw e at h)))
]

has-append :
    (n k : String) (b : Bool) (d : Dict String Bool)
    → IsNewTo d n
    → k ≢ n
    → IsNewTo (d ++ ((k, b) ∷ [])) n
unfolding has
has-append n k b [] h m = ground (arith, eq_iff k n)
has-append n k b ((j, c) ∷ d) h m = elim (Bool-cases (text_eq j n)) [
  | inl e ↦ absurd (cc (rw e at h))
  | inr e ↦ rw e (has-append n k b d (rw e at h) m)
]

still_new :
    (k : String) (b : Bool) (d : Dict String Bool) (ns : List String)
    → All (IsNewTo d) ns
    → All (λ n. k ≢ n) ns
    → All (IsNewTo (d ++ ((k, b) ∷ []))) ns
still_new k b d [] h m = tt
still_new k b d (n ∷ ns) h m = (has-append n k b d h.0 m.0, still_new k b d ns h.1 m.1)

not_empty : (s : String) → 1 ≤ char_count s → is_empty s ≡ false
not_empty String.[] h = absurd (omega (arith, h, count.nil))
not_empty (String.◌∷◌ c s) h = refl

add_clusters-stats :
    (cs : List ClusterStat) (d : Dict String Bool)
    → All (λ c. 1 ≤ char_count c.name) cs
    → IsPairwise ◌≢◌ (stat_names cs)
    → All (IsNewTo d) (stat_names cs)
    → add_clusters (map stat_value cs) d ≡ ok (d ++ availability_of cs)
unfolding add_clusters get
add_clusters-stats [] d s u n = ap ok (sym (append-nil d))
add_clusters-stats (c ∷ cs) d s u n =
    rw (not_empty c.name s.0, n.0, put-new c.name c.answered d n.0)
      (add_clusters-stats cs (d ++ ((c.name, c.answered) ∷ [])) s.1 u.1
          (still_new c.name c.answered d (stat_names cs) n.1 u.0)
        ∙ ap ok (append_assoc d ((c.name, c.answered) ∷ []) (availability_of cs)))

true≢false : true ≢ false
true≢false h = cc h

empty-IsNewTo : (ns : List String) → All (IsNewTo []) ns
unfolding has
empty-IsNewTo [] = tt
empty-IsNewTo (n ∷ ns) = (refl, empty-IsNewTo ns)

-- The map of a sidecar that may be published has each of its clusters, in order, with its `ok`.
cluster_availability-stats :
    (s : Sidecar)
    → IsPublishable s
    → cluster_availability (sidecar_value s) ≡ ok (availability_of s.clusters)
unfolding cluster_availability get
cluster_availability-stats s p = rw (items-of_items (map stat_value s.clusters)) (
    add_clusters-stats s.clusters [] p.names_clusters p.unique_names
      (empty-IsNewTo (stat_names s.clusters)))

-- a cluster that answered, by its name
abbrev pub Answers : List ClusterStat → Option String → Type 0
Answers cs name = (c : ClusterStat) × In c cs × (c.answered ≡ true) × (name ≡ some c.name)

no_such :
    (n : String) (cs : List ClusterStat) (c : ClusterStat)
    → All (λ m. n ≢ m) (stat_names cs)
    → In c cs
    → n ≢ c.name
no_such n [] c h i = absurd i
no_such n (d ∷ ds) c h (inl e) = λ q. h.0 (q ∙ ap (λ x. x.name) e)
no_such n (d ∷ ds) c h (inr i) = no_such n ds c h.1 i

available_iff :
    (cs : List ClusterStat) (name : String)
    → IsPairwise ◌≢◌ (stat_names cs)
    → (is_true (lookup name (availability_of cs)) ≡ true) ↔ Answers cs (some name)
unfolding lookup
available_iff [] name u = (λ h. absurd (cc h), λ (c, i, a, n). absurd i)
available_iff (d ∷ ds) name u = elim (Bool-cases (text_eq d.name name)) [
  | inl e ↦ rw e (
    λ h. (d, inl refl, h, ap some (sym ((eq_iff d.name name).0 e))),
    λ (c, i, a, n). elim i [
      | inl q ↦ ap (λ x. x.answered) (sym q) ∙ a
      | inr j ↦ absurd (no_such d.name ds c u.0 j ((eq_iff d.name name).0 e ∙ some_injective n))
    ],
  )
  | inr e ↦ rw e (
    λ h. let (c, i, a, n) = (available_iff ds name u.1).0 h in (c, inr i, a, n),
    λ (c, i, a, n). elim i [
      | inl q ↦ absurd (
          true≢false (
            (sym ((eq_iff d.name name).1 (ap (λ x. x.name) (sym q) ∙ sym (some_injective n)))) ∙ e))
      | inr j ↦ (available_iff ds name u.1).1 (c, j, a, n)
    ],
  )
]

is_available_iff :
    (cs : List ClusterStat) (name : Option String)
    → IsPairwise ◌≢◌ (stat_names cs)
    → (is_available (availability_of cs) name ≡ true) ↔ Answers cs name
is_available_iff cs none u = (λ h. absurd (cc h), λ (c, i, a, n). absurd (cc n))
is_available_iff cs (some name) u = available_iff cs name u

of_available_iff :
    (cs : List ClusterStat) (rows : List WorkflowRow) (row : WorkflowRow)
    → IsPairwise ◌≢◌ (stat_names cs)
    → In row (of_available (availability_of cs) rows)
      ↔ (In row rows × Answers cs row.shared.cluster)
of_available_iff cs rows row u = (
  λ h.
      let (i, a) = In-keep (λ r. is_available (availability_of cs) r.shared.cluster) rows row h in
      (i, (is_available_iff cs row.shared.cluster u).0 a),
  λ (i, a).
      keep-In (λ r. is_available (availability_of cs) r.shared.cluster) rows row i
        ((is_available_iff cs row.shared.cluster u).1 a),
)

sidecar-has_clusters : (s : Sidecar) → has_clusters (sidecar_value s) ≡ true
unfolding contains has
sidecar-has_clusters s = refl

-- The snapshot of a publication whose sidecar `validate` accepts has exactly the rows of
-- workflows.parquet whose cluster stands in that sidecar as one that answered.
pub current_snapshot_rows-In :
    (read_rows : Bytes → Result (List WorkflowRow)) (p : Publication) (s : Sidecar)
    (rows snapshot : List WorkflowRow)
    → p.meta ≡ sidecar_value s
    → validate (sidecar_value s) ≡ ok tt
    → snapshot_table read_rows p.workflows ≡ ok rows
    → current_snapshot_rows read_rows p ≡ ok snapshot
    → (row : WorkflowRow) → In row snapshot ↔ (In row rows × Answers s.clusters row.shared.cluster)
unfolding current_snapshot_rows
current_snapshot_rows-In read_rows p s rows snapshot m v r h row =
    let publishable = (validate-IsPublishable s).0 v in
    let made : Result.ok (of_available (availability_of s.clusters) rows) ≡ ok snapshot =
      rw (r, m, sidecar-has_clusters s, cluster_availability-stats s publishable) at h in
    subst (λ x. In row x ↔ (In row rows × Answers s.clusters row.shared.cluster))
      (ok_injective made) (of_available_iff s.clusters rows row publishable.unique_names)
