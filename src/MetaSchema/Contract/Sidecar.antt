-- ===== src/MetaSchema/Contract/Sidecar.antt =====
-- What the schema document asks of the sidecar that the exporter builds.
use argo_workflows_exporter.Base.{
  ℕ, suc, ◌≤◌, String, ◌≡◌, refl, sym, ap, ◌∙◌, subst, ◌↔◌, Bool, true, false, Option, none, some,
  List, [], ◌∷◌, map, arith,
}
use mathlib.Core.Option.{some-injective}
use argo_workflows_exporter.Base.Lists.{All, length}
use argo_workflows_exporter.Base.Dict.{lookup, has, string_eq}
use argo_workflows_exporter.Base.Int.{◌≤ℤ◌, pos}
use argo_workflows_exporter.Clock.{Datetime, strptime}
use argo_workflows_exporter.Json.{Value, entries, items, of_items}
use argo_workflows_exporter.Sidecar.{
  ClusterStat, Sidecar, stat_value, sidecar_fields, sidecar_value,
}
use argo_workflows_exporter.MetaSchema.Schema.{
  Pattern, array_rule, string_rule, boolean_rule, integer_rule, cluster_schema, meta_schema,
  generation_id, matches, char_count,
}
use argo_workflows_exporter.MetaSchema.Contract.{FitsPattern, FitsFormat, Conforms}

pub items-of_items : (vs : List Value) → items (of_items vs) ≡ vs
unfolding items of_items
items-of_items [] = refl
items-of_items (v ∷ vs) = ap (◌∷◌ v) (items-of_items vs)

-- a fact about what an option holds, at an option that holds something
module _ {A : Type 0} (P : A → Type 0) (u : A) where
  known : ((a : A) × (some u ≡ some a) × P a) → P u
  known (a, e, p) = subst P (sym (some-injective u a e)) p

  known_in : ((a : A) → some u ≡ some a → P a) → P u
  known_in h = h u refl

  knows : P u → (a : A) → some u ≡ some a → P a
  knows p a e = subst P (some-injective u a e) p

text_size : (s : String) → Conforms (string_rule 1 none false) (Value.text s) → 1 ≤ char_count s
text_size s h = (known (λ t. (1 ≤ char_count t) × FitsPattern none t × FitsFormat false t) s h).0

text-Conforms : (s : String) → 1 ≤ char_count s → Conforms (string_rule 1 none false) (Value.text s)
text-Conforms s h = (s, refl, (h, tt, tt))

bool-Conforms : (b : Bool) → Conforms boolean_rule (Value.bool b)
bool-Conforms b = (b, refl)

stat-Conforms : (c : ClusterStat) → Conforms cluster_schema (stat_value c) ↔ (1 ≤ char_count c.name)
unfolding entries has lookup
stat-Conforms c = (
  λ h. text_size c.name ((known _ _ h).2.0 (Value.text c.name) refl),
  λ h. (
    _,
    refl,
    (
      (refl, (refl, (refl, tt))),
      (refl, (refl, (refl, tt))),
      (
        knows (Conforms (string_rule 1 none false)) (Value.text c.name) (text-Conforms c.name h),
        (
          knows (Conforms boolean_rule) (Value.bool c.answered) (bool-Conforms c.answered),
          (
            knows (Conforms (integer_rule (some (pos 0)))) (Value.int (pos c.workflows))
                (pos c.workflows, refl, omega arith),
            tt,
          ),
        ),
      ),
    ),
  ),
)

stats-Conforms :
    (cs : List ClusterStat)
    → All (Conforms cluster_schema) (map stat_value cs) ↔ All (λ c. 1 ≤ char_count c.name) cs
stats-Conforms [] = (λ h. tt, λ h. tt)
stats-Conforms (c ∷ cs) = (
  λ h. ((stat-Conforms c).0 h.0, (stats-Conforms cs).0 h.1),
  λ h. ((stat-Conforms c).1 h.0, (stats-Conforms cs).1 h.1),
)

length-map : {A B : Type 0} (f : A → B) (xs : List A) → length (map f xs) ≡ length xs
length-map f [] = refl
length-map f (x ∷ xs) = ap suc (length-map f xs)

clusters-Conforms :
    (cs : List ClusterStat)
    → Conforms (array_rule 1 cluster_schema) (Value.arr (of_items (map stat_value cs)))
      ↔ ((1 ≤ length cs) × All (λ c. 1 ≤ char_count c.name) cs)
clusters-Conforms cs = (
  λ h.
      let (a, b) = known (λ vs. (1 ≤ length vs) × All (Conforms cluster_schema) vs) _ h in
      (
        subst (λ n. 1 ≤ n) (length_back cs) a,
        (stats-Conforms cs).0 (subst (All (Conforms cluster_schema)) (items-of_items _) b),
      ),
  λ (a, b). (
    map stat_value cs,
    ap some (items-of_items (map stat_value cs)),
    (subst (λ n. 1 ≤ n) (sym (length-map stat_value cs)) a, (stats-Conforms cs).1 b),
  ),
)
  where
    length_back :
        (ds : List ClusterStat) → length (items (of_items (map stat_value ds))) ≡ length ds
    length_back ds = ap length (items-of_items (map stat_value ds)) ∙ length-map stat_value ds

-- what the schema asks of the sidecar
abbrev pub MeetsSchema : Sidecar → Type 0
MeetsSchema s =
    (1 ≤ char_count s.version)
    × (1 ≤ char_count s.generated_at)
    × ((t : Datetime) × (strptime s.generated_at ≡ some t))
    × (1 ≤ char_count s.generation_id)
    × (matches generation_id s.generation_id ≡ true)
    × (1 ≤ s.poll_interval_seconds)
    × (1 ≤ s.run_retention_days)
    × (1 ≤ length s.clusters)
    × All (λ c. 1 ≤ char_count c.name) s.clusters

abbrev Tail : Type 0
Tail = Unit {0}

-- what a string rule asks of a text
text_parts :
    (n : ℕ) (p : Option Pattern) (timed : Bool) (t : String)
    → Conforms (string_rule n p timed) (Value.text t)
    → (n ≤ char_count t) × FitsPattern p t × FitsFormat timed t
text_parts n p timed t = known (λ t. (n ≤ char_count t) × FitsPattern p t × FitsFormat timed t) t

number_minimum : (m n : ℕ) → Conforms (integer_rule (some (pos m))) (Value.int (pos n)) → m ≤ n
number_minimum m n h = omega (arith, known (λ k. pos m ≤ℤ k) (pos n) h)

pub sidecar-Conforms : (s : Sidecar) → Conforms meta_schema (sidecar_value s) → MeetsSchema s
unfolding entries has lookup
sidecar-Conforms s h =
    let ps = (known _ _ h).2 in
    let at = text_parts 1 none true s.generated_at (ps.1.0 (Value.text s.generated_at) refl) in
    let id =
      text_parts 1 (some generation_id) false s.generation_id
        (ps.1.1.0 (Value.text s.generation_id) refl) in
    let cs = (clusters-Conforms s.clusters).0 (ps.1.1.1.1.1.0 _ refl) in
    (
      text_size s.version (ps.0 (Value.text s.version) refl),
      at.0,
      at.2,
      id.0,
      id.1,
      number_minimum 1 s.poll_interval_seconds (ps.1.1.1.0 _ refl),
      number_minimum 1 s.run_retention_days (ps.1.1.1.1.0 _ refl),
      cs.0,
      cs.1,
    )

number-Conforms : (m n : ℕ) → m ≤ n → Conforms (integer_rule (some (pos m))) (Value.int (pos n))
number-Conforms m n h = (pos n, refl, omega arith)

pub Conforms-sidecar : (s : Sidecar) → MeetsSchema s → Conforms meta_schema (sidecar_value s)
unfolding entries has lookup
Conforms-sidecar s (version, at, time, id, form, polls, retains, some_clusters, names) = (
  sidecar_fields s,
  refl,
  (
    (refl, (refl, (refl, (refl, (refl, (refl, (refl, (refl, tt)))))))),
    (refl, (refl, (refl, (refl, (refl, (refl, (refl, (refl, tt)))))))),
    (
      knows (Conforms (string_rule 1 none false)) _ (text-Conforms s.version version),
      (
        knows (Conforms (string_rule 1 none true)) _ (s.generated_at, refl, (at, tt, time)),
        (
          knows (Conforms (string_rule 1 (some generation_id) false)) _
              (s.generation_id, refl, (id, form, tt)),
          (
            knows (Conforms (integer_rule (some (pos 1)))) _
                (number-Conforms 1 s.poll_interval_seconds polls),
            (
              knows (Conforms (integer_rule (some (pos 1)))) _
                  (number-Conforms 1 s.run_retention_days retains),
              (
                knows (Conforms (array_rule 1 cluster_schema)) _
                    ((clusters-Conforms s.clusters).1 (some_clusters, names)),
                (
                  knows (Conforms (integer_rule (some (pos 0)))) _
                      (number-Conforms 0 s.workflows (omega arith)),
                  (
                    knows (Conforms (integer_rule (some (pos 0)))) _
                        (number-Conforms 0 s.runs (omega arith)),
                    tt,
                  ),
                ),
              ),
            ),
          ),
        ),
      ),
    ),
  ),
)
