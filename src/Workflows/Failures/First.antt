-- ===== src/Workflows/Failures/First.antt =====
-- The step that `failed_step` of src/workflows.py names is the first failed pod.
use argo_workflows_exporter.Base.{
  String, ◌≡◌, refl, sym, ap, subst, ◌∙◌, ◌⊎◌, inl, inr, Bool, true, false, ◌&&◌, Bool-cases,
  Option, none, some, some_injective, ℕ, ◌<◌, ltb, ◌==◌, List, [], ◌∷◌, arith,
}
use text.Mathlib.TextEquality.{eq_iff}
use argo_workflows_exporter.Base.Text.{text_eq, text_leb}
use argo_workflows_exporter.Base.Lists.{In, All-In, keep, In-keep, keep-In}
use argo_workflows_exporter.Base.Results.{ok_injective, Result, ok, bind-eq-ok}
use argo_workflows_exporter.Json.{or_value, Value, null, Fields, get, as_text}
use argo_workflows_exporter.Clock.Iso.{Stamp}
use argo_workflows_exporter.Workflows.Times.{parse_ts, utc_of}
use argo_workflows_exporter.Workflows.Extract.{mapping_at}
use argo_workflows_exporter.Workflows.Failures.Least.{IsFirst, least-IsFirst}
use argo_workflows_exporter.Workflows.Failures.{
  SelectionKey, key_leb, Keyed, least, step_of, failures_of, failed_step, is_any, is_failed_pod,
  Nodes, nodes_or, selection_key, with_keys,
}

-- a pod that failed or erred
abbrev pub IsFailed : Fields → Type 0
IsFailed node =
    ((as_text (get "phase" node) ≡ some "Failed") ⊎ (as_text (get "phase" node) ≡ some "Error"))
    × (as_text (get "type" node) ≡ some "Pod")

-- Pods with a time come before those without, by the time; those of one time, or without a time, by
-- their name.
abbrev pub IsNoLater : SelectionKey → SelectionKey → Type 0
IsNoLater (none, a) (none, b) = text_leb a b ≡ true
IsNoLater (none, a) (some t, b) = ⊥
IsNoLater (some s, a) (none, b) = Unit
IsNoLater (some s, a) (some t, b) = (s < t) ⊎ ((s ≡ t) × (text_leb a b ≡ true))

key_leb-IsNoLater : (j k : SelectionKey) → key_leb j k ≡ true → IsNoLater j k
key_leb-IsNoLater (none, a) (none, b) h = h
key_leb-IsNoLater (none, a) (some t, b) h = absurd (cc h)
key_leb-IsNoLater (some s, a) (none, b) h = tt
key_leb-IsNoLater (some s, a) (some t, b) h = elim (Bool-cases (s == t)) [
  | inl e ↦ inr (ground (arith, e), rw e at h)
  | inr e ↦ let l : ltb s t ≡ true = rw e at h in inl (ground (arith, l))
]

phase-of : (o : Option String) (a b : String) → is_any o a b ≡ true → (o ≡ some a) ⊎ (o ≡ some b)
phase-of none a b h = absurd (cc h)
phase-of (some s) a b h = elim (Bool-cases (text_eq s a)) [
  | inl e ↦ inl (ap some ((eq_iff s a).0 e))
  | inr e ↦ inr (ap some ((eq_iff s b).0 (rw e at h)))
]

of-phase : (o : Option String) (a b : String) → (o ≡ some a) ⊎ (o ≡ some b) → is_any o a b ≡ true
of-phase none a b (inl h) = absurd (cc h)
of-phase none a b (inr h) = absurd (cc h)
of-phase (some s) a b (inl h) = ground (arith, (eq_iff s a).1 (some_injective h))
of-phase (some s) a b (inr h) = ground (arith, (eq_iff s b).1 (some_injective h))

both : (a b : Bool) → (a && b) ≡ true → (a ≡ true) × (b ≡ true)
both true b h = (refl, h)
both false b h = absurd (cc h)

pod-IsFailed : (name : String) (node : Fields) → is_failed_pod (name, node) ≡ true → IsFailed node
pod-IsFailed name node h =
    let (p, t) = both _ _ h in
    (
      phase-of (as_text (get "phase" node)) "Failed" "Error" p,
      elim (phase-of (as_text (get "type" node)) "Pod" "Pod" t) [ inl e ↦ e | inr e ↦ e ],
    )

IsFailed-pod : (name : String) (node : Fields) → IsFailed node → is_failed_pod (name, node) ≡ true
IsFailed-pod name node (p, t) =
    let phase = of-phase (as_text (get "phase" node)) "Failed" "Error" p in
    let type_is = of-phase (as_text (get "type" node)) "Pod" "Pod" (inl t) in
    rw (phase, type_is) refl

module _ (fromisoformat : String → Option Stamp) where
  -- the time at which the node started is this instant, or none if it has no time
  abbrev pub IsStarted : Fields → Option ℕ → Type 0
  IsStarted node t = utc_of (parse_ts fromisoformat (get "startedAt" node)) ≡ ok t

  -- a failed pod, by its entry among the nodes
  abbrev pub IsAmong : Nodes → Keyed → Type 0
  IsAmong nodes ((t, name), node) = In (name, node) nodes × IsFailed node × IsStarted node t

  selection_key-eq :
      (name : String) (node : Fields) (key : SelectionKey)
      → selection_key fromisoformat (name, node) ≡ ok key
      → IsStarted node key.0 × (name ≡ key.1)
  unfolding selection_key
  selection_key-eq name node key h =
      let (t, e, g) = bind-eq-ok (utc_of (parse_ts fromisoformat (get "startedAt" node))) _ h in
      let same = ok_injective g in (e ∙ ap (λ k. ok k.0) same, ap (λ k. k.1) same)

  -- where the keyed pods come from
  with_keys-In :
      (pods : Nodes) (keyed : List Keyed)
      → with_keys fromisoformat pods ≡ ok keyed
      → (x : Keyed) → In x keyed
      → In (x.0.1, x.1) pods × IsStarted x.1 x.0.0
  unfolding with_keys
  with_keys-In [] keyed h x i =
      let none_there : In x [] = subst (In x) (sym (ok_injective h)) i in absurd none_there
  with_keys-In ((name, node) ∷ rest) keyed h x i =
      let (key, k, h) = bind-eq-ok (selection_key fromisoformat (name, node)) _ h in
      let (others, o, h) = bind-eq-ok (with_keys fromisoformat rest) _ h in
      let (started, named) = selection_key-eq name node key k in
      let j : In x ((key, node) ∷ others) = subst (In x) (sym (ok_injective h)) i in
      elim j [
        | inl e ↦ (inl (cc (e, named)), subst (λ y. IsStarted y.1 y.0.0) (sym e) started)
        | inr r ↦ let (m, s) = with_keys-In rest others o x r in (inr m, s)
      ]

  -- every pod is keyed
  In-with_keys :
      (pods : Nodes) (keyed : List Keyed)
      → with_keys fromisoformat pods ≡ ok keyed
      → (name : String) (node : Fields) → In (name, node) pods
      → (t : Option ℕ) × In ((t, name), node) keyed
  unfolding with_keys
  In-with_keys [] keyed h name node i = absurd i
  In-with_keys ((first, entry) ∷ rest) keyed h name node i =
      let (key, k, h) = bind-eq-ok (selection_key fromisoformat (first, entry)) _ h in
      let (others, o, h) = bind-eq-ok (with_keys fromisoformat rest) _ h in
      let (started, named) = selection_key-eq first entry key k in
      elim i [
        | inl e ↦
            let same : ◌≡◌ {A = Keyed} ((key.0, name), node) (key, entry) = cc (e, named) in
            (key.0, subst (In ((key.0, name), node)) (ok_injective h) (inl same))
        | inr r ↦
            let (t, j) = In-with_keys rest others o name node r in
            (t, subst (In ((t, name), node)) (ok_injective h) (inr j))
      ]

  -- no failed pod is before this one
  abbrev pub IsEarliest : Nodes → SelectionKey → Type 0
  IsEarliest nodes key =
      (t : Option ℕ) (name : String) (node : Fields)
      → IsAmong nodes ((t, name), node)
      → IsNoLater key (t, name)

  -- null where no pod failed, and else what a failed pod that no other one is before says of itself
  abbrev pub IsStep : Nodes → Value → Value → Type 0
  IsStep nodes step_name step_message =
      (((name : String) (node : Fields) → In (name, node) nodes → IsFailed node → ⊥)
        × (step_name ≡ null)
        × (step_message ≡ null))
      ⊎ ((x : Keyed) × IsAmong nodes x
          × IsEarliest nodes x.0
          × (step_name ≡ or_value (get "displayName" x.1) (get "name" x.1))
          × (step_message ≡ get "message" x.1))

  least-IsEarliest :
      (nodes : Nodes) (keyed : List Keyed) (x : Keyed)
      → with_keys fromisoformat (keep is_failed_pod nodes) ≡ ok keyed
      → IsFirst keyed x
      → IsEarliest nodes x.0
  least-IsEarliest nodes keyed x h (i, all) t name node (n, failed, started) =
      let pod = keep-In is_failed_pod nodes (name, node) n (IsFailed-pod name node failed) in
      let (u, j) = In-with_keys (keep is_failed_pod nodes) keyed h name node pod in
      let (m, begun) = with_keys-In (keep is_failed_pod nodes) keyed h ((u, name), node) j in
      let same : u ≡ t = ok_injective (sym begun ∙ started) in
      subst (λ v. IsNoLater x.0 (v, name)) same
        (key_leb-IsNoLater x.0 (u, name)
          (All-In (λ y. key_leb x.0 y.0 ≡ true) keyed ((u, name), node) all j))

  first-IsAmong :
      (nodes : Nodes) (keyed : List Keyed) (x : Keyed)
      → with_keys fromisoformat (keep is_failed_pod nodes) ≡ ok keyed
      → In x keyed
      → IsAmong nodes x
  first-IsAmong nodes keyed x h i =
      let (m, started) = with_keys-In (keep is_failed_pod nodes) keyed h x i in
      let (n, failed) = In-keep is_failed_pod nodes (x.0.1, x.1) m in
      (n, pod-IsFailed x.0.1 x.1 failed, started)

  step_of-IsStep :
      (nodes : Nodes) (keyed : List Keyed) (step_name step_message : Value)
      → with_keys fromisoformat (keep is_failed_pod nodes) ≡ ok keyed
      → step_of keyed ≡ (step_name, step_message)
      → IsStep nodes step_name step_message
  step_of-IsStep nodes [] step_name step_message h e = inl (
    λ name node n failed.
        (In-with_keys (keep is_failed_pod nodes) [] h name node
          (keep-In is_failed_pod nodes (name, node) n (IsFailed-pod name node failed))).1,
    ap (λ x. x.0) (sym e),
    ap (λ x. x.1) (sym e),
  )
  step_of-IsStep nodes (x ∷ xs) step_name step_message h e =
      let first = least-IsFirst x xs in
      inr (
        least x xs,
        first-IsAmong nodes (x ∷ xs) (least x xs) h first.0,
        least-IsEarliest nodes (x ∷ xs) (least x xs) h first,
        ap (λ x. x.0) (sym e),
        ap (λ x. x.1) (sym e),
      )

module _ (fromisoformat : String → Option Stamp) (inflate : String → Result Value) where
  -- A failed step that is returned is that of the nodes of the status, the compressed ones where
  -- the others are not there. It is null where none of them is a pod whose phase is `Failed` or
  -- `Error`, and else is the display name, or the name, and the message of such a pod that no other
  -- one is before: those with a time come first, by their instant, and the name of the node decides
  -- between those of one instant, and between those without.
  pub failed_step-IsFirst :
      (wf : Fields) (step_name step_message : Value)
      → failed_step fromisoformat inflate wf ≡ ok (step_name, step_message)
      → (nodes : Nodes) × (nodes_or inflate
            (get "nodes" (mapping_at "status" wf))
            (get "compressedNodes" (mapping_at "status" wf))
          ≡ ok nodes)
        × IsStep fromisoformat nodes step_name step_message
  unfolding failed_step failures_of
  failed_step-IsFirst wf step_name step_message h =
      let (keyed, k, g) = bind-eq-ok (failures_of fromisoformat inflate wf) _ h in
      let (nodes, n, f) =
        bind-eq-ok
          (nodes_or inflate (get "nodes" (mapping_at "status" wf))
            (get "compressedNodes" (mapping_at "status" wf)))
          _ k in
      (nodes, n, step_of-IsStep fromisoformat nodes keyed step_name step_message f (ok_injective g))
