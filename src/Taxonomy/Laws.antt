-- ===== src/Taxonomy/Laws.antt =====
-- What the failure columns of a row say of its messages.
use Prim.Native.String
use argo_workflows_exporter.Base.{
  String, ◌≡◌, refl, sym, ap, ◌∙◌, ◌⊎◌, inl, inr, Bool, true, false, Bool-cases, none, some, List,
  [], ◌∷◌, ◌++◌,
}
use argo_workflows_exporter.Base.Text.{is_blank, strip}
use argo_workflows_exporter.Base.Lists.{any, All}
use argo_workflows_exporter.Json.{Value, text}
use argo_workflows_exporter.Taxonomy.{
  TextTools, Rule, Columns, normalizations, normalize_with, usable_message, normalize_usable,
  normalize_failure, first_match, or_else, failure_class, class_of_usable, failure_columns,
}

module _ (T : TextTools) where
  -- a pattern of the rule is found in the message
  abbrev pub rule_matches : String → Rule → Bool
  rule_matches message (name, patterns) = any (λ p. T.search p message) patterns

  -- The class of the first rule that matches, `unknown` if none does.
  pub data IsClass (rules : List Rule) (message : String) (name : String) : Type 0 where
    unmatched :
        All (λ r. rule_matches message r ≡ false) rules
        → name ≡ "unknown"
        → IsClass rules message name
    matched :
        (before after : List Rule) (patterns : List String)
        → rules ≡ before ++ ((name, patterns) ∷ after)
        → All (λ r. rule_matches message r ≡ false) before
        → rule_matches message (name, patterns) ≡ true
        → IsClass rules message name

  later :
      (r : Rule) (rules : List Rule) (message name : String)
      → rule_matches message r ≡ false
      → IsClass rules message name
      → IsClass (r ∷ rules) message name
  later r rules message name h (unmatched a e) = unmatched (h, a) e
  later r rules message name h (matched before after patterns e a m) =
      matched (r ∷ before) after patterns (ap (λ x. r ∷ x) e) (h, a) m

  first_match-IsClass :
      (rules : List Rule) (message : String) → IsClass rules message (first_match T rules message)
  unfolding first_match
  first_match-IsClass [] message = unmatched tt refl
  first_match-IsClass ((name, patterns) ∷ rules) message =
      elim (Bool-cases (rule_matches message (name, patterns))) [
        | inl e ↦ rw e (matched [] rules patterns refl tt e)
        | inr e ↦
            rw e (later (name, patterns) rules message _ e (first_match-IsClass rules message))
      ]

-- a message that counts: a text with more than white space
abbrev pub IsUsable : Value → String → Type 0
IsUsable v s = (v ≡ text s) × (is_blank s ≡ false)

abbrev pub HasNothing : Value → Type 0
HasNothing v = (s : String) → IsUsable v s → ⊥

text-eq : (s t : String) → text s ≡ text t → s ≡ t
text-eq s t h = cc h

message_text :
    (s : String) (b : Bool)
    → is_blank s ≡ b
    → ((usable_message (text s) ≡ some s) × IsUsable (text s) s)
      ⊎ ((usable_message (text s) ≡ none) × HasNothing (text s))
unfolding usable_message
message_text s true e = inr (rw e refl, λ t (h, k). absurd (cc (ap is_blank (text-eq s t h), e, k)))
message_text s false e = inl (rw e refl, (refl, e))

message_cases :
    (v : Value)
    → ((s : String) × (usable_message v ≡ some s) × IsUsable v s)
      ⊎ ((usable_message v ≡ none) × HasNothing v)
unfolding usable_message
message_cases (text s) = elim (message_text s (is_blank s) refl) [
  | inl (e, u) ↦ inl (s, e, u)
  | inr (e, n) ↦ inr (e, n)
]
message_cases _ = inr (refl, λ s h. cc (h.0))

-- the step's message, or the workflow's where that of the step does not count
abbrev pub IsEvidence : Value → Value → String → Type 0
IsEvidence step_message workflow_message s =
    IsUsable step_message s ⊎ (HasNothing step_message × IsUsable workflow_message s)

module _ (T : TextTools) where
  -- the substitutions of these rules, one after another, lead from one text to the other
  abbrev pub IsRewritten : List (String × String) → String → String → Type 0
  IsRewritten [] s t = s ≡ t
  IsRewritten ((pattern, replacement) ∷ rules) s t =
      (u : String) × (u ≡ T.sub pattern replacement s) × IsRewritten rules u t

  normalize_with-IsRewritten :
      (rules : List (String × String)) (s : String) → IsRewritten rules s (normalize_with T rules s)
  unfolding normalize_with
  normalize_with-IsRewritten [] s = refl
  normalize_with-IsRewritten ((pattern, replacement) ∷ rules) s = (
    T.sub pattern replacement s,
    refl,
    normalize_with-IsRewritten rules (T.sub pattern replacement s),
  )

module _ (T : TextTools) (rules : List Rule) where
  -- The columns are those of this evidence: 12 digits of the hash of its normal form, which is
  -- lower case with its substitutions, and then its white space, replaced; and a class.
  pub record AreOf (evidence : String) (c : Columns) : Type 0 where
    pub rewritten : String
    pub is_rewritten : IsRewritten T normalizations (T.lower evidence) rewritten
    pub fingerprint :
        c.failure_fingerprint
        ≡ some (String.slice (T.sha256 (strip (T.sub "\\s+" " " rewritten))) 0 12)
    pub name : String
    pub named : c.failure_class ≡ some name
    pub is_class : IsClass T rules evidence name

  used :
      (step_message workflow_message : Value) (s : String)
      → or_else (usable_message step_message) (usable_message workflow_message) ≡ some s
      → usable_message (text s) ≡ some s
      → AreOf s (failure_columns T rules step_message workflow_message)
  unfolding failure_columns normalize_failure failure_class class_of_usable normalize_usable
      usable_message
  used step_message workflow_message s e again = record {
    rewritten = normalize_with T normalizations (T.lower s);
    is_rewritten = normalize_with-IsRewritten T normalizations (T.lower s);
    fingerprint = rw (e, again) refl;
    name = first_match T rules s;
    named = rw (e, again) refl;
    is_class = first_match-IsClass T rules s;
  }

  unused :
      (step_message workflow_message : Value)
      → or_else (usable_message step_message) (usable_message workflow_message) ≡ none
      → ((failure_columns T rules step_message workflow_message).failure_fingerprint ≡ none)
        × ((failure_columns T rules step_message workflow_message).failure_class ≡ none)
  unfolding failure_columns normalize_failure failure_class class_of_usable normalize_usable
      usable_message
  unused step_message workflow_message e = (rw e refl, rw e refl)

  -- The evidence is the step's message if that is a text that is not blank, and else the
  -- workflow's. With no evidence both columns are empty. With evidence the fingerprint is the first
  -- 12 digits of the hash of its normal form: lower case, with the substitutions made in their
  -- order, white space collapsed and the ends stripped; and the class is that of the first rule
  -- with a pattern found in the evidence itself, or `unknown` if there is none.
  pub failure_columns-IsClass :
      (step_message workflow_message : Value)
      → (HasNothing step_message
          × HasNothing workflow_message
          × ((failure_columns T rules step_message workflow_message).failure_fingerprint ≡ none)
          × ((failure_columns T rules step_message workflow_message).failure_class ≡ none))
        ⊎ ((evidence : String) × IsEvidence step_message workflow_message evidence
            × AreOf evidence (failure_columns T rules step_message workflow_message))
  failure_columns-IsClass step_message workflow_message = elim (message_cases step_message) [
    | inl (s, e, u) ↦ inr (
      s,
      inl u,
      used step_message workflow_message s (rw e refl) (ap usable_message (sym u.0) ∙ e),
    )
    | inr (n, none_there) ↦ elim (message_cases workflow_message) [
      | inl (s, e, u) ↦ inr (
        s,
        inr (none_there, u),
        used step_message workflow_message s (rw (n, e) refl) (ap usable_message (sym u.0) ∙ e),
      )
      | inr (m, none_here) ↦
          let (f, c) = unused step_message workflow_message (rw (n, m) refl) in
          inl (none_there, none_here, f, c)
    ]
  ]
