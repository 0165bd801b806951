-- ===== src/Taxonomy/Loader.antt =====
-- `_load_failure_classes` of src/failure_taxonomy.py. What `open` and `yaml.safe_load` come to is an
-- argument, a value like one of JSON; `compile` is `re.compile`, a compiled pattern is known by its
-- source text, and the class of a rule may be any value.
use text.Mathlib.TextEquality.{eq_iff}
use argo_workflows_exporter.Base.{
  String, ◌≡◌, ◌≢◌, ◌↔◌, refl, sym, ap, subst, ◌∙◌, inl, inr, Bool, true, false, not, some,
  some_injective, List, [], ◌∷◌, map, arith, Bool-cases,
}
use argo_workflows_exporter.Base.Text.{text_eq}
use argo_workflows_exporter.Base.Lists.{All, any}
use argo_workflows_exporter.Base.Results.{
  Result, ok, err, value_error, type_error, attribute_error, re_error, ◌>>=◌, require, bind-eq-ok,
  ok_injective,
}
use argo_workflows_exporter.Json.{Value, nil, Fields, get, entries, items, or_value}
use argo_workflows_exporter.Taxonomy.{
  TextTools, Rule, first_match, usable_message, class_of_usable, failure_class,
}

-- a class and its patterns
abbrev pub LoadedRule : Type 0
LoadedRule = Value × List String

abbrev pub no_items : Value
no_items = Value.arr nil

-- `isinstance(entries, list)`
abbrev pub listed : Value → Result (List Value)
listed (Value.arr vs) = ok (items vs)
listed _ = err value_error

-- `entry.get`
abbrev pub mapping : Value → Result Fields
mapping (Value.obj fs) = ok fs
mapping _ = err attribute_error

unfoldable pub characters : String → List Value
characters String.[] = []
characters (String.◌∷◌ c s) = Value.text (String.◌∷◌ c "") ∷ characters s

-- the items that `for p in patterns` goes through
abbrev pub iterated : Value → Result (List Value)
iterated (Value.arr vs) = ok (items vs)
iterated (Value.text s) = ok (characters s)
iterated (Value.obj fs) = ok (map (λ (e : String × Value). Value.text e.0) (entries fs))
iterated _ = err type_error

abbrev pub is_unknown : Value → Bool
is_unknown (Value.text s) = text_eq s "unknown"
is_unknown _ = false

-- `except re.error`
abbrev pub reraised {ℓ} : {A : Type ℓ} → Result A → Result A
reraised (err re_error) = err value_error
reraised r = r

module _ (compile : Value → Result String) where
  unfoldable pub compile_all : List Value → Result (List String)
  compile_all [] = ok []
  compile_all (p ∷ ps) = do pattern ← compile p; patterns ← compile_all ps; ok (pattern ∷ patterns)

  unfoldable pub load_rule : Value → Result LoadedRule
  load_rule entry = do
    fs ← mapping entry
    known ← require (not (is_unknown (get "class" fs))) value_error
    patterns ← iterated (or_value (get "patterns" fs) no_items)
    compiled ← reraised (compile_all patterns)
    ok (get "class" fs, compiled)

  unfoldable pub load_rules : List Value → Result (List LoadedRule)
  load_rules [] = ok []
  load_rules (entry ∷ rest) = do rule ← load_rule entry; rules ← load_rules rest; ok (rule ∷ rules)

  unfoldable pub load_failure_classes : Result Value → Result (List LoadedRule)
  load_failure_classes loaded = do
    value ← loaded
    rows ← listed (or_value value no_items)
    load_rules rows

not-false : (b : Bool) → not b ≡ true → b ≡ false
not-false b h = ground arith

require-holds : (b : Bool) {u : Unit {0}} → require b value_error ≡ ok u → b ≡ true
require-holds true h = refl
require-holds false h = absurd (cc h)

abbrev IsKnown : LoadedRule → Type 0
IsKnown rule = is_unknown rule.0 ≡ false

module _ (compile : Value → Result String) where
  load_rule-IsKnown :
      (entry : Value) (rule : LoadedRule) → load_rule compile entry ≡ ok rule → IsKnown rule
  unfolding load_rule
  load_rule-IsKnown entry rule h =
      let (fs, e, h) = bind-eq-ok (mapping entry) _ h in
      let (u, k, h) = bind-eq-ok (require (not (is_unknown (get "class" fs))) value_error) _ h in
      let (ps, i, h) = bind-eq-ok (iterated (or_value (get "patterns" fs) no_items)) _ h in
      let (cs, c, h) = bind-eq-ok (reraised (compile_all compile ps)) _ h in
      subst IsKnown (ok_injective h) (not-false (is_unknown (get "class" fs)) (require-holds _ k))

  load_rules-IsKnown :
      (rows : List Value) (rules : List LoadedRule)
      → load_rules compile rows ≡ ok rules
      → All IsKnown rules
  unfolding load_rules
  load_rules-IsKnown [] rules h = subst (All IsKnown) (ok_injective h) tt
  load_rules-IsKnown (entry ∷ rest) rules h =
      let (r, e, h) = bind-eq-ok (load_rule compile entry) _ h in
      let (rs, f, h) = bind-eq-ok (load_rules compile rest) _ h in
      subst (All IsKnown) (ok_injective h)
        (load_rule-IsKnown entry r e, load_rules-IsKnown rest rs f)

  load_failure_classes-IsKnown :
      (loaded : Result Value) (rules : List LoadedRule)
      → load_failure_classes compile loaded ≡ ok rules
      → All IsKnown rules
  unfolding load_failure_classes
  load_failure_classes-IsKnown loaded rules h =
      let (v, e, h) = bind-eq-ok loaded _ h in
      let (rows, l, h) = bind-eq-ok (listed (or_value v no_items)) _ h in
      load_rules-IsKnown rows rules h

-- rules whose classes are texts, as they are loaded
abbrev pub as_loaded : List Rule → List LoadedRule
as_loaded = map (λ (r : Rule). (Value.text r.0, r.1))

module _ (T : TextTools) (message : String) where
  -- no pattern of the rule matches
  abbrev pub IsUnmatched : Rule → Type 0
  IsUnmatched rule = any (λ p. T.search p message) rule.1 ≡ false

  unknown_iff :
      (rules : List Rule)
      → All IsKnown (as_loaded rules)
      → (first_match T rules message ≡ "unknown") ↔ All IsUnmatched rules
  unfolding first_match
  unknown_iff [] k = (λ h. tt, λ h. refl)
  unknown_iff ((name, patterns) ∷ rules) k =
      elim (Bool-cases (any (λ p. T.search p message) patterns)) [
        | inl e ↦ rw e (
          λ h. absurd (true≢false (sym ((eq_iff name "unknown").1 h) ∙ k.0)),
          λ h. absurd (true≢false h.0),
        )
        | inr e ↦
            rw e (λ h. (refl, (unknown_iff rules k.1).0 h), λ h. (unknown_iff rules k.1).1 h.1)
      ]
    where
      true≢false : true ≢ false
      true≢false h = cc h

-- With rules that were loaded from the table, the class of a usable message is "unknown" exactly if
-- no pattern of any rule matches it: no rule of the table can claim that name.
pub failure_class-unknown :
    (compile : Value → Result String) (loaded : Result Value) (T : TextTools) (rules : List Rule)
    (message : String)
    → load_failure_classes compile loaded ≡ ok (as_loaded rules)
    → usable_message (Value.text message) ≡ some message
    → (failure_class T rules (Value.text message) ≡ some "unknown")
      ↔ All (IsUnmatched T message) rules
unfolding failure_class class_of_usable
failure_class-unknown compile loaded T rules message l u =
    let (a, b) =
      unknown_iff T message rules
        (load_failure_classes-IsKnown compile loaded (as_loaded rules) l) in
    rw u (λ h. a (some_injective h), λ h. ap some (b h))
