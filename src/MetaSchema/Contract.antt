-- ===== src/MetaSchema/Contract.antt =====
-- What the schema documents mean, said without an error list, and that `_check` decides it.
pub mod Sidecar
mod Stats
pub mod Publishable
pub mod Ids
use argo_workflows_exporter.Base.{
  ℕ, zero, suc, ◌≤◌, String, ◌≡◌, refl, sym, ap, ◌∙◌, ◌↔◌, Bool, true, false, Option, none, some,
  subst, List, [], ◌∷◌, ◌++◌, inl, inr, arith, leb, Bool-cases, Option-cases, if◌then◌else◌,
}
use mathlib.Core.Option.{some-injective}
use argo_workflows_exporter.Base.Lists.{All, length}
use argo_workflows_exporter.Base.Dict.{Dict, lookup, has, string_eq}
use argo_workflows_exporter.Base.Int.{ℤ, ltb_ℤ, ◌≤ℤ◌}
use argo_workflows_exporter.Clock.{Datetime, strptime}
use argo_workflows_exporter.Json.{
  Value, Fields, entries, as_obj, as_arr, as_text, as_int, as_bool, is_some,
}
use argo_workflows_exporter.MetaSchema.Schema.{
  Where, member, index, Violation, Pattern, Rule, object_rule, array_rule, string_rule,
  integer_rule, boolean_rule, Properties, no_property, property, matches, has_property, char_count,
  report, check_required, check_expected, check_items, check_string, check_integer, check,
  check_properties, missing_field, unexpected_field, too_few_items, empty_string, pattern_mismatch,
  not_a_time, each, typed, Kind,
}

abbrev pub FitsPattern : Option Pattern → String → Type 0
FitsPattern none s = Unit
FitsPattern (some p) s = matches p s ≡ true

abbrev pub FitsFormat : Bool → String → Type 0
FitsFormat false s = Unit
FitsFormat true s = (t : Datetime) × (strptime s ≡ some t)

abbrev pub FitsMinimum : Option ℤ → ℤ → Type 0
FitsMinimum none n = Unit
FitsMinimum (some m) n = m ≤ℤ n

abbrev mutual
  -- `v` is a value of the schema `r`
  pub Conforms : Rule → Value → Type 0
  Conforms (object_rule required ps) v =
      (fs : Fields) × (as_obj v ≡ some fs)
      × (All (λ k. has k (entries fs) ≡ true) required
          × All (λ (k, _). has_property k ps ≡ true) (entries fs)
          × ConformsAll ps (entries fs))
  Conforms (array_rule min_items r) v =
      (vs : List Value) × (as_arr v ≡ some vs) × ((min_items ≤ length vs) × All (Conforms r) vs)
  Conforms (string_rule min_length pattern timed) v =
      (s : String) × (as_text v ≡ some s)
      × ((min_length ≤ char_count s) × FitsPattern pattern s × FitsFormat timed s)
  Conforms (integer_rule minimum) v = (n : ℤ) × (as_int v ≡ some n) × FitsMinimum minimum n
  Conforms boolean_rule v = (b : Bool) × (as_bool v ≡ some b)

  pub ConformsAll : Properties → Dict String Value → Type 0
  ConformsAll no_property d = Unit
  ConformsAll (property k r ps) d =
      ((v : Value) → lookup k d ≡ some v → Conforms r v) × ConformsAll ps d

append_nil : {A : Type 0} (xs ys : List A) → xs ++ ys ≡ [] → (xs ≡ []) × (ys ≡ [])
append_nil [] ys h = (refl, h)
append_nil (x ∷ xs) ys h = absurd (cc h)

nil_append : {A : Type 0} {xs ys : List A} → xs ≡ [] → ys ≡ [] → xs ++ ys ≡ []
nil_append p q = rw (p, q)

report_nil : (b : Bool) (v : Violation) → report b v ≡ [] → b ≡ true
report_nil true v h = refl
report_nil false v h = absurd (cc h)

pub report_iff : {P : Type 0} (b : Bool) (v : Violation) → (b ≡ true) ↔ P → (report b v ≡ []) ↔ P
report_iff true v (f, g) = (λ h. f refl, λ p. refl)
report_iff false v (f, g) = (λ h. absurd (cc h), λ p. absurd (cc (g p)))

required_iff :
    (d : Dict String Value) (ks : List String) (w : Where)
    → (check_required d ks w ≡ []) ↔ All (λ k. has k d ≡ true) ks
unfolding check_required
required_iff d [] w = (λ h. tt, λ h. refl)
required_iff d (k ∷ ks) w = (
  λ h.
      let (a, b) = append_nil (report (has k d) (missing_field w k)) (check_required d ks w) h in
      (report_nil (has k d) (missing_field w k) a, (required_iff d ks w).0 b),
  λ h. rw h.0 ((required_iff d ks w).1 h.1),
)

expected_iff :
    (d : Dict String Value) (ps : Properties) (w : Where)
    → (check_expected d ps w ≡ []) ↔ All (λ (k, _). has_property k ps ≡ true) d
unfolding check_expected
expected_iff [] ps w = (λ h. tt, λ h. refl)
expected_iff ((k, v) ∷ d) ps w = (
  λ h.
      let (a, b) =
        append_nil (report (has_property k ps) (unexpected_field w k)) (check_expected d ps w) h in
      (report_nil (has_property k ps) (unexpected_field w k) a, (expected_iff d ps w).0 b),
  λ h. rw h.0 ((expected_iff d ps w).1 h.1),
)

format_iff :
    (timed : Bool) (s : String) (w : Where)
    → ((if timed then report (is_some (strptime s)) (not_a_time w) else []) ≡ [])
      ↔ FitsFormat timed s
format_iff false s w = (λ h. tt, λ h. refl)
format_iff true s w = elim (Option-cases (strptime s)) [
  | inl e ↦ rw e (λ h. absurd (cc h), λ (t, h). absurd (cc h))
  | inr (t, e) ↦ rw e (λ h. (t, refl), λ h. refl)
]

pattern_iff :
    (p : Option Pattern) (s : String) (w : Where)
    → (each p (λ q. report (matches q s) (pattern_mismatch w)) ≡ []) ↔ FitsPattern p s
pattern_iff none s w = (λ h. tt, λ h. refl)
pattern_iff (some q) s w = (λ h. report_nil (matches q s) (pattern_mismatch w) h, λ h. rw h)

length_iff : (m n : ℕ) (v : Violation) → (report (leb m n) v ≡ []) ↔ (m ≤ n)
length_iff m n v = ground arith

string_iff :
    (n : ℕ) (p : Option Pattern) (timed : Bool) (s : String) (w : Where)
    → (check_string n p timed s w ≡ [])
      ↔ ((n ≤ char_count s) × FitsPattern p s × FitsFormat timed s)
unfolding check_string
string_iff n p timed s w = (
  λ h.
      let (a, rest) = append_nil (report (leb n (char_count s)) (empty_string w)) _ h in
      let (b, c) = append_nil (each p (λ q. report (matches q s) (pattern_mismatch w))) _ rest in
      (
        (length_iff n (char_count s) (empty_string w)).0 a,
        (pattern_iff p s w).0 b,
        (format_iff timed s w).0 c,
      ),
  λ (a, b, c).
      nil_append ((length_iff n (char_count s) (empty_string w)).1 a)
        (nil_append ((pattern_iff p s w).1 b) ((format_iff timed s w).1 c)),
)

integer_iff : (m : Option ℤ) (n : ℤ) (w : Where) → (check_integer m n w ≡ []) ↔ FitsMinimum m n
unfolding check_integer
integer_iff none n w = (λ h. tt, λ h. refl)
integer_iff (some m) n w = ground arith

module _ {A : Type 0} (P : A → Type 0) (f : A → List Violation)
    (step : (a : A) → (f a ≡ []) ↔ P a) where
  typed_iff :
      (o : Option A) (k : Kind) (w : Where) → (typed o k w f ≡ []) ↔ ((a : A) × (o ≡ some a) × P a)
  typed_iff none k w = (λ h. absurd (cc h), λ (a, e, p). absurd (cc e))
  typed_iff (some a) k w = (
    λ h. (a, refl, (step a).0 h),
    λ (b, e, p). (step a).1 (subst P (sym (some-injective a b e)) p),
  )

  each_iff : (o : Option A) → (each o f ≡ []) ↔ ((a : A) → o ≡ some a → P a)
  each_iff none = (λ h a e. absurd (cc e), λ h. refl)
  each_iff (some a) =
      (λ h b e. subst P (some-injective a b e) ((step a).0 h), λ h. (step a).1 (h a refl))

module _ (P : Value → Type 0) (f : Value → Where → List Violation)
    (step : (v : Value) (w : Where) → (f v w ≡ []) ↔ P v) where
  items_iff : (vs : List Value) (w : Where) (i : ℕ) → (check_items f vs w i ≡ []) ↔ All P vs
  unfolding check_items
  items_iff [] w i = (λ h. tt, λ h. refl)
  items_iff (v ∷ vs) w i = (
    λ h.
        let (a, b) = append_nil (f v (index w i)) (check_items f vs w (suc i)) h in
        ((step v (index w i)).0 a, (items_iff vs w (suc i)).0 b),
    λ h. nil_append ((step v (index w i)).1 h.0) ((items_iff vs w (suc i)).1 h.1),
  )

pub append_iff :
    {A P Q : Type 0} {xs ys : List A} → (xs ≡ []) ↔ P → (ys ≡ []) ↔ Q → (xs ++ ys ≡ []) ↔ (P × Q)
append_iff {xs = xs} {ys = ys} p q =
    (λ h. let (a, b) = append_nil xs ys h in (p.0 a, q.0 b), λ (a, b). nil_append (p.1 a) (q.1 b))

mutual
  unfolding check

  check_iff : (r : Rule) (v : Value) (w : Where) → (check r v w ≡ []) ↔ Conforms r v
  check_iff (object_rule required ps) v w =
      typed_iff
        (λ fs.
          All (λ k. has k (entries fs) ≡ true) required
          × All (λ (k, _). has_property k ps ≡ true) (entries fs)
          × ConformsAll ps (entries fs))
        _
        (λ fs.
          let (into, from) =
            append_iff (required_iff (entries fs) required w)
              (append_iff (expected_iff (entries fs) ps w) (properties_iff ps (entries fs) w)) in
          (λ h. let (a, b) = into h in (a, b.0, b.1), λ (a, b, c). from (a, (b, c))))
        (as_obj v) Kind.object w
  check_iff (array_rule min_items r) v w =
      typed_iff (λ vs. (min_items ≤ length vs) × All (Conforms r) vs) _
        (λ vs.
          append_iff (length_iff min_items (length vs) (too_few_items w))
            (items_iff (Conforms r) (check r) (λ u x. check_iff r u x) vs w 0))
        (as_arr v) Kind.array w
  check_iff (string_rule n p timed) v w =
      typed_iff (λ s. (n ≤ char_count s) × FitsPattern p s × FitsFormat timed s) _
        (λ s. string_iff n p timed s w) (as_text v) Kind.string w
  check_iff (integer_rule m) v w =
      typed_iff (FitsMinimum m) _ (λ n. integer_iff m n w) (as_int v) Kind.integer w
  check_iff boolean_rule v w =
      let (into, from) =
        typed_iff (λ _. Unit {0}) _ (λ b. (λ h. tt, λ h. refl)) (as_bool v) Kind.boolean w in
      (λ h. let (b, e, u) = into h in (b, e), λ (b, e). from (b, e, tt))

  properties_iff :
      (ps : Properties) (d : Dict String Value) (w : Where)
      → (check_properties ps d w ≡ []) ↔ ConformsAll ps d
  properties_iff no_property d w = (λ h. tt, λ h. refl)
  properties_iff (property k r ps) d w =
      append_iff (each_iff (Conforms r) _ (λ v. check_iff r v (member w k)) (lookup k d))
        (properties_iff ps d w)

-- The checker appends no violation to its list exactly if the value conforms to the schema.
pub check-Conforms : (r : Rule) (v : Value) (w : Where) → (check r v w ≡ []) ↔ Conforms r v
check-Conforms = check_iff
