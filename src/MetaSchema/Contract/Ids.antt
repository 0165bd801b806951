-- ===== src/MetaSchema/Contract/Ids.antt =====
-- The generation id that `_run_cycle` of src/main.py makes has the form that `_GENERATION_ID` of
-- src/meta_schema.py asks for.
use Prim.Native.Char.{Char, code}
use Prim.Native.String
use text.Mathlib.TextLemmas.{nil-append, cons-append, append_assoc}
use argo_workflows_exporter.Base.{
  ℕ, ◌/◌, ◌%◌, ◌≤◌, String, ◌≡◌, refl, Bool, true, false, ◌&&◌, List, [], ◌∷◌, ◌++◌, arith, ◌==◌,
}
use argo_workflows_exporter.Clock.{Datetime, IsDatetime, pad2, strftime}
use argo_workflows_exporter.Clock.Digits.{pad2-ShowsTwo, digit?-tens, digit?-ones}
use argo_workflows_exporter.Clock.RoundTrip.{print_year-long, month_size}
use argo_workflows_exporter.MetaSchema.Schema.{
  Class, decimal, hex, literal, fits, full_match, timestamp_classes, suffix_classes, generation_id,
  matches,
}

-- `uuid.uuid4().hex[:12]`
abbrev pub hex_classes : List Class
hex_classes = hex ∷ hex ∷ hex ∷ hex ∷ hex ∷ hex ∷ hex ∷ hex ∷ hex ∷ hex ∷ hex ∷ hex ∷ []

and_true : (a b : Bool) → a ≡ true → b ≡ true → (a && b) ≡ true
and_true a b h k = ground arith

and_parts : (a b : Bool) → (a && b) ≡ true → (a ≡ true) × (b ≡ true)
and_parts true b h = (refl, h)
and_parts false b h = absurd (cc h)

full_match-append :
    (ks js : List Class) (s t : String)
    → full_match ks s ≡ true
    → full_match js t ≡ true
    → full_match (ks ++ js) (String.◌++◌ s t) ≡ true
unfolding full_match
full_match-append [] js String.[] t h k = rw (nil-append t) k
full_match-append [] js (String.◌∷◌ c s) t h k = absurd (cc h)
full_match-append (c ∷ ks) js String.[] t h k = absurd (cc h)
full_match-append (k ∷ ks) js (String.◌∷◌ c s) t h j =
    let (a, b) = and_parts (fits k c) (full_match ks s) h in
    rw (cons-append c s t) (and_true (fits k c) _ a (full_match-append ks js s t b j))

two-full_match :
    (n : ℕ) (ks : List Class) (s : String)
    → n ≤ 99
    → full_match ks s ≡ true
    → full_match (decimal ∷ decimal ∷ ks) (String.◌++◌ (pad2 n) s) ≡ true
unfolding full_match fits
two-full_match n ks s u h =
    let w = pad2-ShowsTwo n u in rw (w.shown s, digit?-tens n w u, digit?-ones n w) h

eq_self : (n : ℕ) → (n == n) ≡ true
eq_self n = ground arith

literal-full_match :
    (c : Char) (ks : List Class) (s : String)
    → full_match ks s ≡ true
    → full_match (literal (code c) ∷ ks) (String.◌++◌ (String.◌∷◌ c "") s) ≡ true
unfolding full_match fits
literal-full_match c ks s h =
    rw (cons-append c "" s, nil-append s) (and_true (code c == code c) _ (eq_self (code c)) h)

z_match : full_match (literal b'Z' ∷ []) "Z" ≡ true
unfolding full_match fits
z_match = refl

-- A printed time has the form of `_TIMESTAMP`.
strftime-full_match :
    (t : Datetime) → IsDatetime t → 1000 ≤ t.year → full_match timestamp_classes (strftime t) ≡ true
unfolding strftime
strftime-full_match t (_, y, _, m, _, d, h, mi, se) l =
    rw (print_year-long t.year l, append_assoc (pad2 (t.year / 100)) (pad2 (t.year % 100)))
      (two-full_match (t.year / 100) _ _ (omega (arith, y)) (
        two-full_match (t.year % 100) _ _ (omega arith) (
          literal-full_match "-" _ _ (
            two-full_match t.month _ _ (omega (arith, m)) (
              literal-full_match "-" _ _ (
                two-full_match t.day _ _ (omega (arith, d, month_size t.year t.month)) (
                  literal-full_match "T" _ _ (
                    two-full_match t.hour _ _ (omega (arith, h)) (
                      literal-full_match ":" _ _ (
                        two-full_match t.minute _ _ (omega (arith, mi)) (
                          literal-full_match ":" _ _
                            (two-full_match t.second _ _ (omega (arith, se)) z_match))))))))))))

-- A printed time, a dash and twelve lowercase hexadecimal digits are a generation id.
pub id-matches :
    (t : Datetime) (suffix : String)
    → IsDatetime t
    → 1000 ≤ t.year
    → full_match hex_classes suffix ≡ true
    → matches generation_id (String.◌++◌ (strftime t) (String.◌++◌ "-" suffix)) ≡ true
unfolding matches
id-matches t suffix h l x =
    full_match-append timestamp_classes suffix_classes (strftime t) (String.◌++◌ "-" suffix)
      (strftime-full_match t h l) (literal-full_match "-" hex_classes suffix x)
