-- ===== src/Clock/Digits.antt =====
-- The fields of a time that `strftime` prints are read back by `strptime`.
use Prim.Native.Char.{Char, code}
use Prim.Native.String
use text.Mathlib.TextLemmas.{nil-append, cons-append}
use argo_workflows_exporter.Base.{
  ℕ, ◌+◌, ◌/◌, ◌%◌, ◌≤◌, String, ◌≡◌, refl, sym, subst, ◌⊎◌, inl, inr, some, arith,
}
use argo_workflows_exporter.Base.Text.{digit?}
use argo_workflows_exporter.Clock.{
  digit, pad2, digit_in, two, month2, day2, hour2, minute2, second2,
}

-- a character and the digit that it stands for
abbrev IsDigit : Char → ℕ → Type 0
IsDigit c n = (code c ≡ 48 + n) × (n ≤ 9)

below_ten :
    (n : ℕ)
    → n ≤ 9
    → (n ≡ 0)
      ⊎ (n ≡ 1)
      ⊎ (n ≡ 2)
      ⊎ (n ≡ 3)
      ⊎ (n ≡ 4)
      ⊎ (n ≡ 5)
      ⊎ (n ≡ 6)
      ⊎ (n ≡ 7)
      ⊎ (n ≡ 8)
      ⊎ (n ≡ 9)
below_ten n h = ground arith

abbrev Shows : ℕ → Type 0
Shows n = (c : Char) × (digit n ≡ String.◌∷◌ c "") × IsDigit c n

-- A digit is printed as one character.
digit-Shows : (n : ℕ) → n ≤ 9 → Shows n
unfolding digit
digit-Shows n h = elim (below_ten n h) [
  | inl e ↦ subst Shows (sym e) ("0", refl, (refl, omega arith))
  | inr (inl e) ↦ subst Shows (sym e) ("1", refl, (refl, omega arith))
  | inr (inr (inl e)) ↦ subst Shows (sym e) ("2", refl, (refl, omega arith))
  | inr (inr (inr (inl e))) ↦ subst Shows (sym e) ("3", refl, (refl, omega arith))
  | inr (inr (inr (inr (inl e)))) ↦ subst Shows (sym e) ("4", refl, (refl, omega arith))
  | inr (inr (inr (inr (inr (inl e))))) ↦ subst Shows (sym e) ("5", refl, (refl, omega arith))
  | inr (inr (inr (inr (inr (inr (inl e)))))) ↦ subst Shows (sym e) ("6", refl, (refl, omega arith))
  | inr (inr (inr (inr (inr (inr (inr (inl e))))))) ↦
      subst Shows (sym e) ("7", refl, (refl, omega arith))
  | inr (inr (inr (inr (inr (inr (inr (inr (inl e)))))))) ↦
      subst Shows (sym e) ("8", refl, (refl, omega arith))
  | inr (inr (inr (inr (inr (inr (inr (inr (inr e)))))))) ↦
      subst Shows (sym e) ("9", refl, (refl, omega arith))
]

-- two characters and the number that they stand for
pub record ShowsTwo (n : ℕ) : Type 0 where
  pub tens : Char
  pub ones : Char
  pub tens_code : code tens ≡ 48 + n / 10
  pub ones_code : code ones ≡ 48 + n % 10
  pub shown : (s : String) → String.◌++◌ (pad2 n) s ≡ String.◌∷◌ tens (String.◌∷◌ ones s)

pub pad2-ShowsTwo : (n : ℕ) → n ≤ 99 → ShowsTwo n
unfolding pad2
pad2-ShowsTwo n h =
    let (a, e, p) = digit-Shows (n / 10 % 10) (omega arith) in
    let (b, f, q) = digit-Shows (n % 10) (omega arith) in
    record {
      tens = a;
      ones = b;
      tens_code = omega (arith, p.0, h);
      ones_code = q.0;
      shown = λ s.
          rw
            (
              e,
              f,
              cons-append a "" (String.◌∷◌ b ""),
              nil-append (String.◌∷◌ b ""),
              cons-append a (String.◌∷◌ b "") s,
              cons-append b "" s,
              nil-append s,
            )
            refl;
    }

pub digit?-tens : (n : ℕ) (w : ShowsTwo n) → n ≤ 99 → digit? w.tens ≡ some (n / 10)
unfolding digit?
digit?-tens n w h = ground (arith, w.tens_code)

pub digit?-ones : (n : ℕ) (w : ShowsTwo n) → digit? w.ones ≡ some (n % 10)
unfolding digit?
digit?-ones n w = ground (arith, w.ones_code)

pub month2-ShowsTwo : (n : ℕ) (w : ShowsTwo n) → 1 ≤ n → n ≤ 12 → month2 w.tens w.ones ≡ some n
unfolding month2 two digit_in
month2-ShowsTwo n w l u = ground (arith, w.tens_code, w.ones_code)

pub day2-ShowsTwo : (n : ℕ) (w : ShowsTwo n) → 1 ≤ n → n ≤ 31 → day2 w.tens w.ones ≡ some n
unfolding day2 two digit_in
day2-ShowsTwo n w l u = rw (digit?-ones n w) (ground (arith, w.tens_code, w.ones_code))

pub hour2-ShowsTwo : (n : ℕ) (w : ShowsTwo n) → n ≤ 23 → hour2 w.tens w.ones ≡ some n
unfolding hour2 two digit_in
hour2-ShowsTwo n w u = rw (digit?-ones n w) (ground (arith, w.tens_code, w.ones_code))

pub minute2-ShowsTwo : (n : ℕ) (w : ShowsTwo n) → n ≤ 59 → minute2 w.tens w.ones ≡ some n
unfolding minute2 two digit_in
minute2-ShowsTwo n w u = rw (digit?-ones n w) (ground (arith, w.tens_code, w.ones_code))

pub second2-ShowsTwo : (n : ℕ) (w : ShowsTwo n) → n ≤ 59 → second2 w.tens w.ones ≡ some n
unfolding second2 two digit_in
second2-ShowsTwo n w u = ground (arith, w.tens_code, w.ones_code, minute2-ShowsTwo n w u)
