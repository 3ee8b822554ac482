-- ===== src/Base/Numerals/RoundTrip.antt =====
-- A number is read back from its print.
use Prim.Native.Nat.{ℕ, zero, suc, ◌+◌, ◌-◌, ◌*◌, ◌/◌, ◌%◌, ◌<◌}
use mathlib.Core.Bool.{false}
use mathlib.Core.List.{[], ◌∷◌, cons-ne-nil}
use mathlib.Core.Logic.{◌≢◌, ite, dite}
use mathlib.Core.Option.{some}
use mathlib.Core.Path.{◌≡◌, refl, ◌∙◌, sym, subst, ap}
use mathlib.Core.WellFounded
use mathlib.Core.WellFounded.{Acc, Acc-prop}
use native.Mathlib.Decide.{dec_lt}
use native.Mathlib.Omega.{arith}
use yyckv.Base.Tests.{ltb, leb}
use yyckv.Base.Lists.{All}
use yyckv.Base.Strings.{Text}
use yyckv.Base.Word.{modulus}
use yyckv.Base.Numerals.{
  Base, decimal, hexadecimal, radix, digit, digit_value, lt_wf, quotient_below, emit, digits,
  format_uint, scan, parse_uint,
}

below-radix : (b : Base) (n : ℕ) → n % radix b < radix b
below-radix decimal n = omega arith
below-radix hexadecimal n = omega arith

pub digit_value-digit : (b : Base) (n : ℕ) → digit_value (digit (n % radix b)) ≡ some (n % radix b)
unfolding digit_value digit
digit_value-digit decimal n = ground arith
digit_value-digit hexadecimal n = ground arith

-- Any two proofs of `Acc` are equal.
emit_round :
    (b : Base) (n : ℕ) (w : Acc ◌<◌ n) (w' : Acc ◌<◌ (n / radix b)) (out : Text)
    → emit b n w out ≡ ite (dec_lt 0 n) (emit b (n / radix b) w' (digit (n % radix b) ∷ out)) out
unfolding emit
emit_round b n (Acc.intro _ smaller) w' out = λ i.
    dite (dec_lt 0 n)
      (λ h.
        emit b (n / radix b) (Acc-prop (smaller (n / radix b) (quotient_below b n h)) w' i)
          (digit (n % radix b) ∷ out))
      (λ _. out)

pub digits_round :
    (b : Base) (n : ℕ) (out : Text)
    → digits b n out ≡ ite (dec_lt 0 n) (digits b (n / radix b) (digit (n % radix b) ∷ out)) out
unfolding digits
digits_round b n = emit_round b n _ _

scan_tests :
    (b : Base) (n : ℕ)
    → n < modulus
    → (leb (radix b) (n % radix b) ≡ false)
      × (leb ((modulus - 1) / radix b + 1) (n / radix b) ≡ false)
      × ((n / radix b * radix b + n % radix b) % modulus ≡ n)
      × (ltb n (n / radix b * radix b % modulus) ≡ false)
scan_tests decimal n h = (ground arith, ground arith, omega arith, ground arith)
scan_tests hexadecimal n h = (ground arith, ground arith, omega arith, ground arith)

scan-digit :
    (b : Base) (n : ℕ) (out : Text)
    → n < modulus
    → scan b (digit (n % radix b) ∷ out) (n / radix b) ≡ scan b out n
unfolding scan
scan-digit b n out h =
    let (is_digit, low, exact, mono) = scan_tests b n h in
    rw (scan, digit_value-digit b n, is_digit, low, exact, mono) refl

scan-digits :
    (b : Base) (n : ℕ) (out : Text) → n < modulus → scan b (digits b n out) 0 ≡ scan b out n
scan-digits b n =
    WellFounded.induction lt_wf
      {C = λ m. (out : Text) → m < modulus → scan b (digits b m out) 0 ≡ scan b out m} n
      λ m ih out fits.
        grind
          (arith, digits_round b m out, scan-digit b m out, ih (m / radix b), quotient_below b m)

-- Printable bytes of ASCII, not the blank.
abbrev pub IsPlain : Text → Type 0
IsPlain = All λ c. (32 < c) × (c < 128)

digit-plain : (b : Base) (n : ℕ) → (32 < digit (n % radix b)) × (digit (n % radix b) < 128)
unfolding digit
digit-plain decimal n = ground arith
digit-plain hexadecimal n = ground arith

-- Such bytes, and at least one.
abbrev pub IsNumeral : Text → Type 0
IsNumeral t = IsPlain t × (t ≢ [])

ite_lem :
    {A : Type 0} (d : Dec A) (x y : Text)
    → (A → IsNumeral x)
    → (¬ A → IsNumeral y)
    → IsNumeral (ite d x y)
ite_lem (yes a) x y hx hy = hx a
ite_lem (no a) x y hx hy = hy a

digits-IsNumeral : (b : Base) (n : ℕ) (out : Text) → IsNumeral out → IsNumeral (digits b n out)
digits-IsNumeral b n =
    WellFounded.induction lt_wf {C = λ m. (out : Text) → IsNumeral out → IsNumeral (digits b m out)}
      n
      λ m ih out h. subst IsNumeral (sym (digits_round b m out)) (
        ite_lem (dec_lt 0 m) _ out
          (λ pos.
            ih (m / radix b) (quotient_below b m pos) _ ((digit-plain b m, h.0), cons-ne-nil _ _))
          (λ _. h))

format_uint-digits : (b : Base) (n : ℕ) → 0 < n → format_uint b n ≡ digits b n []
unfolding format_uint
format_uint-digits b n h = ground arith

pub format_uint-IsNumeral : (b : Base) (n : ℕ) → IsNumeral (format_uint b n)
unfolding format_uint
format_uint-IsNumeral b zero = ((ground arith, tt), cons-ne-nil _ _)
format_uint-IsNumeral b (suc n) =
    subst IsNumeral (sym (format_uint-digits b (suc n) (omega arith) ∙ digits_round b (suc n) [])) (
      ite_lem (dec_lt 0 (suc n)) _ []
        (λ _. digits-IsNumeral b (suc n / radix b) _ ((digit-plain b (suc n), tt), cons-ne-nil _ _))
        (λ none. absurd (none (omega arith))))

scan-format_uint : (b : Base) (n : ℕ) → n < modulus → scan b (format_uint b n) 0 ≡ some n
unfolding format_uint scan
scan-format_uint decimal zero h = refl
scan-format_uint hexadecimal zero h = refl
scan-format_uint b (suc n) h =
    ap (λ t. scan b t 0) (format_uint-digits b (suc n) (omega arith)) ∙ scan-digits b (suc n) [] h

parse_uint-scan : (b : Base) (s : Text) → s ≢ [] → parse_uint b s ≡ scan b s 0
unfolding parse_uint
parse_uint-scan b [] h = absurd (h refl)
parse_uint-scan b (c ∷ s) _ = refl

-- A `uint64` is read back from its print.
pub parse_uint-format_uint :
    (b : Base) (n : ℕ) → n < modulus → parse_uint b (format_uint b n) ≡ some n
parse_uint-format_uint b n h =
    parse_uint-scan b (format_uint b n) (format_uint-IsNumeral b n).1 ∙ scan-format_uint b n h
