-- ===== src/Base/Numerals.antt =====
-- `FormatUint` and `ParseUint` of strconv, in the bases that are used. What `ParseUint` returns with an error
-- is not read by its callers.
use Prim.Native.Nat.{ℕ, zero, suc, ◌+◌, ◌-◌, ◌*◌, ◌/◌, ◌%◌, ◌<◌}
use mathlib.Core.Bool.{Bool, true, false, ◌||◌, ◌&&◌}
use mathlib.Core.List.{[], ◌∷◌}
use mathlib.Core.Logic.{dite}
use mathlib.Core.Option.{Option, none, some}
use mathlib.Core.WellFounded.{Acc, WellFounded}
use native.Mathlib.Decide.{dec_lt}
use native.Mathlib.Omega.{arith}
use yyckv.Base.Tests.{ltb, leb, ◌==◌, if◌then◌else◌}
use yyckv.Base.Strings.{Text}
use yyckv.Base.Word.{modulus}
pub mod RoundTrip

pub data Base : Type 0 where
  decimal hexadecimal : Base

abbrev pub radix : Base → ℕ
radix decimal = 10
radix hexadecimal = 16

-- The digit with the value `d`, and the value of a byte: capital letters count as small ones.
unfoldable pub digit : ℕ → ℕ
digit d = if ltb d 10 then b'0' + d else b'a' + (d - 10)

unfoldable pub digit_value : ℕ → Option ℕ
digit_value c =
    if leb b'0' c && leb c b'9'
    then some (c - b'0')
    else if leb b'a' c && leb c b'z'
    then some (c - b'a' + 10)
    else if leb b'A' c && leb c b'Z'
    then some (c - b'A' + 10)
    else none

unfoldable pub lt_wf : WellFounded ◌<◌
lt_wf = record { apply = λ n. reached (suc n) n (omega arith) }
  where
    reached : (k n : ℕ) → n < k → Acc ◌<◌ n
    reached zero n h = absurd (omega arith)
    reached (suc k) n h = Acc.intro n λ m lt. reached k m (omega arith)

pub quotient_below : (b : Base) (n : ℕ) → 0 < n → n / radix b < n
quotient_below decimal n h = omega arith
quotient_below hexadecimal n h = omega arith

unfoldable pub emit : (b : Base) (n : ℕ) → Acc ◌<◌ n → Text → Text
unfolding digit
emit b n (Acc.intro _ smaller) out =
    dite (dec_lt 0 n)
      (λ h.
        emit b (n / radix b) (smaller (n / radix b) (quotient_below b n h))
          (digit (n % radix b) ∷ out))
      (λ _. out)

-- The digits of `n` in front of `out`: each round of the loop divides by the base.
unfoldable pub digits : Base → ℕ → Text → Text
digits b n = emit b n (lt_wf.apply n)

unfoldable pub format_uint : Base → ℕ → Text
format_uint b n = if n == 0 then b'0' ∷ [] else digits b n []

-- The loop over the bytes, with the bounds of a `uint64`.
unfoldable pub scan : Base → Text → ℕ → Option ℕ
unfolding digit_value
scan b [] n = some n
scan b (c ∷ s) n = elim (digit_value c) [
  | none ↦ none
  | some d ↦
      if leb (radix b) d
      then none
      else if leb ((modulus - 1) / radix b + 1) n
      then none
      else let next = (n * radix b + d) % modulus in
        if ltb next (n * radix b % modulus) then none else scan b s next
]

unfoldable pub parse_uint : Base → Text → Option ℕ
unfolding scan
parse_uint b [] = none
parse_uint b (c ∷ s) = scan b (c ∷ s) 0
