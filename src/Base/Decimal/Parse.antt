-- ===== src/Base/Decimal/Parse.antt =====
-- strconv.ParseInt in base 10 and 64 bits, as callers that drop its error use it: 0 for a syntax
-- error, the nearest integer for a value out of range.
use Prim.Native.Nat.{ℕ, zero, suc, ◌+◌, ◌-◌, ◌*◌, ◌/◌, ◌%◌, ◌^◌, ◌≤◌, ◌<◌}
use mathlib.Core.Bool.{◌&&◌}
use mathlib.Core.List.{[], ◌∷◌, ◌++◌}
use mathlib.Core.Logic.{◌≢◌}
use mathlib.Core.Option.{Option, none, some}
use mathlib.Core.Path.{◌≡◌, refl, sym, ap, subst, ◌∙◌}
use native.Mathlib.Omega.{arith}
use ssoc_broker.Base.Int.{ℤ, pos, negsuc, IsInt64}
use ssoc_broker.Base.Tests.{ltb, leb, ◌==◌, if◌then◌else◌}
use ssoc_broker.Base.Lists.{Text, All, All-append}
use ssoc_broker.Base.Decimal.{decimal_fuel, decimal, format_int, Unsigned, decimal-Unsigned}

-- The value read so far and the characters left; it stops when the value leaves 64 bits.
unfoldable pub digits : ℕ → Text → Option ℕ
digits acc [] = some acc
digits acc (c ∷ s) =
    let next = acc * 10 + (c - b'0') in
    let rest = digits next s in
    if leb b'0' c && leb c b'9'
    then (if ltb next (2 ^ 64) then rest else some (2 ^ 64 - 1))
    else none

unfoldable pub parse_uint : Text → Option ℕ
unfolding digits
parse_uint [] = none
parse_uint (c ∷ s) = digits 0 (c ∷ s)

unfoldable pub up_to_max : Option ℕ → ℤ
up_to_max none = pos 0
up_to_max (some n) = if ltb n (2 ^ 63) then pos n else pos (2 ^ 63 - 1)

unfoldable pub down_to_min : Option ℕ → ℤ
down_to_min none = pos 0
down_to_min (some zero) = pos 0
down_to_min (some (suc n)) = if ltb n (2 ^ 63) then negsuc n else negsuc (2 ^ 63 - 1)

unfoldable pub parse_int : Text → ℤ
unfolding parse_uint up_to_max down_to_min
parse_int [] = pos 0
parse_int (c ∷ s) =
    if c == b'-'
    then down_to_min (parse_uint s)
    else (if c == b'+' then up_to_max (parse_uint s) else up_to_max (parse_uint (c ∷ s)))

digits-append :
    (acc d v : ℕ) (s : Text)
    → digits acc s ≡ some v
    → d < 10
    → v * 10 + d < 2 ^ 64
    → digits acc (s ++ ((b'0' + d) ∷ [])) ≡ some (v * 10 + d)
unfolding digits
digits-append acc d v [] e h k = ground arith
digits-append acc d v (c ∷ s) e h k = ground (arith, digits-append (acc * 10 + (c - b'0')) d v s)

digits-decimal : (f n : ℕ) → n < f → n < 2 ^ 64 → digits 0 (decimal_fuel f n) ≡ some n
unfolding decimal_fuel digits
digits-decimal zero n h k = elim h [ ]
digits-decimal (suc f) n h k =
    ground (
      arith,
      digits-append 0 (n % 10) (n / 10) (decimal_fuel f (n / 10)),
      digits-decimal f (n / 10),
    )

-- No digit is a separator.
pub decimal-All : (f n : ℕ) → All (λ c. b'0' ≤ c) (decimal_fuel f n)
unfolding decimal_fuel
decimal-All zero n = tt
decimal-All (suc f) n = ground (
  arith,
  All-append (λ c. b'0' ≤ c) (decimal_fuel f (n / 10)) ((b'0' + n % 10) ∷ [])
      (decimal-All f (n / 10)) (omega arith, tt),
)

append_ne : (s : Text) (c : ℕ) → s ++ (c ∷ []) ≢ []
append_ne [] c e = cc
append_ne (d ∷ s) c e = cc

decimal_ne : (n : ℕ) → decimal n ≢ []
unfolding decimal decimal_fuel
decimal_ne n e = ground (arith, append_ne (decimal_fuel n (n / 10)) (b'0' + n % 10))

parse_uint-decimal : (n : ℕ) (s : Text) → s ≡ decimal n → n < 2 ^ 64 → parse_uint s ≡ some n
unfolding parse_uint decimal
parse_uint-decimal n [] e h = absurd (decimal_ne n (sym e))
parse_uint-decimal n (c ∷ s) e h = ap (digits 0) e ∙ digits-decimal (suc n) n (omega arith) h

parse_int-pos : (n : ℕ) (s : Text) → s ≡ decimal n → n < 2 ^ 63 → parse_int s ≡ pos n
unfolding parse_int decimal up_to_max
parse_int-pos n [] e h = absurd (decimal_ne n (sym e))
parse_int-pos n (c ∷ s) e h =
    let unsigned : b'0' ≤ c = subst Unsigned (sym e) (decimal-Unsigned (suc n) n) in
    ground (arith, parse_uint-decimal n (c ∷ s) e (omega arith))

-- An int64 that `FormatInt` printed, `ParseInt` reads back.
pub parse_int-format_int : (i : ℤ) → IsInt64 i → parse_int (format_int i) ≡ i
unfolding format_int parse_int down_to_min
parse_int-format_int (pos n) h = parse_int-pos n (decimal n) refl (omega arith)
parse_int-format_int (negsuc n) h =
    ground (arith, parse_uint-decimal (suc n) (decimal (suc n)) refl (omega arith))
