-- ===== src/Base/Decimal.antt =====
-- strconv.FormatInt in base 10, and that two integers never print alike.
pub mod Parse
use Prim.Native.Nat.{ℕ, zero, suc, ◌+◌, ◌-◌, ◌*◌, ◌/◌, ◌%◌, ◌≤◌, ◌<◌}
use mathlib.Core.List.{[], ◌∷◌, ◌++◌}
use mathlib.Core.Path.{◌≡◌, refl, sym, ap, ◌∙◌}
use native.Mathlib.Omega.{arith}
use ssoc_broker.Base.Int.{ℤ, pos, negsuc}
use ssoc_broker.Base.Tests.{ltb, if◌then◌else◌}
use ssoc_broker.Base.Lists.{Text}

-- The digits of `n`, by the last one first; the fuel bounds their number.
unfoldable pub decimal_fuel : ℕ → ℕ → Text
decimal_fuel zero n = []
decimal_fuel (suc f) n =
    let front = decimal_fuel f (n / 10) in
    if ltb n 10 then (b'0' + n) ∷ [] else front ++ ((b'0' + n % 10) ∷ [])

unfoldable pub decimal : ℕ → Text
unfolding decimal_fuel
decimal n = decimal_fuel (suc n) n

-- `strconv.FormatInt(i, 10)`.
unfoldable pub format_int : ℤ → Text
unfolding decimal
format_int (pos n) = decimal n
format_int (negsuc n) = b'-' ∷ decimal (suc n)

read : ℕ → Text → ℕ
read acc [] = acc
read acc (c ∷ s) = read (acc * 10 + (c - b'0')) s

read-append : (acc : ℕ) (s t : Text) → read acc (s ++ t) ≡ read (read acc s) t
unfolding read
read-append acc [] t = refl
read-append acc (c ∷ s) t = read-append (acc * 10 + (c - b'0')) s t

read-decimal : (f n : ℕ) → n < f → read 0 (decimal_fuel f n) ≡ n
unfolding read decimal_fuel
read-decimal zero n h = elim h [ ]
read-decimal (suc f) n h =
    ground (
      arith,
      read-append 0 (decimal_fuel f (n / 10)) ((b'0' + n % 10) ∷ []),
      read-decimal f (n / 10),
    )

decimal-injective : (m n : ℕ) → decimal m ≡ decimal n → m ≡ n
unfolding decimal
decimal-injective m n e =
    sym (read-decimal (suc m) m (omega arith))
    ∙ ap (read 0) e
    ∙ read-decimal (suc n) n (omega arith)

-- No digit is a sign.
abbrev pub Unsigned : Text → Type 0
Unsigned [] = Unit
Unsigned (c ∷ s) = b'0' ≤ c

Unsigned-append : (s : Text) (c : ℕ) → b'0' ≤ c → Unsigned s → Unsigned (s ++ (c ∷ []))
Unsigned-append [] c h u = h
Unsigned-append (d ∷ s) c h u = u

pub decimal-Unsigned : (f n : ℕ) → Unsigned (decimal_fuel f n)
unfolding decimal_fuel
decimal-Unsigned zero n = tt
decimal-Unsigned (suc f) n = ground (
  arith,
  Unsigned-append (decimal_fuel f (n / 10)) (b'0' + n % 10) (omega arith)
      (decimal-Unsigned f (n / 10)),
)

Unsigned-ne : (s t : Text) → Unsigned s → s ≡ b'-' ∷ t → ⊥
Unsigned-ne [] t u e = cc
Unsigned-ne (c ∷ s) t u e = ground arith

pub format_int-injective : (i j : ℤ) → format_int i ≡ format_int j → i ≡ j
unfolding format_int
format_int-injective (pos m) (pos n) e = ap pos (decimal-injective m n e)
format_int-injective (pos m) (negsuc n) e =
    absurd (Unsigned-ne (decimal m) _ (decimal-Unsigned (suc m) m) e)
format_int-injective (negsuc m) (pos n) e =
    absurd (Unsigned-ne (decimal n) _ (decimal-Unsigned (suc n) n) (sym e))
format_int-injective (negsuc m) (negsuc n) e =
    let p : decimal (suc m) ≡ decimal (suc n) = cc in
    let q : suc m ≡ suc n = decimal-injective (suc m) (suc n) p in ap negsuc (omega arith)
