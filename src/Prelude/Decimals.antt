-- ===== src/Prelude/Decimals.antt =====
-- Non-negative decimal numbers. A Python float is modelled by the decimal that `Decimal(str(x))`
-- gives, which is what the code computes with.
use Prim.Native.Nat.{ℕ, ◌*◌, ◌/◌, ◌%◌, ◌^◌}
use mathlib.Core.Bool.{Bool}
use mathlib.Core.Option.{Option, none, some}
use agentic_etf_advisor.Prelude.Tests.{leb, ◌==◌, if◌then◌else◌}
use agentic_etf_advisor.Prelude.Rounding.{half_up}

-- coefficient / 10 ^ scale
pub record Decimal : Type 0 where
  pub coefficient : ℕ
  pub scale : ℕ

abbrev pub whole : ℕ → Decimal
whole n = record { coefficient = n; scale = 0 }

-- `a <= b`, and `a == b` by value
unfoldable pub leb_dec : Decimal → Decimal → Bool
leb_dec a b = leb (a.coefficient * 10 ^ b.scale) (b.coefficient * 10 ^ a.scale)

unfoldable pub eqb_dec : Decimal → Decimal → Bool
eqb_dec a b = a.coefficient * 10 ^ b.scale == b.coefficient * 10 ^ a.scale

-- The value in hundredths, where it is a whole number of them.
unfoldable pub exact_hundredths : Decimal → Option ℕ
exact_hundredths d =
    if d.coefficient * 100 % 10 ^ d.scale == 0
    then some (d.coefficient * 100 / 10 ^ d.scale)
    else none

-- `quantize(Decimal("0.01"), rounding=ROUND_HALF_UP)`, in hundredths
unfoldable pub rounded_hundredths : Decimal → ℕ
rounded_hundredths d = half_up (d.coefficient * 100) (10 ^ d.scale)

-- `n` hundredths as a decimal
abbrev pub hundredths : ℕ → Decimal
hundredths n = record { coefficient = n; scale = 2 }
