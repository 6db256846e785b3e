-- ===== src/Common/Ratio.antt =====
-- Exact fractions, for the source's quotients and percentages. A fraction is used only with a
-- positive denominator: the code's division by zero is an error of its own.
use Prim.Native.Nat.{ℕ, zero, suc, ◌*◌}
use mathlib.Core.Option.{Option, none, some}
use mathlib.Core.Bool.{Bool}
use wheelbot.Common.Int.{ℤ, pos, negsuc, ◌*ℤ◌, ◌-ℤ◌, ltb_ℤ, leb_ℤ}

pub record Ratio : Type 0 where
  pub num : ℤ
  pub den : ℕ

-- An integer as a fraction.
abbrev pub whole : ℤ → Ratio
whole n = record { num = n; den = 1 }

-- `a / n`, for a count `n` that is not zero.
abbrev pub quotient : ℤ → ℕ → Ratio
quotient a n = record { num = a; den = n }

-- `a < b`, by cross multiplication.
abbrev pub ltb_ratio : Ratio → Ratio → Bool
ltb_ratio a b = ltb_ℤ (a.num *ℤ pos b.den) (b.num *ℤ pos a.den)

abbrev pub leb_ratio : Ratio → Ratio → Bool
leb_ratio a b = leb_ℤ (a.num *ℤ pos b.den) (b.num *ℤ pos a.den)

-- The amount `amount * (pct / 100)`.
abbrev pub percent_of : ℤ → Ratio → Ratio
percent_of amount pct = record { num = amount *ℤ pct.num; den = 100 * pct.den }

-- `a / b`, and none where the source divides by zero.
abbrev pub divide : ℤ → ℤ → Option Ratio
divide a (pos zero) = none
divide a (pos (suc n)) = some (record { num = a; den = suc n })
divide a (negsuc n) = some (record { num = pos 0 -ℤ a; den = suc n })

abbrev pub times_100 : Ratio → Ratio
times_100 r = record { num = r.num *ℤ pos 100; den = r.den }
