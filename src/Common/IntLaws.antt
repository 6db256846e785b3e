-- ===== src/Common/IntLaws.antt =====
-- Laws of the products of integers.
use Prim.Native.Nat.{ℕ, ◌+◌, ◌*◌}
use mathlib.Core.Path.{◌≡◌, ap}
use native.Mathlib.Omega.{arith}
use wheelbot.Common.Int.{ℤ, pos, negsuc, pos_part, neg_part, ◌-ℤ◌, ◌*ℤ◌, -ℤ_parts, eq_of_parts}

pub *ℤ_parts :
    (a b : ℤ)
    → pos_part (a *ℤ b) + (pos_part a * neg_part b + neg_part a * pos_part b)
      ≡ neg_part (a *ℤ b) + (pos_part a * pos_part b + neg_part a * neg_part b)
unfolding ◌*ℤ◌
*ℤ_parts a b = ground arith

pub *-sub : (a b c : ℤ) → (a -ℤ b) *ℤ c ≡ (a *ℤ c) -ℤ (b *ℤ c)
*-sub a b c =
    let p = ap (λ (t : ℕ). t * pos_part c) (-ℤ_parts a b) in
    let n = ap (λ (t : ℕ). t * neg_part c) (-ℤ_parts a b) in
    eq_of_parts _ _ (
      grind
        (arith, p, n, *ℤ_parts (a -ℤ b) c, *ℤ_parts a c, *ℤ_parts b c, -ℤ_parts (a *ℤ c) (b *ℤ c)))

pub *-one : (a : ℤ) → a *ℤ pos 1 ≡ a
*-one a = eq_of_parts _ _ (omega (arith, *ℤ_parts a (pos 1)))

pub *-minus_one : (a : ℤ) → a *ℤ negsuc 0 ≡ pos 0 -ℤ a
*-minus_one a = eq_of_parts _ _ (omega (arith, *ℤ_parts a (negsuc 0), -ℤ_parts (pos 0) a))
