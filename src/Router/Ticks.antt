-- ===== src/Router/Ticks.antt =====
-- execution/router.py, `_option_limit_price`: every limit is a price that the exchange takes.
use wheelbot.Common.Int.{pos, pos_part, ℤ, leb_ℤ}
use wheelbot.Router.Prices.{Cross, option_limit_price, target, snapped, at_least_cent, nearest}
use wheelbot.Common.{
  Bool, arith, ℕ, ◌*◌, ◌+◌, ◌<◌, ◌≡◌, ◌≤◌, ◌⊎◌, Bool-cases, inl, inr, leb, leb→le, ltb, ltb→lt,
  some, false, refl,
}

-- A price in cents that the exchange takes: at least a cent, and from $3 a multiple of a nickel.
abbrev pub IsTick : ℕ → Type 0
IsTick n = (1 ≤ n) × ((n < 300) ⊎ ((k : ℕ) × (n ≡ 5 * k)))

-- The price lies within half a tick of a target in half cents.
abbrev pub IsNear : (t n : ℕ) → Type 0
IsNear t n = (2 * n ≤ t + 5) × (t ≤ 2 * n + 5) × ((600 ≤ t) ⊎ ((2 * n ≤ t + 1) × (t ≤ 2 * n + 1)))

snapped-IsNear : (up : Bool) (t : ℕ) → 1 ≤ t → IsNear t (at_least_cent (snapped up t))
snapped-IsNear up t h = ground arith

low-IsTick : (n : ℕ) → 1 ≤ n → n ≤ 300 → IsTick n
low-IsTick n h le = elim (Bool-cases (ltb n 300)) [
  | inl e ↦ (h, inl (ltb→lt n 300 e))
  | inr e ↦ (h, inr (60, ground arith))
]

nickel-IsTick : (up : Bool) (t : ℕ) → 600 ≤ t → IsTick (at_least_cent (snapped up t))
nickel-IsTick up t h = (ground arith, inr (nearest 5 up t, ground arith))

low_snapped : (up : Bool) (t : ℕ) → 1 ≤ t → t < 600 → at_least_cent (snapped up t) ≤ 300
low_snapped up t h lt = ground arith

snapped_positive : (up : Bool) (t : ℕ) → 1 ≤ at_least_cent (snapped up t)
snapped_positive up t = ground arith

snapped-IsTick : (up : Bool) (t : ℕ) → 1 ≤ t → IsTick (at_least_cent (snapped up t))
snapped-IsTick up t h = elim (Bool-cases (leb 600 t)) [
  | inl e ↦ nickel-IsTick up t (leb→le 600 t e)
  | inr e ↦ low-IsTick _ (snapped_positive up t) (low_snapped up t h (ground arith))
]

positive : (z : ℤ) → 1 ≤ pos_part z → leb_ℤ z (pos 0) ≡ false
positive z h = ground arith

-- With both sides of the quote and a target above zero there is a limit: at least a cent, from $3 a
-- multiple of a nickel, and within half a tick of the target.
pub option_limit_price-IsTick :
    (round_up : ℕ → Bool) (bid ask : ℤ) (cross : Cross)
    → 1 ≤ pos_part (target cross bid ask)
    → (n : ℕ) × (option_limit_price round_up (some bid) (some ask) cross ≡ some (pos n))
      × IsTick n
      × IsNear (pos_part (target cross bid ask)) n
unfolding option_limit_price
option_limit_price-IsTick round_up bid ask cross h =
    let t = pos_part (target cross bid ask) in
    (
      at_least_cent (snapped (round_up t) t),
      rw (positive (target cross bid ask) h) refl,
      snapped-IsTick (round_up t) t h,
      snapped-IsNear (round_up t) t h,
    )
