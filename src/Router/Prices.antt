-- ===== src/Router/Prices.antt =====
-- execution/router.py, `_option_limit_price`. The unit of money is the cent.
use wheelbot.Common.{Bool, Option, if◌then◌else◌, leb, ltb, none, some, ℕ, ◌*◌, ◌+◌, ◌-◌, ◌/◌}
use wheelbot.Common.Int.{pos, pos_part, ℤ, ◌+ℤ◌, leb_ℤ}
use wheelbot.Models.{OrderType, buy_to_close, buy_to_open, sell_to_close}

-- How a price is found: at the offer, at the bid, or between them.
pub data Cross : Type 0 where
  cross_ask cross_bid no_cross : Cross

-- The choice in `_build_order`.
abbrev pub cross_of : OrderType → Cross
cross_of buy_to_open = cross_ask
cross_of buy_to_close = cross_ask
cross_of sell_to_close = cross_bid
cross_of _ = no_cross

-- The target, in half cents.
abbrev pub target : Cross → (bid ask : ℤ) → ℤ
target cross_ask bid ask = ask +ℤ ask
target cross_bid bid ask = bid +ℤ bid
target no_cross bid ask = bid +ℤ ask

-- `n` over `2 * half`, rounded to the nearest; `up` says on which side the float of a number that
-- lies midway is rounded.
abbrev pub nearest : (half : ℕ) (up : Bool) → ℕ → ℕ
nearest half up n =
    let q = n / (2 * half) in
    let r = n - 2 * half * q in
    if ltb r half then q else if ltb half r then q + 1 else if up then q + 1 else q

-- From $3 the nearest nickel, and below it the nearest cent.
abbrev pub snapped : (up : Bool) → ℕ → ℕ
snapped up t = if leb 600 t then 5 * nearest 5 up t else nearest 1 up t

-- `max(snapped, 0.01)`
abbrev pub at_least_cent : ℕ → ℕ
at_least_cent n = if ltb n 1 then 1 else n

unfoldable pub option_limit_price :
    (round_up : ℕ → Bool) (bid ask : Option ℤ) (cross : Cross) → Option ℤ
option_limit_price round_up bid ask cross = elim bid [
  | none ↦ none
  | some b ↦ elim ask [
    | none ↦ none
    | some a ↦
        let t = target cross b a in
        if leb_ℤ t (pos 0)
        then none
        else some (pos (at_least_cent (snapped (round_up (pos_part t)) (pos_part t))))
  ]
]
