-- ===== src/Spreads.antt =====
-- strategies/spreads.py: the close of an open spread. The amounts of a spread are in half cents, as
-- a mid is half a sum.
pub mod Closes
pub mod Submits
pub mod Pending
pub mod Selectors
pub mod Opens
pub mod Sizes
pub mod Pairs
pub mod Wings
mod Tests
use wheelbot.Common.{
  if◌then◌else◌, Bool, List, Option, String, [], false, get_or, leb, map, none, not, some, str_eq,
  true, ℕ, ◌&&◌, ◌*◌, ◌+◌, ◌==◌, ◌||◌, ◌∷◌, any, length,
}
use wheelbot.Common.Int.{ℤ, leb_ℤ, ltb_ℤ, pos, pos_part, ◌*ℤ◌, ◌+ℤ◌, ◌-ℤ◌}
use wheelbot.Common.Ratio.{Ratio, whole}
use wheelbot.Models.{
  Day, Direction, MultiLegProposal, OptionType, Order, OrderLeg, OrderStatus, OrderType, Position,
  PositionState, Quote, Symbol, bear_call, bull_put, buy_to_close, buy_to_open, filled, is_put,
  multi_leg_close, sell_to_close, sell_to_open, spread_open, iron_condor,
}
use wheelbot.PaperBroker.Fills.{is_zero}
use wheelbot.Router.Submit.{is_multi_open}
use wheelbot.Store.Positions.{get_by_symbol}

-- The parameters of the strategy that the close reads.
pub record CloseParams : Type 0 where
  pub profit_close_pct : Option Ratio
  pub time_close_dte : Option ℕ
  pub stop_loss_mult : Option Ratio

-- `_flip_action`
abbrev pub flip_action : OrderType → OrderType
flip_action sell_to_open = buy_to_close
flip_action buy_to_open = sell_to_close
flip_action t = t

abbrev pub close_leg : OrderLeg → OrderLeg
close_leg l = record l { action = flip_action l.action }

-- What a leg adds to the debit at the mid and to the marketable one. A quote has a mid when it has
-- both sides.
abbrev leg_debit : OrderType → (bid ask : ℤ) → ℤ × ℤ → ℤ × ℤ
leg_debit buy_to_close bid ask (m, d) = (m +ℤ (bid +ℤ ask), d +ℤ (ask +ℤ ask))
leg_debit sell_to_close bid ask (m, d) = (m -ℤ (bid +ℤ ask), d -ℤ (bid +ℤ bid))
leg_debit _ bid ask md = md

abbrev add_leg : OrderType → Option Quote → Option (ℤ × ℤ) → Option (ℤ × ℤ)
add_leg t none rest = none
add_leg t (some q) none = none
add_leg t (some q) (some md) = elim q.bid [
  | none ↦ none
  | some b ↦ elim q.ask [ none ↦ none | some a ↦ some (leg_debit t b a md) ]
]

-- `_close_pricing`; `quote` is the broker's answer, none when it raises.
unfoldable pub close_pricing : (quote : String → Option Quote) → List OrderLeg → Option (ℤ × ℤ)
close_pricing quote [] = some (pos 0, pos 0)
close_pricing quote (l ∷ ls) = add_leg l.action (quote l.contract_symbol) (close_pricing quote ls)

abbrev strikes : (of_type : OptionType → Bool) → List OrderLeg → List ℤ
strikes of_type [] = []
strikes of_type (l ∷ ls) =
    let rest = strikes of_type ls in if of_type l.option_type then l.strike ∷ rest else rest

abbrev highest : ℤ → List ℤ → ℤ
highest a [] = a
highest a (b ∷ bs) = highest (if ltb_ℤ a b then b else a) bs

abbrev lowest : ℤ → List ℤ → ℤ
lowest a [] = a
lowest a (b ∷ bs) = lowest (if ltb_ℤ b a then b else a) bs

-- The last of the sorted strikes less the first, where there are two or more.
abbrev pub width : List ℤ → Option ℤ
width [] = none
width (a ∷ []) = none
width (a ∷ b ∷ bs) = some (highest a (b ∷ bs) -ℤ lowest a (b ∷ bs))

abbrev wider : Option ℤ → Option ℤ → Option ℤ
wider none w = w
wider (some a) none = some a
wider (some a) (some b) = some (if ltb_ℤ a b then b else a)

-- `max(widths)`
unfoldable pub max_close_debit : List OrderLeg → Option ℤ
max_close_debit ls = wider (width (strikes is_put ls)) (width (strikes (λ t. not (is_put t)) ls))

-- The debit is clamped at the wings' width, here in half cents.
abbrev pub clamped : (max_debit : Option ℤ) → (debit : ℤ) → ℤ
clamped none debit = debit
clamped (some m) debit = if ltb_ℤ (m +ℤ m) debit then m +ℤ m else debit

-- `ORDER BY filled_at DESC LIMIT 1`: NULL sorts last.
abbrev filled_after : Option ℕ → Option ℕ → Bool
filled_after none b = false
filled_after (some a) none = true
filled_after (some a) (some b) = leb b a

abbrev newer : Order → Option Order → Order
newer o none = o
newer o (some p) = if filled_after p.filled_at o.filled_at then p else o

abbrev is_filled : OrderStatus → Bool
is_filled filled = true
is_filled _ = false

abbrev of_cycle : ℕ → Option ℕ → Bool
of_cycle cycle none = false
of_cycle cycle (some c) = c == cycle

-- The rows that the query reads.
abbrev pub opens_cycle : (cycle : ℕ) → Order → Bool
opens_cycle cycle o = of_cycle cycle o.cycle_id && is_multi_open o.order_type && is_filled o.status

-- `_open_order_for_position`
unfoldable pub open_order_for : (cycle : ℕ) → List Order → Option Order
open_order_for cycle [] = none
open_order_for cycle (o ∷ os) =
    let rest = open_order_for cycle os in if opens_cycle cycle o then some (newer o rest) else rest

-- The expiration of the last leg that was sold.
abbrev sold : OrderType → Bool
sold sell_to_open = true
sold _ = false

abbrev pub short_leg_expiration : List OrderLeg → Option Day
short_leg_expiration [] = none
short_leg_expiration (l ∷ ls) = elim (short_leg_expiration ls) [
  | some d ↦ some d
  | none ↦ if sold l.action then some l.expiration else none
]

-- The iron condor is told by its id, a vertical by its legs.
abbrev direction_of : (strategy : String) → List OrderLeg → Direction
direction_of strategy legs =
    if str_eq strategy "iron_condor"
    then Direction.iron_condor
    else if any (λ l. not (is_put l.option_type)) legs
    then bear_call
    else bull_put

-- `debit <= (1 - pct / 100) * credit and credit > 0`, multiplied out.
abbrev pub profit_trigger : CloseParams → (credit debit : ℤ) → Bool
profit_trigger p credit debit =
    let pct = get_or p.profit_close_pct (whole (pos 50)) in
    leb_ℤ (debit *ℤ pos (100 * pct.den)) ((pos (100 * pct.den) -ℤ pct.num) *ℤ credit)
    && ltb_ℤ (pos 0) credit

abbrev pub time_trigger : CloseParams → (today : Day) → Option Day → Bool
time_trigger p today none = false
time_trigger p today (some expiration) = leb expiration (today + get_or p.time_close_dte 7)

-- `credit > 0 and mult > 0 and debit >= mult * credit`, multiplied out.
abbrev pub stop_trigger : CloseParams → (credit debit : ℤ) → Bool
stop_trigger p credit debit =
    let mult = get_or p.stop_loss_mult (whole (pos 2)) in
    ltb_ℤ (pos 0) credit
    && ltb_ℤ (pos 0) mult.num
    && leb_ℤ (mult.num *ℤ credit) (debit *ℤ pos mult.den)

-- The credit collected, in half cents.
abbrev pub credit_of : Order → ℤ
credit_of o = let price = get_or o.fill_price (pos 0) in price +ℤ price

abbrev lots_of : ℤ → ℕ
lots_of quantity = if is_zero quantity then 1 else pos_part quantity

abbrev pub triggered : CloseParams → (today : Day) → Order → (debit : ℤ) → Bool
triggered p today o debit =
    profit_trigger p (credit_of o) debit
    || time_trigger p today (short_leg_expiration o.legs)
    || stop_trigger p (credit_of o) debit

abbrev pub closing : Symbol → (strategy : String) → Order → (debit : ℤ) → MultiLegProposal
closing symbol strategy o debit = record {
  symbol = symbol;
  legs = map close_leg o.legs;
  net_credit_per_spread = pos 0 -ℤ debit;
  max_loss_per_spread = pos 0;
  width_dollars = pos 0;
  quantity = lots_of o.quantity;
  strategy_id = strategy;
  order_type = multi_leg_close;
  direction = direction_of strategy o.legs;
  news_check_profile = none;
}

-- What the close reads: the account, the strategy and the tables.
pub record Holdings : Type 0 where
  pub account_id : String
  pub strategy_id : String
  pub params : CloseParams
  pub today : Day
  pub quote : String → Option Quote
  pub positions : List Position
  pub orders : List Order

abbrev pub is_spread_open : PositionState → Bool
is_spread_open spread_open = true
is_spread_open _ = false

-- At the prices of the legs, if they all have one.
abbrev pub priced : Holdings → Symbol → Order → Option (ℤ × ℤ) → Option MultiLegProposal
priced h symbol o none = none
priced h symbol o (some (mid_debit, marketable_debit)) =
    if triggered h.params h.today o mid_debit
    then some (
        closing symbol h.strategy_id o
          (clamped (max_close_debit (map close_leg o.legs)) marketable_debit))
    else none

-- With the order that opened the spread.
abbrev pub close_of : Holdings → Symbol → Option Order → Option MultiLegProposal
close_of h symbol none = none
close_of h symbol (some o) =
    if length o.legs == 0
    then none
    else priced h symbol o (close_pricing h.quote (map close_leg o.legs))

abbrev pub close_cycle : Holdings → Symbol → Option ℕ → Option MultiLegProposal
close_cycle h symbol none = none
close_cycle h symbol (some cycle) = close_of h symbol (open_order_for cycle h.orders)

abbrev pub close_position : Holdings → Symbol → Option Position → Option MultiLegProposal
close_position h symbol none = none
close_position h symbol (some position) =
    if is_spread_open position.state then close_cycle h symbol position.current_cycle_id else none

unfoldable pub propose_close_for_symbol : Holdings → Symbol → Option MultiLegProposal
propose_close_for_symbol h symbol =
    close_position h symbol (get_by_symbol h.account_id symbol h.strategy_id h.positions)
