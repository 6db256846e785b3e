-- ===== src/Reconciler/Cycles.antt =====
-- execution/reconciler.py: the cycles, which a fill opens and an exit closes, and their profit.
use wheelbot.Common.{
  if◌then◌else◌, Bool, List, Option, String, [], false, get_or, is_none, map, none, some, str_eq,
  true, ℕ, ◌&&◌, ◌++◌, ◌+◌, ◌-◌, ◌/◌, ◌==◌, ◌∷◌,
}
use wheelbot.Reconciler.Defs.{
  Books, CycleOutcome, Reconciler, WheelCycle, calendar_closed_loss, calendar_closed_profit,
  calendar_expired, cc_closed_loss, cc_closed_profit, cycle_closed_loss, count, csp_closed_loss,
  csp_closed_profit, iron_condor_closed_loss, iron_condor_closed_profit, iron_condor_expired_profit,
  notify, spread_closed_loss, spread_closed_profit, spread_expired_profit,
}
use wheelbot.Models.{
  OptionType, Order, OrderLeg, OrderStatus, OrderType, Symbol, buy_to_close, buy_to_open, filled,
  multi_leg_close, multi_leg_open, sell_to_close, sell_to_open,
}
use wheelbot.Common.Ratio.{Ratio, divide}
use wheelbot.Common.Dict.{get}
use wheelbot.PaperBroker.Fills.{is_zero}
use wheelbot.Common.Int.{ltb_ℤ, neg_part, negsuc, pos, pos_part, ℤ, ◌*ℤ◌, ◌+ℤ◌, ◌-ℤ◌}
use wheelbot.Drawdown.Tiers.{outcome}
use wheelbot.Store.Rows.{row, update_row}
use wheelbot.Spreads.{width}

-- `_PROFIT_TO_LOSS_OUTCOME`
abbrev pub relabelled : CycleOutcome → CycleOutcome
relabelled csp_closed_profit = csp_closed_loss
relabelled cc_closed_profit = cc_closed_loss
relabelled spread_closed_profit = spread_closed_loss
relabelled iron_condor_closed_profit = iron_condor_closed_loss
relabelled calendar_closed_profit = calendar_closed_loss
relabelled o = o

abbrev pub strategy_is : String → Option String → Bool
strategy_is name none = false
strategy_is name (some s) = str_eq s name

-- `_spread_close_outcome`
abbrev pub spread_close_outcome : Option String → CycleOutcome
spread_close_outcome s =
    if strategy_is "iron_condor" s
    then iron_condor_closed_profit
    else if strategy_is "calendar" s
    then calendar_closed_profit
    else spread_closed_profit

-- `_spread_expired_outcome`
abbrev pub spread_expired_outcome : String → CycleOutcome
spread_expired_outcome s =
    if str_eq s "iron_condor"
    then iron_condor_expired_profit
    else if str_eq s "calendar"
    then calendar_expired
    else spread_expired_profit

-- The shares for one unit of an order's quantity, with the sign of its cash flow.
abbrev pub multiplier : OrderType → Option OptionType → ℤ
multiplier multi_leg_open t = pos 100
multiplier multi_leg_close t = pos 100
multiplier sell_to_open t = pos 100
multiplier buy_to_close t = negsuc 99
multiplier buy_to_open none = negsuc 0
multiplier buy_to_open (some t) = negsuc 99
multiplier sell_to_close none = pos 1
multiplier sell_to_close (some t) = pos 100

abbrev pub is_filled : OrderStatus → Bool
is_filled filled = true
is_filled _ = false

abbrev pub of_cycle : ℕ → Option ℕ → Bool
of_cycle cycle none = false
of_cycle cycle (some c) = c == cycle

-- What an order adds to the profit of a cycle.
abbrev pub cash_flow : (cycle : ℕ) → Order → ℤ
cash_flow cycle o =
    if of_cycle cycle o.cycle_id && is_filled o.status
    then get_or o.fill_price (pos 0) *ℤ o.quantity *ℤ multiplier o.order_type o.option_type
    else pos 0

-- `_compute_cycle_pnl`
unfoldable pub compute_cycle_pnl : (cycle : ℕ) → List Order → ℤ
compute_cycle_pnl cycle [] = pos 0
compute_cycle_pnl cycle (o ∷ os) = cash_flow cycle o +ℤ compute_cycle_pnl cycle os

abbrev pub seconds_per_day : ℕ
seconds_per_day = 86400

-- `(pnl / capital * 100.0) if capital else None`
abbrev pct_of : (pnl : ℤ) → (capital : Option ℤ) → Option Ratio
pct_of pnl none = none
pct_of pnl (some c) = divide (pnl *ℤ pos 100) c

abbrev pub closed : (now : ℕ) → (pnl : ℤ) → CycleOutcome → WheelCycle → WheelCycle
closed now pnl outcome c = record c {
  ended_at = some now;
  final_pnl = some pnl;
  final_pnl_pct = pct_of pnl c.initial_capital_at_risk;
  cycle_outcome = some (if ltb_ℤ pnl (pos 0) then relabelled outcome else outcome);
  days_held = some ((now - c.started_at) / seconds_per_day);
}

abbrev pub notify_loss : Symbol → (pnl : ℤ) → Books → Books
notify_loss symbol pnl b = if ltb_ℤ pnl (pos 0) then notify (cycle_closed_loss symbol pnl) b else b

-- A cycle that is open is closed.
abbrev pub close_found :
    (now cycle : ℕ) → CycleOutcome → (pnl : ℤ) → Option WheelCycle → Books → Books
close_found now cycle outcome pnl none b = b
close_found now cycle outcome pnl (some c) b =
    if is_none c.ended_at
    then notify_loss c.symbol pnl (
        count (λ s. record s { cycles_closed = s.cycles_closed + 1 })
          (record b { cycles = update_row cycle (closed now pnl outcome) b.cycles }))
    else b

-- `_close_cycle`
unfoldable pub close_cycle : (now cycle : ℕ) → CycleOutcome → Books → Books
close_cycle now cycle outcome b =
    close_found now cycle outcome (compute_cycle_pnl cycle b.orders) (row cycle b.cycles) b

-- `if position.current_cycle_id: await self._close_cycle(...)`
unfoldable pub close_current : (now : ℕ) → Option ℕ → CycleOutcome → Books → Books
close_current now none outcome b = b
close_current now (some cycle) outcome b = close_cycle now cycle outcome b

-- The row of a new cycle.
abbrev pub new_cycle : Reconciler → Order → (strike : Option ℤ) → (premium capital : ℤ) → WheelCycle
new_cycle r o strike premium capital = record {
  account_id = r.account_id;
  symbol = o.symbol;
  strategy_id = o.strategy_id;
  started_at = r.now;
  ended_at = none;
  initial_csp_strike = strike;
  initial_csp_premium = some premium;
  initial_capital_at_risk = some capital;
  final_pnl = none;
  final_pnl_pct = none;
  cycle_outcome = none;
  days_held = none;
  n_orders = some 1;
}

-- `cycles.insert`; the number of the row is `next_id b.cycles`.
unfoldable pub open_cycle : WheelCycle → Books → Books
open_cycle c b =
    count (λ s. record s { cycles_opened = s.cycles_opened + 1 })
      (record b { cycles = b.cycles ++ c ∷ [] })

-- `_open_cycle_if_csp`
abbrev pub csp_cycle : Reconciler → Order → (fill_price : ℤ) → WheelCycle
csp_cycle r o price =
    new_cycle r o o.strike (price *ℤ pos 100 *ℤ o.quantity)
      (get_or o.strike (pos 0) *ℤ pos 100 *ℤ o.quantity)

abbrev pub abs : ℤ → ℤ
abs a = pos (pos_part a + neg_part a)

abbrev pub or_one : ℤ → ℤ
or_one q = if is_zero q then pos 1 else q

-- `_open_cycle_for_pmcc_long` and `_open_cycle_for_swing`
abbrev pub long_cycle : Reconciler → Order → (fill_price : ℤ) → WheelCycle
long_cycle r o price =
    let debit = abs price *ℤ pos 100 *ℤ or_one o.quantity in
    new_cycle r o o.strike (pos 0 -ℤ debit) debit

abbrev leg_width : List OrderLeg → ℤ
leg_width ls = get_or (width (map (λ l. l.strike) ls)) (pos 0)

-- The width that the router stamped, else that of the strikes.
abbrev spread_width : Order → ℤ
spread_width o = get_or (get "width_dollars" (get_or o.raw_request [])) (leg_width o.legs)

abbrev at_least_zero : ℤ → ℤ
at_least_zero a = if ltb_ℤ a (pos 0) then pos 0 else a

-- `_open_cycle_for_spread`
abbrev pub spread_cycle : Reconciler → Order → (fill_price : ℤ) → WheelCycle
spread_cycle r o credit =
    new_cycle r o none (credit *ℤ pos 100 *ℤ o.quantity)
      (at_least_zero ((spread_width o -ℤ credit) *ℤ pos 100 *ℤ o.quantity))
