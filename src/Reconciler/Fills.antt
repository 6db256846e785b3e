-- ===== src/Reconciler/Fills.antt =====
-- execution/reconciler.py: what a fill does to the position and its cycle.
use text.Mathlib.Text.{starts_with}
use wheelbot.Common.{
  if◌then◌else◌, Bool, Option, String, any, false, get_or, is_none, none, not, some, str_eq, ℕ, ◌+◌,
}
use wheelbot.Reconciler.Defs.{
  Books, CycleOutcome, Reconciler, WheelCycle, count, csp_closed_profit, cycle_of, pmcc_full_closed,
  pmcc_long_rolled, position_at, swing_closed, tag, tag_untagged,
}
use wheelbot.Models.{
  OptionType, Order, OrderType, Position, PositionState, buy_to_close, buy_to_open, cc_open,
  csp_open, idle, is_put, multi_leg_close, multi_leg_open, pmcc_both_open, pmcc_long_open,
  sell_to_close, sell_to_open, shares_held, spread_closed, spread_open, swing_open,
}
use wheelbot.Reconciler.Cycles.{
  close_current, close_cycle, csp_cycle, long_cycle, open_cycle, spread_close_outcome, spread_cycle,
}
use wheelbot.Reconciler.States.{flag_manual_intervention, set_position_state}
use wheelbot.Store.Rows.{next_id, update_row}
use wheelbot.Drawdown.Tiers.{outcome}
use wheelbot.Common.Int.{pos, ℤ}

-- A cycle that the fill opened, or the one that the position was in.
abbrev pub opens :
    Reconciler
    → ℕ
    → Order
    → Option (ℕ × Position)
    → WheelCycle
    → PositionState
    → (strategy : Option String) → Books
    → Books
opens r n local position c to strategy b =
    let cycle = next_id b.cycles in
    tag n (some cycle)
      (set_position_state r position local.symbol to "fill" (some cycle) strategy (open_cycle c b))

abbrev pub clear_cycle : Position → Position
clear_cycle p = record p { current_cycle_id = none }

-- `positions.update(position.id, current_cycle_id=None)`
unfoldable pub clear_pointer : Option (ℕ × Position) → Books → Books
clear_pointer none b = b
clear_pointer (some (n, p)) b = record b { positions = update_row n clear_cycle b.positions }

-- The cycle of the position ends, if it has one.
unfoldable pub end_cycle :
    (now : ℕ) → Option (ℕ × Position) → (cycle : Option ℕ) → CycleOutcome → Books → Books
end_cycle now position none outcome b = b
end_cycle now position (some cycle) outcome b =
    clear_pointer position (close_cycle now cycle outcome b)

abbrev pub is_call_option : Option OptionType → Bool
is_call_option none = false
is_call_option (some t) = not (is_put t)

abbrev pub is_put_option : Option OptionType → Bool
is_put_option none = false
is_put_option (some t) = is_put t

abbrev pub long_outcome : Option String → CycleOutcome
long_outcome none = pmcc_full_closed
long_outcome (some reason) =
    if starts_with reason "pmcc_roll" then pmcc_long_rolled else pmcc_full_closed

-- `_on_pmcc_fill`, for a call.
abbrev pub on_pmcc_call :
    Reconciler → ℕ → Order → Option (ℕ × Position) → (fill_price : ℤ) → OrderType → Books → Books
on_pmcc_call r n local position price buy_to_open b =
    opens r n local position (long_cycle r local price) pmcc_long_open local.strategy_id b
on_pmcc_call r n local position price sell_to_open b =
    let cycle = cycle_of position in
    tag n cycle
      (set_position_state r position local.symbol pmcc_both_open "fill" cycle local.strategy_id b)
on_pmcc_call r n local position price buy_to_close b =
    let cycle = cycle_of position in
    set_position_state r position local.symbol pmcc_long_open "close" cycle local.strategy_id
      (tag_untagged n local cycle b)
on_pmcc_call r n local position price sell_to_close b =
    let cycle = cycle_of position in
    end_cycle r.now position cycle (long_outcome local.trigger_reason) (
      set_position_state r position local.symbol idle "close" none local.strategy_id
        (tag_untagged n local cycle b))
on_pmcc_call r n local position price _ b =
    flag_manual_intervention r local.symbol "_on_pmcc_fill: unhandled fill" local.strategy_id b

unfoldable pub on_pmcc_fill :
    Reconciler → ℕ → Order → Option (ℕ × Position) → (fill_price : ℤ) → Books → Books
on_pmcc_fill r n local position price b =
    if is_call_option local.option_type
    then on_pmcc_call r n local position price local.order_type b
    else flag_manual_intervention r local.symbol "_on_pmcc_fill: unhandled fill" local.strategy_id b

-- `_on_swing_fill`, for an option.
abbrev pub on_swing_option :
    Reconciler → ℕ → Order → Option (ℕ × Position) → (fill_price : ℤ) → OrderType → Books → Books
on_swing_option r n local position price buy_to_open b =
    opens r n local position (long_cycle r local price) swing_open local.strategy_id b
on_swing_option r n local position price sell_to_close b =
    let cycle = cycle_of position in
    end_cycle r.now position cycle swing_closed (
      set_position_state r position local.symbol idle "close" none local.strategy_id
        (tag_untagged n local cycle b))
on_swing_option r n local position price _ b =
    flag_manual_intervention r local.symbol "_on_swing_fill: unhandled fill" local.strategy_id b

unfoldable pub on_swing_fill :
    Reconciler → ℕ → Order → Option (ℕ × Position) → (fill_price : ℤ) → Books → Books
on_swing_fill r n local position price b =
    if is_none local.option_type
    then flag_manual_intervention r local.symbol "_on_swing_fill: unhandled fill" local.strategy_id
        b
    else on_swing_option r n local position price local.order_type b

-- The spreads and the wheel.
unfoldable pub on_wheel_fill :
    Reconciler → ℕ → Order → Option (ℕ × Position) → (fill_price : ℤ) → OrderType → Books → Books
on_wheel_fill r n local position price multi_leg_open b =
    opens r n local position (spread_cycle r local price) spread_open local.strategy_id b
on_wheel_fill r n local position price multi_leg_close b =
    let cycle = cycle_of position in
    end_cycle r.now position cycle (spread_close_outcome local.strategy_id) (
      tag_untagged n local cycle
        (set_position_state r position local.symbol spread_closed "close" none local.strategy_id b))
on_wheel_fill r n local position price sell_to_open b =
    if is_put_option local.option_type
    then opens r n local position (csp_cycle r local price) csp_open none b
    else tag n (cycle_of position)
        (set_position_state r position local.symbol cc_open "fill" (cycle_of position) none b)
on_wheel_fill r n local position price buy_to_close b =
    let cycle = cycle_of position in
    let tagged = tag_untagged n local cycle b in
    if is_put_option local.option_type
    then close_current r.now cycle csp_closed_profit
        (set_position_state r position local.symbol idle "close" none none tagged)
    else set_position_state r position local.symbol shares_held "close" none none tagged
on_wheel_fill r n local position price _ b =
    flag_manual_intervention r local.symbol "_on_fill: no handler" local.strategy_id b

abbrev pub is_swing : Reconciler → Option String → Bool
is_swing r none = false
is_swing r (some s) = any (λ t. str_eq t s) r.swing_strategy_ids

abbrev pub is_pmcc : Option String → Bool
is_pmcc none = false
is_pmcc (some s) = str_eq s "pmcc"

abbrev pub fill_price_of : (local view : Order) → ℤ
fill_price_of local view = get_or view.fill_price (get_or local.limit_price (pos 0))

-- `_on_fill`; `n` is the number of the order's row.
unfoldable pub on_fill : Reconciler → ℕ → (local view : Order) → Books → Books
on_fill r n local view b =
    let counted = count (λ s. record s { fills_processed = s.fills_processed + 1 }) b in
    let position = position_at r local.symbol local.strategy_id b in
    let price = fill_price_of local view in
    if is_pmcc local.strategy_id
    then on_pmcc_fill r n local position price counted
    else if is_swing r local.strategy_id
    then on_swing_fill r n local position price counted
    else on_wheel_fill r n local position price local.order_type counted
