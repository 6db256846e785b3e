-- ===== src/Reconciler/Diff.antt =====
-- execution/reconciler.py, _diff_one: the transitions that the positions alone show.
use wheelbot.Common.{
  if◌then◌else◌, Bool, List, Option, String, get_or, is_none, none, not, some, str_eq, ℕ, ◌&&◌,
  ◌==◌,
}
use wheelbot.Reconciler.Defs.{Books, Reconciler, tag}
use wheelbot.Models.{
  Order, OrderType, Position, PositionState, buy_to_open, cc_open, cc_pending, csp_open,
  csp_pending, idle, pmcc_both_open, pmcc_long_open, pmcc_long_pending, pmcc_short_pending,
  sell_to_open, shares_held, spread_open, spread_pending,
}
use wheelbot.Reconciler.Shapes.{
  Shape, has_inflight_order, latest, on_assignment, on_called_away, on_cc_expiration,
  on_csp_expiration, on_pmcc_short_expiration, on_spread_expiration, shape_of,
  shares_claimed_by_other,
}
use wheelbot.Store.Rows.{find_row, next_id}
use wheelbot.Reconciler.States.{flag_manual_intervention, set_position_state}
use wheelbot.RiskGate.Defs.{is_buy_to_open, is_sell_to_open}
use wheelbot.Reconciler.Fills.{is_call_option}
use wheelbot.Reconciler.Cycles.{is_filled, long_cycle, open_cycle, strategy_is}
use wheelbot.PaperBroker.Fills.{is_zero}
use wheelbot.Common.Int.{pos, ℤ}

-- A flag on the position's own strategy.
abbrev pub flag_own : Reconciler → Position → (reason : String) → Books → Books
flag_own r local reason b =
    flag_manual_intervention r local.symbol reason (some local.strategy_id) b

-- `_set_position_state` of the position's own row.
abbrev pub set_own :
    Reconciler
    → ℕ
    → Position
    → PositionState
    → (reason : String) → (cycle : Option ℕ) → Books
    → Books
set_own r n local to reason cycle b =
    set_position_state r (some (n, local)) local.symbol to reason cycle (some local.strategy_id) b

unfoldable pub diff_csp_open : Reconciler → ℕ → Position → Shape → Books → Books
diff_csp_open r n local s b =
    if s.has_short_put
    then b
    else if not s.has_shares
    then on_csp_expiration r n local b
    else if shares_claimed_by_other r n local b
    then flag_own r local "assignment-vs-expiration ambiguous" b
    else on_assignment r n local b

unfoldable pub diff_cc_open : Reconciler → ℕ → Position → Shape → Books → Books
diff_cc_open r n local s b =
    if s.has_short_call
    then b
    else if s.has_shares
    then on_cc_expiration r n local b
    else on_called_away r n local b

unfoldable pub diff_csp_pending : Reconciler → ℕ → Position → Shape → Books → Books
diff_csp_pending r n local s b =
    if has_inflight_order local b
    then b
    else if s.has_short_put
    then set_own r n local csp_open "selfheal:stuck_csp_pending" local.current_cycle_id b
    else if s.broker_present
    then b
    else set_own r n local idle "selfheal:csp_pending_unfilled" none b

unfoldable pub diff_cc_pending : Reconciler → ℕ → Position → Shape → Books → Books
diff_cc_pending r n local s b =
    if has_inflight_order local b
    then b
    else if s.has_short_call
    then set_own r n local cc_open "selfheal:stuck_cc_pending" local.current_cycle_id b
    else if s.has_shares
    then set_own r n local shares_held "selfheal:cc_pending_unfilled" none b
    else b

unfoldable pub diff_spread_open : Reconciler → ℕ → Position → Shape → Books → Books
diff_spread_open r n local s b =
    if str_eq local.strategy_id "calendar"
    then (if not s.has_short_call && not s.has_shares
        then flag_own r local "calendar still SPREAD_OPEN with front leg gone" b
        else b)
    else if not s.broker_present
    then on_spread_expiration r n local b
    else if s.has_shares
    then flag_own r local "likely assignment on short leg" b
    else b

unfoldable pub diff_spread_pending : Reconciler → ℕ → Position → Shape → Books → Books
diff_spread_pending r n local s b =
    if has_inflight_order local b
    then b
    else if s.broker_present
    then set_own r n local spread_open "selfheal:stuck_spread_pending" local.current_cycle_id b
    else flag_own r local "stuck SPREAD_PENDING with no in-flight order" b

unfoldable pub diff_pmcc_both_open : Reconciler → ℕ → Position → Shape → Books → Books
diff_pmcc_both_open r n local s b =
    if s.has_shares
    then flag_own r local "short call likely assigned" b
    else if s.has_short_call
    then b
    else on_pmcc_short_expiration r n local b

abbrev is_call_order : Position → OrderType → Order → Bool
is_call_order local buy_to_open o =
    str_eq o.symbol local.symbol
    && strategy_is local.strategy_id o.strategy_id
    && is_buy_to_open o.order_type
    && is_call_option o.option_type
is_call_order local _ o =
    str_eq o.symbol local.symbol
    && strategy_is local.strategy_id o.strategy_id
    && is_sell_to_open o.order_type
    && is_call_option o.option_type

-- `_latest_call_order`, with the number of the row.
unfoldable pub latest_call_order : Position → OrderType → List Order → Option (ℕ × Order)
latest_call_order local t os = elim (latest (is_call_order local t) os) [
  | none ↦ none
  | some o ↦ find_row (λ p. is_call_order local t p && p.placed_at == o.placed_at) os
]

abbrev pub filled_row : Option (ℕ × Order) → Option (ℕ × Order)
filled_row none = none
filled_row (some (m, o)) = if is_filled o.status then some (m, o) else none

-- `order.fill_price or order.limit_price or 0.0`
abbrev nonzero : Option ℤ → Option ℤ
nonzero none = none
nonzero (some a) = if is_zero a then none else some a

abbrev price_of : Order → ℤ
price_of o = get_or (nonzero o.fill_price) (get_or o.limit_price (pos 0))

unfoldable pub heal_long_pending : Reconciler → ℕ → Position → Option (ℕ × Order) → Books → Books
heal_long_pending r n local none b =
    set_own r n local idle "selfheal:pmcc_long_pending_unfilled" none b
heal_long_pending r n local (some (m, o)) b =
    let cycle = next_id b.cycles in
    set_own r n local pmcc_long_open "selfheal:stuck_pmcc_long_pending" (some cycle)
      (tag m (some cycle) (open_cycle (long_cycle r o (price_of o)) b))

-- `_selfheal_pmcc_pending`, in its two states.
unfoldable pub diff_pmcc_long_pending : Reconciler → ℕ → Position → Books → Books
diff_pmcc_long_pending r n local b =
    if has_inflight_order local b
    then b
    else heal_long_pending r n local (filled_row (latest_call_order local buy_to_open b.orders)) b

unfoldable pub diff_pmcc_short_pending : Reconciler → ℕ → Position → Books → Books
diff_pmcc_short_pending r n local b =
    if has_inflight_order local b
    then b
    else set_own r n local
        (if is_none (filled_row (latest_call_order local sell_to_open b.orders))
          then pmcc_long_open
          else pmcc_both_open)
        "selfheal:stuck_pmcc_short_pending" local.current_cycle_id b

-- The states that no shape of the broker's positions moves are the last clause.
unfoldable pub diff_state : PositionState → Reconciler → ℕ → Position → Shape → Books → Books
diff_state csp_open r n local s b = diff_csp_open r n local s b
diff_state cc_open r n local s b = diff_cc_open r n local s b
diff_state csp_pending r n local s b = diff_csp_pending r n local s b
diff_state cc_pending r n local s b = diff_cc_pending r n local s b
diff_state spread_open r n local s b = diff_spread_open r n local s b
diff_state spread_pending r n local s b = diff_spread_pending r n local s b
diff_state pmcc_long_open r n local s b =
    if s.has_shares then flag_own r local "long exercised/assigned?" b else b
diff_state pmcc_both_open r n local s b = diff_pmcc_both_open r n local s b
diff_state pmcc_long_pending r n local s b = diff_pmcc_long_pending r n local b
diff_state pmcc_short_pending r n local s b = diff_pmcc_short_pending r n local b
diff_state _ r n local s b = b

-- `_diff_one`
unfoldable pub diff_one : Reconciler → ℕ → Position → List Position → Books → Books
diff_one r n local broker_rows b = diff_state local.state r n local (shape_of broker_rows) b
