-- ===== src/Reconciler/Shapes.antt =====
-- execution/reconciler.py: what the broker's positions on a symbol say of a local one.
use wheelbot.Common.{
  if◌then◌else◌, Bool, List, Option, String, [], any, false, get_or, is_none, length, ltb, none,
  not, some, str_eq, suc, true, ℕ, ◌&&◌, ◌++◌, ◌+◌, ◌==◌, ◌||◌, ◌∷◌,
}
use wheelbot.Reconciler.Defs.{
  Books, Reconciler, WheelCycle, position_assigned, position_called_away, cc_called_away, count,
  csp_expired, notify, position_assigned, position_called_away,
}
use wheelbot.Models.{
  OptionType, Order, OrderType, Position, PositionState, Symbol, buy_to_open, call, cc_open,
  cc_pending, csp_open, filled, idle, is_idle, is_put, pmcc_long_open, sell_to_close, shares_held,
  put, assigned,
}
use wheelbot.Common.Ratio.{Ratio}
use wheelbot.Reconciler.Cycles.{close_current, is_filled, of_cycle, or_one, spread_expired_outcome}
use wheelbot.Reconciler.States.{flag_manual_intervention, move, set_position_state}
use wheelbot.PaperBroker.{is_open}
use wheelbot.RiskGate.Defs.{is_sell_to_open}
use wheelbot.PaperBroker.Fills.{is_zero}
use wheelbot.Common.Int.{ltb_ℤ, pos, pos_part, ℤ, ◌*ℤ◌, ◌-ℤ◌}
use wheelbot.Store.Rows.{row}

-- What the broker's rows on a symbol show.
pub record Shape : Type 0 where
  pub has_short_put : Bool
  pub has_short_call : Bool
  pub has_shares : Bool
  pub broker_present : Bool

abbrev pub is_csp_open : PositionState → Bool
is_csp_open csp_open = true
is_csp_open _ = false

abbrev pub is_cc_open : PositionState → Bool
is_cc_open cc_open = true
is_cc_open _ = false

abbrev pub is_shares_held : PositionState → Bool
is_shares_held shares_held = true
is_shares_held _ = false

abbrev pub total_shares : List Position → ℕ
total_shares [] = 0
total_shares (p ∷ ps) = p.shares + total_shares ps

unfoldable pub shape_of : List Position → Shape
shape_of rows = record {
  has_short_put = any (λ p. is_csp_open p.state) rows;
  has_short_call = any (λ p. is_cc_open p.state) rows;
  has_shares = ltb 0 (total_shares rows) || any (λ p. is_shares_held p.state) rows;
  broker_present = not (length rows == 0);
}

abbrev pub holds_stock : PositionState → Bool
holds_stock shares_held = true
holds_stock cc_open = true
holds_stock cc_pending = true
holds_stock assigned = true
holds_stock _ = false

-- The rows of `list_active` other than the one with number `n`, where the first row has the number
-- `at`.
unfoldable pub claims : (account : String) → Symbol → (n at : ℕ) → List Position → Bool
claims account symbol n at [] = false
claims account symbol n at (p ∷ ps) =
    (str_eq p.account_id account
      && not (is_idle p.state)
      && str_eq p.symbol symbol
      && not (at == n)
      && (ltb 0 p.shares || holds_stock p.state))
    || claims account symbol n (suc at) ps

-- `_shares_claimed_by_other`
abbrev pub shares_claimed_by_other : Reconciler → ℕ → Position → Books → Bool
shares_claimed_by_other r n local b = claims r.account_id local.symbol n 0 b.positions

-- `_has_inflight_order`: of any account and strategy.
abbrev pub has_inflight_order : Position → Books → Bool
has_inflight_order local b = any (λ o. str_eq o.symbol local.symbol && is_open o.status) b.orders

abbrev pub is_short : OptionType → Order → Bool
is_short t o =
    is_sell_to_open o.order_type
    && is_filled o.status
    && elim o.option_type [ none ↦ false | some u ↦ if is_put t then is_put u else not (is_put u) ]

-- `ORDER BY placed_at LIMIT 1`, the first of the orders on a tie.
abbrev earlier : Order → Option Order → Order
earlier o none = o
earlier o (some p) = if ltb p.placed_at o.placed_at then p else o

abbrev earliest : (Order → Bool) → List Order → Option Order
earliest test [] = none
earliest test (o ∷ os) =
    let rest = earliest test os in if test o then some (earlier o rest) else rest

-- `ORDER BY placed_at DESC LIMIT 1`
abbrev later : Order → Option Order → Order
later o none = o
later o (some p) = if ltb o.placed_at p.placed_at then p else o

abbrev pub latest : (Order → Bool) → List Order → Option Order
latest test [] = none
latest test (o ∷ os) = let rest = latest test os in if test o then some (later o rest) else rest

-- `_cycle_csp_quantity`
unfoldable pub cycle_csp_quantity : Option ℕ → List Order → Option ℤ
cycle_csp_quantity none os = none
cycle_csp_quantity (some cycle) os =
    elim (earliest (λ o. of_cycle cycle o.cycle_id && is_short put o) os) [
      | none ↦ none
      | some o ↦ some o.quantity
    ]

-- `_cycle_cc_strike`
unfoldable pub cycle_cc_strike : Option ℕ → List Order → Option ℤ
cycle_cc_strike none os = none
cycle_cc_strike (some cycle) os =
    elim (latest (λ o. of_cycle cycle o.cycle_id && is_short call o) os) [
      | none ↦ none
      | some o ↦ o.strike
    ]

-- The order that stands for the purchase or the sale of the shares.
abbrev pub synthetic : Reconciler → Symbol → OrderType → (cycle : ℕ) → (shares strike : ℤ) → Order
synthetic r symbol t cycle shares strike = record {
  account_id = r.account_id;
  symbol = symbol;
  strategy_id = none;
  broker_order_id = none;
  client_order_id = none;
  order_type = t;
  contract_symbol = none;
  strike = none;
  expiration = none;
  option_type = none;
  quantity = shares;
  limit_price = none;
  fill_price = some strike;
  status = filled;
  placed_at = r.now;
  filled_at = some r.now;
  legs = [];
  cycle_id = some cycle;
  trigger_reason = none;
  raw_request = none;
}

abbrev pub insert_order : Order → Books → Books
insert_order o b = record b { orders = b.orders ++ o ∷ [] }

abbrev pub buy_shares : Reconciler → Symbol → Option ℕ → (shares strike : ℤ) → Books → Books
buy_shares r symbol none shares strike b = b
buy_shares r symbol (some cycle) shares strike b =
    insert_order (synthetic r symbol buy_to_open cycle shares strike) b

abbrev pub cycle_row : Option ℕ → Books → Option WheelCycle
cycle_row none b = none
cycle_row (some cycle) b = row cycle b.cycles

abbrev pub strike_of : Option WheelCycle → ℤ
strike_of none = pos 0
strike_of (some c) = get_or c.initial_csp_strike (pos 0)

abbrev pub premium_of : Option WheelCycle → ℤ
premium_of none = pos 0
premium_of (some c) = get_or c.initial_csp_premium (pos 0)

-- `strike - initial_csp_premium / 100`, in cents.
abbrev pub assigned_basis : Option WheelCycle → Ratio
assigned_basis c = record { num = strike_of c *ℤ pos 100 -ℤ premium_of c; den = 100 }

-- `100 * (quantity or 1)`
abbrev pub assigned_shares : Option ℤ → ℤ
assigned_shares q = pos 100 *ℤ or_one (get_or q (pos 0))

-- `_on_assignment`
unfoldable pub on_assignment : Reconciler → ℕ → Position → Books → Books
on_assignment r n local b =
    let cycle = cycle_row local.current_cycle_id b in
    let shares = assigned_shares (cycle_csp_quantity local.current_cycle_id b.orders) in
    buy_shares r local.symbol local.current_cycle_id shares (strike_of cycle) (
      move r.now n local shares_held "assignment"
        (λ p. record p { shares = pos_part shares; cost_basis = some (assigned_basis cycle) })
        (notify (position_assigned local.symbol)
          (count (λ s. record s { assignments_processed = s.assignments_processed + 1 }) b)))

abbrev pub emptied : Position → Position
emptied p = record p { shares = 0; cost_basis = none; current_cycle_id = none }

abbrev pub expired : Books → Books
expired b = count (λ s. record s { expirations_processed = s.expirations_processed + 1 }) b

-- `_on_csp_expiration`
unfoldable pub on_csp_expiration : Reconciler → ℕ → Position → Books → Books
on_csp_expiration r n local b =
    move r.now n local idle "csp_expired_worthless" emptied
      (close_current r.now local.current_cycle_id csp_expired (expired b))

-- `_on_spread_expiration`
unfoldable pub on_spread_expiration : Reconciler → ℕ → Position → Books → Books
on_spread_expiration r n local b = move r.now n local idle "spread_expired_max_profit" emptied (
    close_current r.now local.current_cycle_id (spread_expired_outcome local.strategy_id)
      (expired b))

-- `_on_cc_expiration`
unfoldable pub on_cc_expiration : Reconciler → ℕ → Position → Books → Books
on_cc_expiration r n local b =
    move r.now n local shares_held "cc_expired_worthless" (λ p. p) (expired b)

-- `_on_pmcc_short_expiration`
unfoldable pub on_pmcc_short_expiration : Reconciler → ℕ → Position → Books → Books
on_pmcc_short_expiration r n local b =
    set_position_state r (some (n, local)) local.symbol pmcc_long_open "pmcc_short_expired_otm" none
      (some local.strategy_id) (expired b)

-- `(100 * n_contracts) if n_contracts else local.shares`
abbrev pub shares_sold : Option ℤ → Position → ℤ
shares_sold none local = pos local.shares
shares_sold (some q) local = if is_zero q then pos local.shares else pos 100 *ℤ q

abbrev pub sell_shares :
    Reconciler → Symbol → Option ℕ → (shares : ℤ) → (strike : Option ℤ) → Books → Books
sell_shares r symbol none shares strike b = b
sell_shares r symbol (some cycle) shares none b = b
sell_shares r symbol (some cycle) shares (some strike) b =
    if ltb_ℤ (pos 0) shares
    then insert_order (synthetic r symbol sell_to_close cycle shares strike) b
    else b

-- At the strike of the call, if it is known.
abbrev pub call_away :
    Reconciler → ℕ → Position → (strike : Option ℤ) → (shares : ℤ) → Books → Books
call_away r n local strike shares b =
    if ltb_ℤ (pos 0) shares && is_none strike
    then flag_manual_intervention r local.symbol "called_away_missing_cc_strike"
        (some local.strategy_id) b
    else move r.now n local idle "called_away" emptied (
        close_current r.now local.current_cycle_id cc_called_away (
          sell_shares r local.symbol local.current_cycle_id shares strike (
            notify (position_called_away local.symbol)
              (count (λ s. record s { called_aways_processed = s.called_aways_processed + 1 }) b))))

-- `_on_called_away`
unfoldable pub on_called_away : Reconciler → ℕ → Position → Books → Books
on_called_away r n local b =
    call_away r n local (cycle_cc_strike local.current_cycle_id b.orders)
      (shares_sold (cycle_csp_quantity local.current_cycle_id b.orders) local) b
