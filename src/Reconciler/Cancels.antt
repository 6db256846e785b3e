-- ===== src/Reconciler/Cancels.antt =====
-- execution/reconciler.py: an order that ends without a fill gives the position its state back.
use wheelbot.Common.{if◌then◌else◌, Bool, Option, String, false, none, some, true, ℕ, ◌+◌}
use wheelbot.Reconciler.Defs.{Books, Reconciler, count, position_at}
use wheelbot.Models.{
  put, call, OptionType, Order, OrderType, Position, PositionState, buy_to_open, call, cc_pending,
  csp_pending, idle, multi_leg_close, multi_leg_open, pmcc_closing, pmcc_long_open,
  pmcc_long_pending, sell_to_close, sell_to_open, shares_held, spread_open, spread_pending,
  swing_pending,
}
use wheelbot.Reconciler.States.{set_position_state}

-- The state to which `_on_cancel` restores the position, and whether its cycle is still open.
unfoldable pub restored :
    OrderType → Option OptionType → PositionState → Option (PositionState × Bool)
restored multi_leg_open t spread_pending = some (idle, false)
restored multi_leg_close t spread_pending = some (spread_open, true)
restored sell_to_open (some put) csp_pending = some (idle, false)
restored sell_to_open none cc_pending = some (shares_held, false)
restored sell_to_open (some call) cc_pending = some (shares_held, false)
restored buy_to_open t swing_pending = some (idle, false)
restored buy_to_open t pmcc_long_pending = some (idle, false)
restored sell_to_close t pmcc_closing = some (pmcc_long_open, true)
restored _ _ _ = none

abbrev pub reason_of : (still_open : Bool) → String
reason_of true = "cancel_close"
reason_of false = "cancel_open"

abbrev pub restore :
    Reconciler → Order → (ℕ × Position) → Option (PositionState × Bool) → Books → Books
restore r local position none b = b
restore r local position (some (to, still_open)) b =
    count (λ s. record s { cancellations_processed = s.cancellations_processed + 1 })
      (set_position_state r (some position) local.symbol to (reason_of still_open)
        (if still_open then (position.1).current_cycle_id else none) local.strategy_id b)

abbrev pub cancel_at : Reconciler → Order → Option (ℕ × Position) → Books → Books
cancel_at r local none b = b
cancel_at r local (some (n, p)) b =
    restore r local (n, p) (restored local.order_type local.option_type p.state) b

-- `_on_cancel`
unfoldable pub on_cancel : Reconciler → (local : Order) → Books → Books
on_cancel r local b = cancel_at r local (position_at r local.symbol local.strategy_id b) b
