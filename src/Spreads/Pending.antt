-- ===== src/Spreads/Pending.antt =====
-- strategies/spreads.py: a close that is pending, and the next proposal.
use wheelbot.Common.{
  ap, arith, none, refl, some, true, ℕ, ◌≡◌, if◌then◌else◌, Option, false, List, [], ◌++◌, ◌∷◌,
}
use wheelbot.Spreads.{
  Holdings, close_of, is_spread_open, open_order_for, propose_close_for_symbol, close_cycle,
  close_position, opens_cycle,
}
use wheelbot.Models.{Order, Position, Symbol}
use wheelbot.Store.Positions.{get_by_symbol}
use wheelbot.PaperBroker.{is_open}

open_order_for-pending :
    (cycle : ℕ) (o : Order) (os : List Order)
    → is_open o.status ≡ true
    → open_order_for cycle (os ++ o ∷ []) ≡ open_order_for cycle os
unfolding open_order_for
open_order_for-pending cycle o [] h =
    let not_filled : opens_cycle cycle o ≡ false = ground arith in rw not_filled refl
open_order_for-pending cycle o (x ∷ os) h = rw (open_order_for-pending cycle o os h) refl

close_cycle-pending :
    (h : Holdings) (symbol : Symbol) (o : Order) (x : Option ℕ)
    → is_open o.status ≡ true
    → close_cycle (record h { orders = h.orders ++ o ∷ [] }) symbol x ≡ close_cycle h symbol x
close_cycle-pending h symbol o none l = refl
close_cycle-pending h symbol o (some cycle) l =
    ap (close_of h symbol) (open_order_for-pending cycle o h.orders l)

close_position-pending :
    (h : Holdings) (symbol : Symbol) (o : Order)
    → is_open o.status ≡ true
    → (x : Option Position)
    → close_position (record h { orders = h.orders ++ o ∷ [] }) symbol x ≡ close_position h symbol x
close_position-pending h symbol o l none = refl
close_position-pending h symbol o l (some p) =
    ap (λ z. if is_spread_open p.state then z else none)
      (close_cycle-pending h symbol o p.current_cycle_id l)

-- A close that was sent and is still pending does not keep the next tick from proposing it again:
-- a pending or partly filled order at the end of the table changes no proposal.
propose_close_ignores :
    (h : Holdings) (symbol : Symbol) (o : Order)
    → is_open o.status ≡ true
    → propose_close_for_symbol (record h { orders = h.orders ++ o ∷ [] }) symbol
      ≡ propose_close_for_symbol h symbol
unfolding propose_close_for_symbol
propose_close_ignores h symbol o live_order =
    close_position-pending h symbol o live_order
      (get_by_symbol h.account_id symbol h.strategy_id h.positions)
