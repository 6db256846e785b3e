-- ===== src/Router/Stale.antt =====
-- execution/router.py: orders that have been pending for too long.
use wheelbot.Common.{
  if◌then◌else◌, Bool, List, String, [], false, ltb, none, not, some, true, ℕ, ◌*◌, ◌+◌, ◌&&◌, ◌∷◌,
  get_or, suc,
}
use wheelbot.Models.{Order, OrderStatus, cancelled, pending}
use wheelbot.Broker.{Broker, Reply, answer, failure}
use wheelbot.PaperBroker.{is_open, is_text}
use wheelbot.Router.Defs.{OrderRouter, RouterConfig, World, fresh_id, is_open_type}
use wheelbot.Store.Orders.{get_by_client_id, list_pending, update}

-- What to do under a client's id: submit under it, skip, or submit under another id.
pub data Action : Type 0 where
  go_on skip_it : Action
  replace_by : (new_id : String) → Action

-- `age_min < stale_pending_minutes`
abbrev pub is_fresh : RouterConfig → (now : ℕ) → Order → Bool
is_fresh cfg now o = ltb now (o.placed_at + 60 * cfg.stale_pending_minutes)

abbrev pub cancel_row : Order → Order
cancel_row o = record o { status = cancelled }

abbrev is_pending : OrderStatus → Bool
is_pending pending = true
is_pending _ = false

-- The orders that the sweep cancels.
abbrev pub is_stale_open : RouterConfig → (now : ℕ) → Order → Bool
is_stale_open cfg now o =
    is_pending o.status
    && is_open_type o.order_type
    && elim o.broker_order_id [ none ↦ false | some _ ↦ true ]
    && not (is_fresh cfg now o)

abbrev counted : Reply Unit → ℕ → ℕ
counted (answer _) n = suc n
counted (failure e) n = n

module _ {S : Type 0} where
  -- The broker's side of the cancellation: an order without the broker's id has none.
  abbrev pub cancel_at_broker : Broker S → Order → S → S × Reply Unit
  cancel_at_broker broker o s =
      if is_text o.broker_order_id
      then broker.cancel_order (get_or o.broker_order_id "") s
      else (s, answer tt)

  -- After the broker's answer; a failure leaves the row.
  abbrev replaced :
      OrderRouter → (client_id : String) → (now : ℕ) → World S → S × Reply Unit → World S × Action
  replaced r c now w (s, failure e) = (record w { broker = s }, skip_it)
  replaced r c now w (s, answer _) = (
    record w { broker = s; orders = update c cancel_row w.orders },
    replace_by (fresh_id r c now),
  )

  -- `_replace_stale_pending`
  unfoldable pub replace_stale_pending :
      OrderRouter → Broker S → (client_id : String) → (now : ℕ) → World S → World S × Action
  replace_stale_pending r broker c now w = elim (get_by_client_id c w.orders) [
    | none ↦ (w, go_on)
    | some existing ↦
        if not (is_open existing.status)
        then (w, replace_by (fresh_id r c now))
        else if is_fresh r.cfg now existing
        then (w, skip_it)
        else replaced r c now w (cancel_at_broker broker existing w.broker)
  ]

  unfoldable pub sweep : Broker S → RouterConfig → (now : ℕ) → List Order → S → S × ℕ
  sweep broker cfg now [] s = (s, 0)
  sweep broker cfg now (o ∷ os) s =
      let a = broker.cancel_order (get_or o.broker_order_id "") s in
      let after_it = sweep broker cfg now os a.0 in
      let without_it = sweep broker cfg now os s in
      if is_stale_open cfg now o then (after_it.0, counted a.1 after_it.1) else without_it

  -- `cancel_stale_pending_opens`: the broker's state, and the number of orders cancelled.
  unfoldable pub cancel_stale_pending_opens :
      OrderRouter → Broker S → (now : ℕ) → World S → World S × ℕ
  unfolding sweep
  cancel_stale_pending_opens r broker now w =
      let (s, n) = sweep broker r.cfg now (list_pending r.gate.account_id w.orders) w.broker in
      (record w { broker = s }, n)
