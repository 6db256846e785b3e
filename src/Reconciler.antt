-- ===== src/Reconciler.antt =====
-- execution/reconciler.py: the reconciler, which brings the books in line with the broker.
pub mod Defs
pub mod States
pub mod Cycles
pub mod Fills
pub mod Cancels
pub mod Shapes
pub mod Diff
pub mod Parity
pub mod Kept
pub mod KeptDiff
pub mod KeptAll
pub mod Logged
pub mod Once
pub mod Twice
pub mod Pnl
pub mod Transitions
pub mod Shifts
pub mod Flagged
pub mod Orphans
pub mod Returns
mod Tests
use wheelbot.Common.{
  if◌then◌else◌, Bool, List, Option, String, [], false, get_or, is_none, ltb, none, select, some,
  str_eq, suc, true, ℕ, ◌&&◌, ◌-◌, ◌||◌, ◌∷◌,
}
use wheelbot.Models.{Order, OrderStatus, Position, Symbol, cancelled, filled, partial, rejected}
use wheelbot.Router.Defs.{client_order_id}
use wheelbot.Store.Rows.{find_row}
use wheelbot.Store.Orders.{has_client}
use wheelbot.PaperBroker.{is_open, is_text}
use wheelbot.PaperBroker.Fills.{is_zero}
use wheelbot.Common.Int.{ltb_ℤ, pos, ℤ}
use wheelbot.Reconciler.Defs.{BrokerView, Reconciler, Books, no_summary, update_order}
use wheelbot.Store.Positions.{by_symbol}
use wheelbot.Reconciler.States.{flag_manual_intervention}
use wheelbot.Reconciler.Fills.{on_fill}
use wheelbot.Reconciler.Diff.{diff_one}
use wheelbot.Reconciler.Parity.{has_symbol, list_all, symbols_of, audit_cycle_parity}
use wheelbot.Reconciler.Cancels.{on_cancel}

abbrev pub nonempty : Option String → Option String
nonempty o = if is_text o then o else none

abbrev pub has_broker_id : String → Order → Bool
has_broker_id c o = elim o.broker_order_id [ none ↦ false | some d ↦ str_eq d c ]

abbrev pub row_of : (String → Order → Bool) → Option String → List Order → Option (ℕ × Order)
row_of has none os = none
row_of has (some c) os = find_row (has c) os

abbrev pub or_row : Option (ℕ × Order) → Option (ℕ × Order) → Option (ℕ × Order)
or_row none o = o
or_row (some x) o = some x

-- The row of the order that the broker shows: by the client's id, else by the broker's.
unfoldable pub locate : (view : Order) → List Order → Option (ℕ × Order)
locate view os =
    or_row (row_of has_client (nonempty view.client_order_id) os)
      (row_of has_broker_id (nonempty view.broker_order_id) os)

-- `a if a is not None else b`
abbrev pub first_of {ℓ} : {A : Type ℓ} → Option A → Option A → Option A
first_of none o = o
first_of (some a) o = some a

-- The columns that the broker knows and the row does not.
abbrev pub refreshed : (view : Order) → Order → Order
refreshed view o = record o {
  broker_order_id = first_of (nonempty view.broker_order_id) o.broker_order_id;
  status = view.status;
  fill_price = first_of view.fill_price o.fill_price;
  filled_at = first_of view.filled_at o.filled_at;
}

abbrev pub is_partial : OrderStatus → Bool
is_partial partial = true
is_partial _ = false

-- `float(broker_view.quantity or local.quantity or 0)`
abbrev pub ordered : (local view : Order) → ℤ
ordered local view = if is_zero view.quantity then local.quantity else view.quantity

-- `_observed_partial_fill`
unfoldable pub observed_partial_fill : (local : Order) → BrokerView → Bool
observed_partial_fill local v =
    let filled_part = get_or v.filled_qty (pos 0) in
    is_partial local.status
    || (ltb_ℤ (pos 0) filled_part && ltb_ℤ filled_part (ordered local v.order))

abbrev pub end_unfilled : Reconciler → (local : Order) → BrokerView → Books → Books
end_unfilled r local v b =
    if observed_partial_fill local v
    then flag_manual_intervention r local.symbol "after partial fill" local.strategy_id b
    else on_cancel r local b

abbrev pub dispatch_status :
    OrderStatus → Reconciler → ℕ → (local : Order) → BrokerView → Books → Books
dispatch_status filled r n local v b = on_fill r n local v.order b
dispatch_status cancelled r n local v b = end_unfilled r local v b
dispatch_status rejected r n local v b = end_unfilled r local v b
dispatch_status _ r n local v b = b

-- `_dispatch_order_transition`
unfoldable pub dispatch_order_transition :
    Reconciler → ℕ → (local : Order) → BrokerView → Books → Books
dispatch_order_transition r n local v b =
    if is_open local.status then dispatch_status v.order.status r n local v b else b

abbrev pub process_located : Reconciler → BrokerView → Option (ℕ × Order) → Books → Books
process_located r v none b =
    flag_manual_intervention r v.order.symbol "unknown order at broker" none b
process_located r v (some (n, local)) b =
    dispatch_order_transition r n local v (update_order n (refreshed v.order) b)

-- One order of `_process_orders`.
unfoldable pub process_order : Reconciler → BrokerView → Books → Books
process_order r v b =
    if is_none v.order.client_order_id && is_none v.order.broker_order_id
    then b
    else process_located r v (locate v.order b.orders) b

-- `_process_orders`
unfoldable pub process_orders : Reconciler → List BrokerView → Books → Books
process_orders r [] b = b
process_orders r (v ∷ vs) b = process_orders r vs (process_order r v b)

-- The rows of the account with their numbers, where the first row has the number `at`.
unfoldable pub numbered : (account : String) → (at : ℕ) → List Position → List (ℕ × Position)
numbered account at [] = []
numbered account at (p ∷ ps) =
    let rest = numbered account (suc at) ps in
    if str_eq p.account_id account then (at, p) ∷ rest else rest

abbrev pub on_symbol : Symbol → List Position → List Position
on_symbol symbol ps = select (λ p. str_eq p.symbol symbol) ps

unfoldable pub diff_all :
    Reconciler → (broker : List Position) → List (ℕ × Position) → Books → Books
diff_all r broker [] b = b
diff_all r broker ((n, p) ∷ rest) b =
    diff_all r broker rest (diff_one r n p (on_symbol p.symbol broker) b)

-- The symbols that the broker shows and no row of the table has.
unfoldable pub flag_unknown : Reconciler → (local : List Position) → List Symbol → Books → Books
flag_unknown r local [] b = b
flag_unknown r local (s ∷ ss) b = flag_unknown r local ss (
    if has_symbol s local
    then b
    else flag_manual_intervention r s "broker shows a symbol with no local row" none b)

-- `_reconcile_positions`
unfoldable pub reconcile_positions : Reconciler → (broker : List Position) → Books → Books
reconcile_positions r broker b =
    flag_unknown r (list_all r.account_id b.positions) (symbols_of broker)
      (diff_all r broker (by_symbol (λ x. (x.1).symbol) (numbered r.account_id 0 b.positions)) b)

abbrev sooner : ℕ → Option ℕ → ℕ
sooner t none = t
sooner t (some u) = if ltb u t then u else t

-- `orders.oldest_pending_placed_at`
unfoldable pub oldest_pending_placed_at : (account : String) → List Order → Option ℕ
oldest_pending_placed_at account [] = none
oldest_pending_placed_at account (o ∷ os) =
    let rest = oldest_pending_placed_at account os in
    if str_eq o.account_id account && is_open o.status then some (sooner o.placed_at rest) else rest

-- The time from which the broker's orders are asked for: time 0 is the start of 2000.
unfoldable pub since_of : (cursor oldest : Option ℕ) → ℕ
since_of cursor none = get_or cursor 0
since_of cursor (some t) = if ltb t (get_or cursor 0) then t - 5 else get_or cursor 0

-- The broker's answers of one tick.
pub record Feed : Type 0 where
  pub positions : List Position
  pub orders_since : ℕ → List BrokerView

-- `reconcile_once` without the scan for rolls: the books and the new cursor.
unfoldable pub reconcile_once : Reconciler → (cursor : Option ℕ) → Feed → Books → Books × Option ℕ
reconcile_once r cursor f b =
    let since = since_of cursor (oldest_pending_placed_at r.account_id b.orders) in
    let fresh = record b { summary = no_summary } in
    let filed = process_orders r (f.orders_since since) fresh in
    (audit_cycle_parity r f.positions (reconcile_positions r f.positions filed), some r.now)
