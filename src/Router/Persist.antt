-- ===== src/Router/Persist.antt =====
-- execution/router.py: the rows that a placement writes.
use Prim.Native.String.{◌++◌ as text_append}
use wheelbot.Common.{
  if◌then◌else◌, Bool, List, Option, String, [], get_or, none, some, ℕ, str_eq, not, ◌&&◌, ◌++◌,
  ◌∷◌,
}
use wheelbot.Common.Int.{ℤ}
use wheelbot.Common.Dict.{set_item}
use wheelbot.Models.{
  MultiLegProposal, Order, OrderType, Position, PositionState, Proposal, buy_to_open, cc_open,
  cc_pending, csp_open, csp_pending, is_put, pmcc_both_open, pmcc_closing, pmcc_long_pending,
  pmcc_short_pending, sell_to_close, sell_to_open, shares_held, spread_pending, swing_open,
  swing_pending,
}
use wheelbot.PaperBroker.{is_text}
use wheelbot.PaperBroker.Fills.{is_zero}
use wheelbot.RiskGate.Defs.{AnyProposal, is_sell_to_open, multi, single, symbol_of, strategy_of}
use wheelbot.RiskGate.Screens.{is_buy_to_close, is_swing_id}
use wheelbot.Router.Defs.{OrderRouter}
use wheelbot.Router.Submit.{is_multi_open}
use wheelbot.Store.Orders.{get_by_client_id, update}
use wheelbot.Store.Positions.{Slot, get_by_symbol, insert, update_state}

-- `merged.update(prop_ctx)`
unfoldable pub merge : (context raw : List (String × ℤ)) → List (String × ℤ)
merge [] raw = raw
merge ((k, a) ∷ context) raw = merge context (set_item k a raw)

abbrev with_context : Option (List (String × ℤ)) → Order → Order
with_context none o = o
with_context (some []) o = o
with_context (some (e ∷ context)) o = record o {
  raw_request = some (merge (e ∷ context) (get_or o.raw_request []));
}

abbrev with_width : ℤ → Option (List (String × ℤ)) → Order → Order
with_width width none o = o
with_width width (some raw) o =
    if is_zero width
    then o
    else record o { raw_request = some (set_item "width_dollars" width raw) }

-- The proposal's context is put back on the broker's answer.
unfoldable pub stamped : AnyProposal → Order → Order
unfolding merge
stamped (single p) o = with_context p.raw_request o
stamped (multi q) o = with_width q.width_dollars o.raw_request o

-- The columns that a submission under a known id brings up to date.
abbrev refresh : Order → Order → Order
refresh o existing = record existing {
  broker_order_id =
      if is_text o.broker_order_id then o.broker_order_id else existing.broker_order_id;
  status = o.status;
}

abbrev pub store_under : String → Order → List Order → List Order
store_under c o os = elim (get_by_client_id c os) [
  | none ↦ os ++ o ∷ []
  | some existing ↦ update c (refresh o) os
]

-- `_persist_order`
unfoldable pub persist_order : Order → List Order → List Order
persist_order o os = elim o.client_order_id [
  | none ↦ os ++ o ∷ []
  | some c ↦ if is_text (some c) then store_under c o os else os ++ o ∷ []
]

abbrev swing_state : OrderType → PositionState
swing_state buy_to_open = swing_pending
swing_state _ = swing_open

abbrev pmcc_state : OrderType → PositionState
pmcc_state buy_to_open = pmcc_long_pending
pmcc_state sell_to_open = pmcc_short_pending
pmcc_state sell_to_close = pmcc_closing
pmcc_state _ = pmcc_both_open

abbrev wheel_state : OrderType → (contract_is_put : Bool) → PositionState
wheel_state sell_to_open contract_is_put = if contract_is_put then csp_pending else cc_pending
wheel_state sell_to_close contract_is_put = shares_held
wheel_state _ contract_is_put = if contract_is_put then csp_open else cc_open

unfoldable pub pending_state_for :
    OrderType → (contract_is_put : Bool) → (strategy : String) → (is_swing : Bool) → PositionState
pending_state_for t contract_is_put strategy is_swing =
    if is_swing
    then swing_state t
    else if str_eq strategy "pmcc"
    then pmcc_state t
    else wheel_state t contract_is_put

abbrev pub slot_of : OrderRouter → AnyProposal → Slot
slot_of r p = record { account = r.gate.account_id; symbol = symbol_of p; strategy = strategy_of p }

abbrev pub reason_of : Order → String
reason_of o = text_append "router_pending:" (get_or o.client_order_id "None")

abbrev pub new_row : Slot → PositionState → (now : ℕ) → (reason : String) → Position
new_row k state now reason = record {
  account_id = k.account;
  symbol = k.symbol;
  strategy_id = k.strategy;
  state = state;
  shares = 0;
  cost_basis = none;
  current_cycle_id = none;
  state_changed_at = now;
  state_change_reason = some reason;
}

-- A new row in the state, or the state of the row that is there.
unfoldable pub put_state :
    Slot
    → (if_new if_there : PositionState) → (now : ℕ) → (reason : String) → List Position
    → List Position
put_state k if_new if_there now reason ps = elim (get_by_symbol k.account k.symbol k.strategy ps) [
  | none ↦ insert (new_row k if_new now reason) ps
  | some _ ↦ update_state k if_there reason now ps
]

-- `_upsert_position_pending`: the state of a new row, and that of a row that is there.
abbrev pub new_state : OrderRouter → Proposal → PositionState
new_state r p =
    pending_state_for p.order_type (is_put p.contract.option_type) p.strategy_id
      (is_swing_id p.strategy_id r.gate.strategies)

abbrev pub next_state : OrderRouter → Proposal → PositionState
next_state r p =
    if str_eq p.strategy_id "pmcc"
    then new_state r p
    else if is_sell_to_open p.order_type && not (is_put p.contract.option_type)
    then cc_pending
    else new_state r p

unfoldable pub upsert_position_pending :
    OrderRouter → (now : ℕ) → Proposal → Order → List Position → List Position
unfolding pending_state_for is_swing_id
upsert_position_pending r now p placed ps =
    if str_eq p.strategy_id "pmcc" && is_buy_to_close p.order_type
    then ps
    else put_state (slot_of r (single p)) (new_state r p) (next_state r p) now (reason_of placed) ps

-- `_upsert_position_spread_pending`
unfoldable pub upsert_position_spread_pending :
    OrderRouter → (now : ℕ) → MultiLegProposal → Order → List Position → List Position
upsert_position_spread_pending r now q placed ps =
    put_state (slot_of r (multi q)) spread_pending spread_pending now (reason_of placed) ps

-- Of the packages, only one that opens moves its position.
unfoldable pub upsert_position :
    OrderRouter → (now : ℕ) → AnyProposal → Order → List Position → List Position
upsert_position r now (single p) placed ps = upsert_position_pending r now p placed ps
upsert_position r now (multi q) placed ps =
    if is_multi_open q.order_type then upsert_position_spread_pending r now q placed ps else ps
