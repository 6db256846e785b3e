-- ===== src/PaperBroker.antt =====
-- platforms/paper_broker.py, PaperBroker: the simulated broker, its orders, cash, shares and open
-- options. The id that the code draws at random is an argument of the operations that draw one.
pub mod Fills
pub mod Reads
pub mod Steps
pub mod History
pub mod Retry
pub mod Turns
pub mod Wheel
pub mod Interface
pub mod Cancel
mod Tests
use wheelbot.Common.{
  if◌then◌else◌, Bool, List, Option, String, [], false, none, not, some, str_eq, true, ℕ, ◌∷◌, all,
  length, ◌==◌,
}
use wheelbot.Broker.{BrokerError, Package, broker_unavailable, order_rejected}
use wheelbot.Models.{
  Day, Order, OptionContract, OptionType, OrderLeg, OrderStatus, OrderType, Quote, Symbol, pending,
  buy_to_close, cancelled, multi_leg_close, multi_leg_open, partial, sell_to_close, put,
}
use wheelbot.Common.Ratio.{Ratio}
use wheelbot.Common.Int.{ℤ, leb_ℤ, pos}
use wheelbot.Common.Dict.{get, set_item}

-- `stock` holds the shares and the cost basis of a symbol.
pub record Paper : Type 0 where
  pub account_id : String
  pub cash : ℤ
  pub stock : List (String × (ℤ × Ratio))
  pub open_options : List (String × Order)
  pub orders : List (String × Order)
  pub quotes : List (String × Quote)
  pub chains : List (String × List OptionContract)
  pub unavailable : Bool

-- An operation raises before it has changed anything, or returns the broker's new state and a
-- value.
pub data Result (A : Type 0) : Type 0 where
  raised : BrokerError → Result A
  returned : Paper → A → Result A

-- The state after a call: a call that raises leaves it.
abbrev pub after : {A : Type 0} → Result A → Paper → Paper
after (raised e) b = b
after (returned b' a) b = b'

-- Whether a text that may be missing is truthy.
abbrev pub is_text : Option String → Bool
is_text none = false
is_text (some s) = not (str_eq s "")

abbrev pub same_text : Option String → Option String → Bool
same_text none none = true
same_text (some a) (some b) = str_eq a b
same_text _ _ = false

-- The first order that carries the client's id.
unfoldable pub find_client : Option String → List (String × Order) → Option Order
find_client c [] = none
find_client c ((k, o) ∷ os) =
    let rest = find_client c os in if same_text o.client_order_id c then some o else rest

-- The prior order of a retry.
abbrev pub prior : Option String → List (String × Order) → Option Order
prior c os = if is_text c then find_client c os else none

-- The broker replaces raw_request by its dump of the order, which repeats the order's fields.
abbrev pub stored : (id : String) → Order → Order
stored id o = record o {
  broker_order_id = some id;
  status = pending;
  legs = [];
  raw_request = some [];
}

-- `place_order`; `id` is the new order's id. The code's draw has the prefix `paper-`.
unfoldable pub place_order : (id : String) → Order → Paper → Result Order
place_order id o b =
    if b.unavailable then raised broker_unavailable else elim (prior o.client_order_id b.orders) [
      | some existing ↦ returned b existing
      | none ↦
          if leb_ℤ o.quantity (pos 0)
          then raised order_rejected
          else returned (record b { orders = set_item id (stored id o) b.orders }) (stored id o)
    ]

abbrev is_to_close : OrderType → Bool
is_to_close sell_to_close = true
is_to_close buy_to_close = true
is_to_close _ = false

abbrev package_type : List OrderLeg → OrderType
package_type legs = if all (λ l. is_to_close l.action) legs then multi_leg_close else multi_leg_open

abbrev pub package_order : (id : String) → (now : ℕ) → Package → Order
package_order id now g = record {
  account_id = g.account_id;
  symbol = g.underlying;
  strategy_id = g.strategy_id;
  broker_order_id = some id;
  client_order_id = g.client_order_id;
  order_type = package_type g.legs;
  contract_symbol = none;
  strike = none;
  expiration = none;
  option_type = none;
  quantity = g.quantity;
  limit_price = g.limit_price;
  fill_price = none;
  status = pending;
  placed_at = now;
  filled_at = none;
  legs = g.legs;
  cycle_id = none;
  trigger_reason = none;
  raw_request = some [];
}

unfoldable pub place_multi_leg_order : (id : String) (now : ℕ) → Package → Paper → Result Order
place_multi_leg_order id now g b =
    if b.unavailable
    then raised broker_unavailable
    else if length g.legs == 0
    then raised order_rejected
    else if leb_ℤ g.quantity (pos 0)
    then raised order_rejected
    else elim (prior g.client_order_id b.orders) [
      | some existing ↦ returned b existing
      | none ↦
          returned (record b { orders = set_item id (package_order id now g) b.orders })
            (package_order id now g)
    ]

-- `order.status in (PENDING, PARTIAL)`
abbrev pub is_open : OrderStatus → Bool
is_open pending = true
is_open partial = true
is_open _ = false

unfoldable pub cancel_order : (id : String) → Paper → Result Unit
cancel_order id b = if b.unavailable then raised broker_unavailable else elim (get id b.orders) [
  | none ↦ returned b tt
  | some o ↦
      if is_open o.status
      then returned (record b { orders = set_item id (record o { status = cancelled }) b.orders })
          tt
      else returned b tt
]

-- The helpers that set the market's data and the broker's failure.
pub seed_quote : Symbol → Quote → Paper → Paper
seed_quote symbol quote b = record b { quotes = set_item symbol quote b.quotes }

pub seed_chain : Symbol → List OptionContract → Paper → Paper
seed_chain underlying contracts b = record b { chains = set_item underlying contracts b.chains }

pub set_unavailable : Bool → Paper → Paper
set_unavailable value b = record b { unavailable = value }
