-- ===== src/PaperBroker/Fills.antt =====
-- platforms/paper_broker.py: what a fill, an assignment and an expiration do to cash, shares and
-- open options.
use Prim.Native.String.{◌++◌ as text_append}
use wheelbot.Common.{
  if◌then◌else◌, Bool, List, Option, String, [], false, get_or, none, not, some, true, ℕ, ◌&&◌, ◌∷◌,
}
use wheelbot.Broker.{assertion_error, key_error, value_error}
use wheelbot.PaperBroker.{Paper, Result, is_open, is_text, raised, returned}
use wheelbot.Models.{
  Order, put, OrderLeg, OrderType, Symbol, buy_to_close, buy_to_open, filled, multi_leg_close,
  multi_leg_open, sell_to_close, sell_to_open,
}
use wheelbot.Common.Ratio.{Ratio, divide, whole}
use wheelbot.Common.Dict.{get, pop, set_item}
use wheelbot.Common.Int.{leb_ℤ, pos, ℤ, ◌*ℤ◌, ◌+ℤ◌, ◌-ℤ◌}

abbrev shares_of : String → Paper → ℤ × Ratio
shares_of symbol b = get_or (get symbol b.stock) (pos 0, whole (pos 0))

-- `(existing_shares * existing_basis + shares * price) / new_shares`
abbrev pub average : (held : ℤ × Ratio) → (shares price total : ℤ) → Ratio
average (n, basis) shares price total =
    get_or
      (divide ((n *ℤ basis.num) +ℤ (shares *ℤ price) *ℤ pos basis.den) (pos basis.den *ℤ total))
      (whole (pos 0))

abbrev pub is_zero : ℤ → Bool
is_zero a = leb_ℤ a (pos 0) && leb_ℤ (pos 0) a

unfoldable pub add_shares : Symbol → (shares price : ℤ) → Paper → Paper
add_shares symbol shares price b =
    let held = shares_of symbol b in
    let total = held.0 +ℤ shares in
    if is_zero total
    then record b { stock = pop symbol b.stock }
    else record b { stock = set_item symbol (total, average held shares price total) b.stock }

unfoldable pub remove_shares : Symbol → (shares : ℤ) → Paper → Paper
remove_shares symbol shares b =
    let held = shares_of symbol b in
    let total = held.0 -ℤ shares in
    if leb_ℤ total (pos 0)
    then record b { stock = pop symbol b.stock }
    else record b { stock = set_item symbol (total, held.1) b.stock }

abbrev credit : ℤ → Paper → Paper
credit amount b = record b { cash = b.cash +ℤ amount }

abbrev debit : ℤ → Paper → Paper
debit amount b = record b { cash = b.cash -ℤ amount }

abbrev open_option : String → Order → Paper → Paper
open_option c o b = record b { open_options = set_item c o b.open_options }

abbrev pub drop_option : String → Paper → Paper
drop_option c b = record b { open_options = pop c b.open_options }

-- The contract's symbol, where it is truthy.
abbrev pub contract_of : Order → Option String
contract_of o = if is_text o.contract_symbol then o.contract_symbol else none

-- `100 * contracts`
abbrev pub lot : Order → ℤ
lot o = pos 100 *ℤ o.quantity

abbrev pub on_option : OrderType → Order → String → (price : ℤ) → Paper → Paper
on_option sell_to_open o c price b = open_option c o (credit (price *ℤ lot o) b)
on_option buy_to_close o c price b = drop_option c (debit (price *ℤ lot o) b)
on_option buy_to_open o c price b = open_option c o (debit (price *ℤ o.quantity) b)
on_option sell_to_close o c price b = drop_option c (credit (price *ℤ o.quantity) b)
on_option _ o c price b = b

abbrev pub on_stock : OrderType → Order → (price : ℤ) → Paper → Paper
on_stock buy_to_open o price b =
    add_shares o.symbol o.quantity price (debit (price *ℤ o.quantity) b)
on_stock sell_to_close o price b =
    remove_shares o.symbol o.quantity (credit (price *ℤ o.quantity) b)
on_stock _ o price b = b

unfoldable pub apply_fill : Order → (price : ℤ) → Paper → Paper
apply_fill o price b = elim (contract_of o) [
  | none ↦ on_stock o.order_type o price b
  | some c ↦ on_option o.order_type o c price b
]

-- `fill_price if fill_price is not None else (order.limit_price or 0.0)`
abbrev price_of : Option ℤ → Order → ℤ
price_of given o = get_or given (get_or o.limit_price (pos 0))

abbrev pub filled_at_price : Order → (price : ℤ) → (now : ℕ) → Order
filled_at_price o price now = record o {
  status = filled;
  fill_price = some price;
  filled_at = some now;
}

abbrev put_order : String → Order → Paper → Paper
put_order id o b = record b { orders = set_item id o b.orders }

unfoldable pub fill_order : (id : String) (fill_price : Option ℤ) (now : ℕ) → Paper → Result Order
fill_order id fill_price now b = elim (get id b.orders) [
  | none ↦ raised key_error
  | some o ↦
      let price = price_of fill_price o in
      let result = filled_at_price o price now in
      if is_open o.status
      then returned (put_order id result (apply_fill o price b)) result
      else raised value_error
]

abbrev pub is_package : OrderType → Bool
is_package multi_leg_open = true
is_package multi_leg_close = true
is_package _ = false

-- The order that stands for one leg of a filled package.
abbrev pub synthetic : (id : String) → Order → OrderLeg → (now : ℕ) → Order
synthetic id o l now = record {
  account_id = o.account_id;
  symbol = l.underlying;
  strategy_id = o.strategy_id;
  broker_order_id = some id;
  client_order_id = none;
  order_type = l.action;
  contract_symbol = some l.contract_symbol;
  strike = some l.strike;
  expiration = some l.expiration;
  option_type = some l.option_type;
  quantity = pos l.ratio_qty *ℤ o.quantity;
  limit_price = none;
  fill_price = none;
  status = filled;
  placed_at = o.placed_at;
  filled_at = some now;
  legs = [];
  cycle_id = none;
  trigger_reason = none;
  raw_request = none;
}

abbrev pub leg_id : (id : String) → OrderLeg → String
leg_id id l = text_append (text_append id "-leg-") l.contract_symbol

abbrev pub apply_leg : OrderType → (contract : String) → Order → Paper → Paper
apply_leg sell_to_open c s b = open_option c s b
apply_leg buy_to_open c s b = open_option c s b
apply_leg sell_to_close c s b = drop_option c b
apply_leg buy_to_close c s b = drop_option c b
apply_leg _ c s b = b

unfoldable pub apply_legs : (id : String) → Order → (now : ℕ) → List OrderLeg → Paper → Paper
apply_legs id o now [] b = b
apply_legs id o now (l ∷ ls) b =
    apply_legs id o now ls
      (apply_leg l.action l.contract_symbol (synthetic (leg_id id l) o l now) b)

unfoldable pub fill_multi_leg :
    (id : String) (fill_price : Option ℤ) (now : ℕ) → Paper → Result Order
fill_multi_leg id fill_price now b = elim (get id b.orders) [
  | none ↦ raised key_error
  | some o ↦
      let price = price_of fill_price o in
      let result = filled_at_price o price now in
      if not (is_package o.order_type)
      then raised value_error
      else if is_open o.status
      then returned (put_order id result (apply_legs id o now o.legs (credit (price *ℤ lot o) b)))
          result
      else raised value_error
]

abbrev pub is_put_order : Order → Bool
is_put_order o = elim o.option_type [ some put ↦ true | _ ↦ false ]

abbrev pub deliver : Order → (strike : ℤ) → Paper → Paper
deliver o strike b =
    if is_put_order o
    then add_shares o.symbol (lot o) strike (debit (strike *ℤ lot o) b)
    else remove_shares o.symbol (lot o) (credit (strike *ℤ lot o) b)

-- `assign`: shares change hands at the strike and the leg is gone.
unfoldable pub assign : (occ_symbol : String) → Paper → Result Unit
assign occ b = elim (get occ b.open_options) [
  | none ↦ raised value_error
  | some o ↦ elim o.strike [
    | none ↦ raised assertion_error
    | some strike ↦ returned (drop_option occ (deliver o strike b)) tt
  ]
]

unfoldable pub expire : (occ_symbol : String) → Paper → Paper
expire occ b = drop_option occ b
