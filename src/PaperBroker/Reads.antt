-- ===== src/PaperBroker/Reads.antt =====
-- platforms/paper_broker.py: what the broker reports of its account, positions, chains and orders.
use wheelbot.Common.{
  if◌then◌else◌, Bool, List, Option, String, [], get_or, leb, none, not, select, some, true, ℕ,
  ◌&&◌, ◌*◌, ◌++◌, ◌==◌, ◌∷◌,
}
use wheelbot.Models.{
  Order, Day, OptionContract, OptionType, PositionState, Quote, Symbol, cc_open, csp_open, idle,
  is_put, shares_held,
}
use wheelbot.Broker.{broker_unavailable}
use wheelbot.PaperBroker.{Paper, Result, raised, returned}
use wheelbot.Common.Ratio.{Ratio, quotient, whole}
use wheelbot.Common.Dict.{get, values}
use wheelbot.PaperBroker.Fills.{is_put_order, is_zero}
use wheelbot.Common.Int.{pos, ℤ, ◌*ℤ◌, ◌+ℤ◌}

-- `q.bid or q.ask or 0.0`: zero is false.
abbrev or_zero : Option ℤ → ℤ
or_zero o = get_or o (pos 0)

abbrev mid_mark : Quote → Ratio
mid_mark q = elim q.bid [
  | none ↦ whole (or_zero q.ask)
  | some b ↦ elim q.ask [ some a ↦ quotient (b +ℤ a) 2 | none ↦ whole b ]
]

-- `_mark`: the last price, else the mid, else the side that is there.
unfoldable mark : Symbol → List (String × Quote) → Ratio
mark symbol quotes = elim (get symbol quotes) [
  | none ↦ whole (pos 0)
  | some q ↦ elim q.last [ some l ↦ whole l | none ↦ mid_mark q ]
]

abbrev sum_ratio : Ratio → Ratio → Ratio
sum_ratio a b = record { num = (a.num *ℤ pos b.den) +ℤ (b.num *ℤ pos a.den); den = a.den * b.den }

abbrev times : ℤ → Ratio → Ratio
times n r = record { num = n *ℤ r.num; den = r.den }

-- `sum(shares * self._mark(symbol) ...)`
unfoldable stock_value : List (String × (ℤ × Ratio)) → List (String × Quote) → Ratio
stock_value [] quotes = whole (pos 0)
stock_value ((symbol, (shares, basis)) ∷ stock) quotes =
    sum_ratio (times shares (mark symbol quotes)) (stock_value stock quotes)

-- `get_account`: buying power is the cash. The equity is a fraction, since a mid may be one.
record Report : Type 0 where
  pub account_id : String
  pub cash : ℤ
  pub buying_power : ℤ
  pub equity : Ratio
  pub options_buying_power : ℤ

unfoldable get_account : Paper → Result Report
get_account b =
    if b.unavailable
    then raised broker_unavailable
    else returned b (record {
      account_id = b.account_id;
      cash = b.cash;
      buying_power = b.cash;
      equity = sum_ratio (whole b.cash) (stock_value b.stock b.quotes);
      options_buying_power = b.cash;
    })

-- A position as the broker reports it; `leg` is the contract of an open option's row.
pub record Held : Type 0 where
  pub account_id : String
  pub symbol : Symbol
  pub state : PositionState
  pub shares : ℤ
  pub cost_basis : Option Ratio
  pub leg : Option String

unfoldable pub stock_rows : (account : String) → List (String × (ℤ × Ratio)) → List Held
stock_rows account [] = []
stock_rows account ((symbol, (shares, basis)) ∷ stock) =
    record {
      account_id = account;
      symbol = symbol;
      state = if is_zero shares then idle else shares_held;
      shares = shares;
      cost_basis = some basis;
      leg = none;
    }
    ∷ stock_rows account stock

unfoldable pub option_rows : (account : String) → List (String × Order) → List Held
option_rows account [] = []
option_rows account ((occ, o) ∷ os) =
    record {
      account_id = account;
      symbol = o.symbol;
      state = if is_put_order o then csp_open else cc_open;
      shares = pos 0;
      cost_basis = none;
      leg = some occ;
    }
    ∷ option_rows account os

unfoldable pub get_positions : Paper → Result (List Held)
get_positions b =
    if b.unavailable
    then raised broker_unavailable
    else returned b (stock_rows b.account_id b.stock ++ option_rows b.account_id b.open_options)

unfoldable get_quote : Symbol → Paper → Result Quote
get_quote symbol b =
    if b.unavailable
    then raised broker_unavailable
    else elim (get symbol b.quotes) [ none ↦ raised broker_unavailable | some q ↦ returned b q ]

abbrev same_type : OptionType → OptionType → Bool
same_type a b = if is_put a then is_put b else not (is_put b)

abbrev fits : Option Day → Option OptionType → OptionContract → Bool
fits expiration option_type c =
    elim expiration [ none ↦ true | some e ↦ c.expiration == e ]
    && elim option_type [ none ↦ true | some t ↦ same_type c.option_type t ]

-- The underlying is in upper case, as the model keeps symbols.
unfoldable get_option_chain :
    Symbol → Option Day → Option OptionType → Paper → Result (List OptionContract)
get_option_chain underlying expiration option_type b =
    if b.unavailable
    then raised broker_unavailable
    else returned b (select (fits expiration option_type) (get_or (get underlying b.chains) []))

-- `o.filled_at or o.placed_at`; an order in the store has been placed.
abbrev stamp : Order → ℕ
stamp o = get_or o.filled_at o.placed_at

unfoldable get_orders_since : (since : ℕ) → Paper → Result (List Order)
get_orders_since since b =
    if b.unavailable
    then raised broker_unavailable
    else returned b (select (λ o. leb since (stamp o)) (values b.orders))
