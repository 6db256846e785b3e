-- ===== src/Spreads/Tests.antt =====
-- Runs of the close of strategies/spreads.py: a put spread on SPY, short at 50 and long at 49.
use wheelbot.RiskGate.Samples.{market, held}
use wheelbot.Router.Samples.{router, at, world}
use wheelbot.Common.{
  if◌then◌else◌, Option, String, [], arith, false, is_none, none, refl, some, str_eq, true, ℕ, ◌∷◌,
  ◌≡◌, map, ◌*◌, ◌≤◌,
}
use wheelbot.Spreads.{
  Holdings, close_pricing, closing, max_close_debit, open_order_for, propose_close_for_symbol,
  close_leg,
}
use wheelbot.Models.{
  MultiLegProposal, Order, OrderLeg, OrderType, Quote, buy_to_open, filled, multi_leg_open,
  sell_to_open, spread_open, put, OptionContract, bull_put,
}
use wheelbot.Store.Positions.{get_by_symbol}
use wheelbot.Store.Orders.{get_by_client_id}
use wheelbot.Router.Held.{placed_of}
use wheelbot.RiskGate.Defs.{multi}
use wheelbot.Common.Int.{pos, ◌*ℤ◌, ◌+ℤ◌, ◌-ℤ◌, ◌≤ℤ◌, pos_part}
use wheelbot.Spreads.Closes.{propose_close-bounded, propose_close-stops}
use wheelbot.Spreads.Submits.{route-propose_close}
use wheelbot.Router.Samples.{pb}
use wheelbot.Router.Defs.{client_order_id}
use wheelbot.Router.{route}
use wheelbot.Router.Persist.{stamped}
use wheelbot.Router.Submit.{attempts, build_package, request, submit_with_retry}
use wheelbot.Broker.{answer}
use wheelbot.PaperBroker.{find_client, package_order, place_multi_leg_order}
use wheelbot.Spreads.Pairs.{IsViable, select_spread-IsViable}
use wheelbot.Common.Ratio.{Ratio, whole}
use wheelbot.Spreads.Opens.{Scene, build_legs, opening, propose_for_symbol, sizing_quantity}
use wheelbot.Chain.{
  Source, annualized_yield, delta_passes, fetch_filtered_chain, passes_liquidity, populate_greeks,
  spread_passes,
}
use wheelbot.Spreads.Selectors.{SpreadCandidate, SpreadParams, find_long_leg, select_spread}
use wheelbot.Spreads.Wings.{max_close_debit-build_legs}
use wheelbot.Spreads.Sizes.{propose_for_symbol-within_cap}

abbrev leg : String → ℕ → OrderType → OrderLeg
leg name strike action = record {
  contract_symbol = name;
  underlying = "SPY";
  option_type = put;
  strike = pos strike;
  expiration = 130;
  action = action;
  ratio_qty = 1;
}

abbrev opened : Order
opened = record {
  account_id = "main";
  symbol = "SPY";
  strategy_id = some "spreads";
  broker_order_id = some "b-7";
  client_order_id = some "c-7";
  order_type = multi_leg_open;
  contract_symbol = none;
  strike = none;
  expiration = none;
  option_type = none;
  quantity = pos 1;
  limit_price = some (pos 25);
  fill_price = some (pos 25);
  status = filled;
  placed_at = 5;
  filled_at = some 6;
  legs = leg "S" 5000 sell_to_open ∷ leg "L" 4900 buy_to_open ∷ [];
  cycle_id = some 3;
  trigger_reason = none;
  raw_request = some [];
}

-- The spread costs 55 cents at the mids, and 140 to buy at the ask and sell at the bid.
abbrev quotes : String → Option Quote
quotes occ =
    if str_eq occ "S"
    then some (record { bid = some (pos 110); ask = some (pos 200); last = none })
    else some (record { bid = some (pos 60); ask = some (pos 140); last = none })

abbrev holdings : Holdings
holdings = record {
  account_id = "main";
  strategy_id = "spreads";
  params = record { profit_close_pct = none; time_close_dte = none; stop_loss_mult = none };
  today = 100;
  quote = quotes;
  positions = (market true).positions;
  orders = opened ∷ [];
}

abbrev close_spread : MultiLegProposal
close_spread = closing "SPY" "spreads" opened (pos 200)

proposes_close : propose_close_for_symbol holdings "SPY" ≡ some close_spread
unfolding propose_close_for_symbol get_by_symbol open_order_for close_pricing max_close_debit ◌+ℤ◌
    ◌-ℤ◌ ◌*ℤ◌
proposes_close = refl

propose_close-bounded_example :
    (pos 0 -ℤ (pos 100 +ℤ pos 100)) ≤ℤ close_spread.net_credit_per_spread
unfolding max_close_debit ◌-ℤ◌
propose_close-bounded_example =
    propose_close-bounded holdings "SPY" close_spread (pos 100) proposes_close refl

-- The order that the simulated broker makes of the close.
abbrev close_order : Order
close_order = package_order "b-0" 1000 (build_package router "wb-0" close_spread)

close_answered :
    (submit_with_retry
      (request pb router 1000 "wb-0" (multi close_spread))
      router.cfg
      world.broker).reply
    ≡ answer close_order
unfolding submit_with_retry attempts find_client place_multi_leg_order
close_answered = refl

route-propose_close_example :
    placed_of (route router pb (at 1000) (multi close_spread) world).1
    ≡ some (stamped (multi close_spread) close_order)
unfolding get_by_client_id client_order_id
route-propose_close_example =
    route-propose_close holdings "SPY" close_spread router pb (at 1000) world close_order
      proposes_close refl refl refl refl close_answered

propose_close-stops_example : is_none (propose_close_for_symbol holdings "SPY") ≡ false
unfolding get_by_symbol open_order_for close_pricing ◌+ℤ◌ ◌-ℤ◌ ◌*ℤ◌
propose_close-stops_example =
    propose_close-stops holdings "SPY" (held "SPY" "spreads" spread_open) 3 opened (pos 110)
      (pos 280) refl refl refl refl refl refl (omega arith) (omega arith) (omega arith)

-- A chain of three puts, of which the first is short.
abbrev put_at : String → (strike bid ask delta : ℕ) → OptionContract
put_at name strike bid ask delta = record {
  underlying = "F";
  occ_symbol = name;
  strike = pos strike;
  expiration = 135;
  option_type = put;
  bid = some (pos bid);
  ask = some (pos ask);
  mid = none;
  last = none;
  volume = some 10;
  open_interest = some 100;
  delta = some (pos delta);
  underlying_price = none;
}

abbrev short_put : OptionContract
short_put = put_at "P50" 5000 110 130 2500

abbrev long_put : OptionContract
long_put = put_at "P49" 4900 60 80 1500

abbrev puts : Source
puts = record {
  raw = put_at "P48" 4800 30 40 1000 ∷ short_put ∷ long_put ∷ [];
  populate_quotes = λ cs. cs;
  spot = none;
  compute_delta = λ spot c. none;
}

abbrev spread_params : SpreadParams
spread_params = record {
  dte_min = none;
  dte_max = none;
  short_delta_min = none;
  csp_delta_min = none;
  short_delta_max = none;
  csp_delta_max = none;
  open_interest_min = none;
  volume_min = none;
  bid_ask_spread_max_pct = none;
  spread_width_dollars = none;
  min_credit_pct_of_width = none;
  max_capital_per_spread_usd = some (pos 25000);
  direction = none;
}

-- A credit of 50 cents on a width of a dollar.
abbrev candidate : SpreadCandidate
candidate = record {
  short = short_put;
  long = long_put;
  net_credit_per_spread = pos 100;
  max_loss_per_spread = pos 5000;
  width_dollars = pos 100;
  short_yield = record { num = pos 87600; den = 350000 };
}

selects_candidate :
    select_spread put puts puts spread_params none (whole (pos 20)) 100 ≡ some candidate
unfolding select_spread find_long_leg annualized_yield fetch_filtered_chain delta_passes
    passes_liquidity spread_passes populate_greeks ◌+ℤ◌ ◌-ℤ◌ ◌*ℤ◌
selects_candidate = refl

abbrev scene : Scene
scene = record {
  account_id = "main";
  strategy_id = "spreads";
  params = spread_params;
  today = 100;
  positions = [];
  short_chain = λ side. puts;
  full_chain = λ side. puts;
  rank = none;
  rank_min = whole (pos 20);
}

-- At half the size, the cap of 250 dollars holds two spreads that can lose 50 dollars each.
abbrev half_size : Ratio
half_size = record { num = pos 1; den = 2 }

proposes_open :
    propose_for_symbol scene "F" half_size ≡ some (opening scene "F" bull_put half_size candidate)
unfolding propose_for_symbol select_spread find_long_leg annualized_yield fetch_filtered_chain
    delta_passes passes_liquidity spread_passes populate_greeks sizing_quantity get_by_symbol ◌+ℤ◌
    ◌-ℤ◌ ◌*ℤ◌
proposes_open = refl

propose_for_symbol-within_cap_example :
    sizing_quantity (some (pos 25000)) half_size (pos 5000) * (5000 * 2)
    ≤ pos_part (pos 25000 *ℤ pos 1)
propose_for_symbol-within_cap_example =
    propose_for_symbol-within_cap scene "F" half_size
      (opening scene "F" bull_put half_size candidate) (pos 25000) proposes_open refl (omega arith)

select_spread-IsViable_example : IsViable put (whole (pos 25)) candidate
select_spread-IsViable_example =
    select_spread-IsViable put puts puts spread_params none (whole (pos 20)) 100 candidate
      selects_candidate

max_close_debit-build_legs_example :
    max_close_debit (map close_leg (build_legs candidate)) ≡ some (pos 100)
max_close_debit-build_legs_example =
    max_close_debit-build_legs put puts puts spread_params none (whole (pos 20)) 100 candidate
      selects_candidate refl
