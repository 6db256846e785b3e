-- ===== src/RiskGate/Samples.antt =====
-- Test data for the gate of risk/limits.py and the router: an account of 100,000 with three positions.
use wheelbot.Macro.{Alarms}
use wheelbot.Common.{Bool, String, [], false, none, some, true, ◌∷◌}
use wheelbot.RiskGate.Defs.{
  GateConfig, Market, OrderRow, StrategyEntry, StrategyType, WheelParams, pmcc, wheel,
}
use wheelbot.Models.{
  MultiLegProposal, OptionContract, OptionType, OrderType, Position, PositionState, Proposal,
  Symbol, bull_put, buy_to_close, buy_to_open, call, csp_open, filled, multi_leg_close,
  pmcc_long_open, sell_to_open, spread_open, put,
}
use wheelbot.Common.Int.{negsuc, pos, ℤ}

abbrev no_params : WheelParams
no_params = record {
  buying_power_floor_pct = none;
  max_position_pct_of_account = none;
  max_concurrent_positions = none;
  earnings_blackout_days_before = none;
  earnings_blackout_days_after = none;
  earnings_block_if_spans = none;
  open_interest_min = none;
  volume_min = none;
  bid_ask_spread_max_pct = none;
}

abbrev pub strategy : String → StrategyType → StrategyEntry
strategy name type = record {
  id = name;
  type = type;
  max_concurrent = none;
  time_close = none;
  max_capital_per_position_usd = none;
  macro_event_types = none;
  macro_same_day_only = false;
}

abbrev pub config : GateConfig
config = record {
  account_id = "main";
  max_concurrent_total = some 5;
  wheel_params = no_params;
  strategies = strategy "wheel" wheel ∷ strategy "pmcc" pmcc ∷ [];
  universe = [];
  entry_avoid_days = some 5;
  regime_enabled = true;
  llm_screener_enabled = false;
  tier2_min_score = none;
  macro_config = record {
    enabled = false;
    event_types = [];
    entry_avoid_days = none;
    blackout_days_before = none;
    blackout_days_after = none;
    min_coverage_days = 30;
  };
}

abbrev pub held : String → String → PositionState → Position
held name strategy_name state = record {
  account_id = "main";
  symbol = name;
  strategy_id = strategy_name;
  state = state;
  shares = 0;
  cost_basis = none;
  current_cycle_id = some 3;
  state_changed_at = 0;
  state_change_reason = none;
}

-- The long call that the PMCC's short is sold over.
abbrev long_call : OrderRow
long_call = record {
  cycle_id = 3;
  order_type = buy_to_open;
  option_type = call;
  status = filled;
  placed_at = 10;
  strike = some (pos 40);
  fill_price = some (pos 12);
}

abbrev pub market : (csps_allowed : Bool) → Market
market allowed = record {
  account = record { cash = pos 100000; buying_power = pos 100000; equity = pos 100000 };
  positions =
      held "F" "wheel" csp_open
      ∷ held "SPY" "spreads" spread_open
      ∷ held "T" "pmcc" pmcc_long_open
      ∷ [];
  latest_regime = some (record { csps_allowed = some allowed; bear_calls_allowed = none });
  orders = long_call ∷ [];
  candidates = [];
  macro_events = [];
  next_earnings = λ s. none;
  today = 100;
  utc_today = 100;
}

abbrev pub contract : Symbol → OptionType → ℤ → OptionContract
contract name type strike = record {
  underlying = name;
  occ_symbol = "contract";
  strike = strike;
  expiration = 130;
  option_type = type;
  bid = some (pos 10);
  ask = some (pos 11);
  mid = none;
  last = none;
  volume = some 100;
  open_interest = some 500;
  delta = none;
  underlying_price = none;
}

abbrev pub proposal : Symbol → OptionType → ℤ → OrderType → String → Proposal
proposal name type strike order strategy_name = record {
  symbol = name;
  contract = contract name type strike;
  order_type = order;
  quantity = 1;
  strategy_id = strategy_name;
  trigger_reason = none;
  news_check_profile = none;
  raw_request = none;
}

abbrev pub sell_put : Proposal
sell_put = proposal "GM" put (pos 50) sell_to_open "wheel"

abbrev pub buy_back_put : Proposal
buy_back_put = proposal "F" put (pos 50) buy_to_close "wheel"

abbrev pub pmcc_short : Proposal
pmcc_short = proposal "T" call (pos 55) sell_to_open "pmcc"

abbrev pub close_spread : MultiLegProposal
close_spread = record {
  symbol = "SPY";
  legs = [];
  net_credit_per_spread = negsuc 149;
  max_loss_per_spread = pos 400;
  width_dollars = pos 500;
  quantity = 1;
  strategy_id = "spreads";
  order_type = multi_leg_close;
  direction = bull_put;
  news_check_profile = none;
}

abbrev pub quiet : Alarms
quiet = record { limits = λ k. none; notices = [] }
