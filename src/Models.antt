-- ===== src/Models.antt =====
-- core/strategies.py, StrategyDefinition, with the parameters that the risk monitors read, and the
-- data types of core/models.py. A key or a column that is left out is `none`.
use wheelbot.Common.{Bool, Option, String, List, false, true, ℕ}
use wheelbot.Common.Int.{ℤ}
use wheelbot.Common.Ratio.{Ratio}

pub record Strategy : Type 0 where
  pub id : String
  pub enabled : Bool
  pub auto_disable_drawdown_usd : Option ℤ
  pub drawdown_warning_usd : Option ℤ
  pub win_rate_floor_pct : Option Ratio
  pub expectancy_floor_usd : Option Ratio

-- core/models.py: the enumerations.
pub data PositionState : Type 0 where
  idle scanning csp_pending csp_open roll_eval csp_closed : PositionState
  assigned shares_held cc_pending cc_open cc_closed called_away : PositionState
  spread_pending spread_open spread_closed spread_assigned : PositionState
  pmcc_long_pending pmcc_long_open pmcc_short_pending pmcc_both_open pmcc_closing : PositionState
  swing_pending swing_open : PositionState
  broker_down manual_intervention killed : PositionState

pub data OrderType : Type 0 where
  sell_to_open buy_to_close buy_to_open sell_to_close multi_leg_open multi_leg_close : OrderType

pub data OptionType : Type 0 where
  put call : OptionType

pub data OrderStatus : Type 0 where
  pending filled partial cancelled rejected : OrderStatus

abbrev pub is_put : OptionType → Bool
is_put put = true
is_put call = false

abbrev pub is_idle : PositionState → Bool
is_idle idle = true
is_idle _ = false

abbrev pub is_spread_closed : PositionState → Bool
is_spread_closed spread_closed = true
is_spread_closed _ = false

-- A ticker symbol, in the upper case in which the code compares symbols.
abbrev pub Symbol : Type 0
Symbol = String

-- A day, as its number.
abbrev pub Day : Type 0
Day = ℕ

pub record Position : Type 0 where
  pub account_id : String
  pub symbol : Symbol
  pub strategy_id : String
  pub state : PositionState
  pub shares : ℕ
  pub cost_basis : Option Ratio
  pub current_cycle_id : Option ℕ
  pub state_changed_at : ℕ
  pub state_change_reason : Option String

-- A contract's delta is in ten-thousandths.
pub record OptionContract : Type 0 where
  pub underlying : Symbol
  pub occ_symbol : String
  pub strike : ℤ
  pub expiration : Day
  pub option_type : OptionType
  pub bid : Option ℤ
  pub ask : Option ℤ
  pub mid : Option ℤ
  pub last : Option ℤ
  pub volume : Option ℕ
  pub open_interest : Option ℕ
  pub delta : Option ℤ
  pub underlying_price : Option ℤ

pub record OrderLeg : Type 0 where
  pub contract_symbol : String
  pub underlying : Symbol
  pub option_type : OptionType
  pub strike : ℤ
  pub expiration : Day
  pub action : OrderType
  pub ratio_qty : ℕ

-- An order, with the legs that raw_request lists in a field of their own. `raw_request` has the other
-- keys that the bot reads again, whose values are numbers; the dump of the order itself is left out.
pub record Order : Type 0 where
  pub account_id : String
  pub symbol : Symbol
  pub strategy_id : Option String
  pub broker_order_id : Option String
  pub client_order_id : Option String
  pub order_type : OrderType
  pub contract_symbol : Option String
  pub strike : Option ℤ
  pub expiration : Option Day
  pub option_type : Option OptionType
  pub quantity : ℤ
  pub limit_price : Option ℤ
  pub fill_price : Option ℤ
  pub status : OrderStatus
  pub placed_at : ℕ
  pub filled_at : Option ℕ
  pub legs : List OrderLeg
  pub cycle_id : Option ℕ
  pub trigger_reason : Option String
  pub raw_request : Option (List (String × ℤ))

-- strategies/wheel.py, Proposal.
pub record Proposal : Type 0 where
  pub symbol : Symbol
  pub contract : OptionContract
  pub order_type : OrderType
  pub quantity : ℕ
  pub strategy_id : String
  pub trigger_reason : Option String
  pub news_check_profile : Option String
  pub raw_request : Option (List (String × ℤ))

pub data Direction : Type 0 where
  bull_put bear_call iron_condor calendar : Direction

-- strategies/spreads.py, MultiLegProposal. The net credit, which is a difference of mids, is in half
-- cents where the other amounts are in cents.
pub record MultiLegProposal : Type 0 where
  pub symbol : Symbol
  pub legs : List OrderLeg
  pub net_credit_per_spread : ℤ
  pub max_loss_per_spread : ℤ
  pub width_dollars : ℤ
  pub quantity : ℕ
  pub strategy_id : String
  pub order_type : OrderType
  pub direction : Direction
  pub news_check_profile : Option String

pub record Account : Type 0 where
  pub cash : ℤ
  pub buying_power : ℤ
  pub equity : ℤ

pub record Quote : Type 0 where
  pub bid : Option ℤ
  pub ask : Option ℤ
  pub last : Option ℤ
