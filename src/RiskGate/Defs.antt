-- ===== src/RiskGate/Defs.antt =====
-- risk/limits.py: the rules' names and results, the configuration that they read, and the two
-- helpers that they share.
use wheelbot.Common.{
  if◌then◌else◌, Bool, List, Option, String, [], false, get_or, none, some, str_eq, true, ℕ, ◌&&◌,
  ◌*◌, ◌∷◌,
}
use wheelbot.Models.{
  Account, Day, MultiLegProposal, OptionContract, OptionType, OrderStatus, OrderType, Position,
  Proposal, Symbol, buy_to_close, buy_to_open, is_put, multi_leg_close, sell_to_close, sell_to_open,
}
use wheelbot.Macro.{MacroConfig, MacroEvent}
use wheelbot.Common.Ratio.{Ratio}
use wheelbot.Common.Int.{leb_ℤ, ltb_ℤ, pos, ℤ, ◌*ℤ◌, ◌+ℤ◌}

-- A proposal of either kind.
pub data AnyProposal : Type 0 where
  single : Proposal → AnyProposal
  multi : MultiLegProposal → AnyProposal

pub data Rule : Type 0 where
  buying_power_floor per_position_cap concurrent_positions_cap concurrent_total_cap : Rule
  earnings_blackout cc_strike_floor liquidity regime tier2_screen macro_blackout : Rule
  pmcc_position_cap pmcc_short_above_breakeven : Rule

pub data Status : Type 0 where
  pass fail skip : Status

-- `RuleResult`, without its text.
pub record RuleResult : Type 0 where
  pub rule : Rule
  pub status : Status

abbrev pub is_fail : Status → Bool
is_fail fail = true
is_fail _ = false

abbrev pub pass_if : Bool → Status
pass_if true = pass
pass_if false = fail

-- The wheel parameters that the rules read; the same keys are a ticker's overrides.
pub record WheelParams : Type 0 where
  pub buying_power_floor_pct : Option Ratio
  pub max_position_pct_of_account : Option Ratio
  pub max_concurrent_positions : Option ℕ
  pub earnings_blackout_days_before : Option ℕ
  pub earnings_blackout_days_after : Option ℕ
  pub earnings_block_if_spans : Option Bool
  pub open_interest_min : Option ℕ
  pub volume_min : Option ℕ
  pub bid_ask_spread_max_pct : Option Ratio

pub record UniverseEntry : Type 0 where
  pub symbol : Symbol
  pub tier : ℕ
  pub overrides : WheelParams

-- The type of a strategy; `other` is any text that the code has no case for.
pub data StrategyType : Type 0 where
  wheel vertical_spread iron_condor calendar pmcc swing other : StrategyType

-- An entry of the configuration's `strategies` list, as far as the gate reads it. `time_close` is
-- the parameter that the strategy's type names.
pub record StrategyEntry : Type 0 where
  pub id : String
  pub type : StrategyType
  pub max_concurrent : Option ℕ
  pub time_close : Option ℕ
  pub max_capital_per_position_usd : Option ℤ
  pub macro_event_types : Option (List String)
  pub macro_same_day_only : Bool

pub record GateConfig : Type 0 where
  pub account_id : String
  pub max_concurrent_total : Option ℕ
  pub wheel_params : WheelParams
  pub strategies : List StrategyEntry
  pub universe : List UniverseEntry
  pub entry_avoid_days : Option ℕ
  pub regime_enabled : Bool
  pub llm_screener_enabled : Bool
  pub tier2_min_score : Option Ratio
  pub macro_config : MacroConfig

pub record RegimeRow : Type 0 where
  pub csps_allowed : Option Bool
  pub bear_calls_allowed : Option Bool

-- A row of `orders`, as far as the breakeven rule reads it.
pub record OrderRow : Type 0 where
  pub cycle_id : ℕ
  pub order_type : OrderType
  pub option_type : OptionType
  pub status : OrderStatus
  pub placed_at : ℕ
  pub strike : Option ℤ
  pub fill_price : Option ℤ

-- A row of `candidates`.
pub record Candidate : Type 0 where
  pub symbol : Symbol
  pub run_date : Day
  pub score : Option Ratio

-- What the gate reads of the account, the database and the earnings source. `today` is the day of
-- the call and `utc_today` SQLite's `date('now')`.
pub record Market : Type 0 where
  pub account : Account
  pub positions : List Position
  pub latest_regime : Option RegimeRow
  pub orders : List OrderRow
  pub candidates : List Candidate
  pub macro_events : List MacroEvent
  pub next_earnings : Symbol → Option Day
  pub today : Day
  pub utc_today : Day

abbrev pub order_type_of : AnyProposal → OrderType
order_type_of (single p) = p.order_type
order_type_of (multi p) = p.order_type

abbrev pub symbol_of : AnyProposal → Symbol
symbol_of (single p) = p.symbol
symbol_of (multi p) = p.symbol

abbrev pub strategy_of : AnyProposal → String
strategy_of (single p) = p.strategy_id
strategy_of (multi p) = p.strategy_id

abbrev pub is_close_type : OrderType → Bool
is_close_type buy_to_close = true
is_close_type sell_to_close = true
is_close_type multi_leg_close = true
is_close_type _ = false

abbrev pub is_close : AnyProposal → Bool
is_close p = is_close_type (order_type_of p)

abbrev pub is_buy_to_open : OrderType → Bool
is_buy_to_open buy_to_open = true
is_buy_to_open _ = false

abbrev pub is_sell_to_open : OrderType → Bool
is_sell_to_open sell_to_open = true
is_sell_to_open _ = false

-- `contract.underlying_price or contract.strike`: zero is false.
abbrev underlying_or_strike : OptionContract → ℤ
underlying_or_strike c = elim c.underlying_price [
  | none ↦ c.strike
  | some u ↦ if leb_ℤ u (pos 0) && leb_ℤ (pos 0) u then c.strike else u
]

-- The debit for one contract, from the mid, or from bid and ask: `(bid + ask) / 2 * 100`.
abbrev debit_per_contract : OptionContract → Option ℤ
debit_per_contract c = elim c.mid [
  | some m ↦ some (m *ℤ pos 100)
  | none ↦ elim c.bid [
    | none ↦ none
    | some b ↦ elim c.ask [ none ↦ none | some a ↦ some ((b +ℤ a) *ℤ pos 50) ]
  ]
]

abbrev secured : OptionContract → ℕ → ℤ
secured c quantity =
    if is_put c.option_type
    then c.strike *ℤ pos (100 * quantity)
    else underlying_or_strike c *ℤ pos (100 * quantity)

abbrev single_notional : Proposal → ℤ
single_notional p =
    if is_buy_to_open p.order_type
    then elim (debit_per_contract p.contract) [
      | none ↦ secured p.contract p.quantity
      | some d ↦ if ltb_ℤ (pos 0) d then d *ℤ pos p.quantity else secured p.contract p.quantity
    ]
    else secured p.contract p.quantity

-- The capital at risk.
unfoldable pub notional : AnyProposal → ℤ
notional (multi p) = p.max_loss_per_spread *ℤ pos p.quantity
notional (single p) = single_notional p

-- `base.update(overrides)`, key by key.
abbrev or_else {ℓ} : {A : Type ℓ} → Option A → Option A → Option A
or_else (some a) b = some a
or_else none b = b

abbrev updated : WheelParams → WheelParams → WheelParams
updated o b = record {
  buying_power_floor_pct = or_else o.buying_power_floor_pct b.buying_power_floor_pct;
  max_position_pct_of_account = or_else o.max_position_pct_of_account b.max_position_pct_of_account;
  max_concurrent_positions = or_else o.max_concurrent_positions b.max_concurrent_positions;
  earnings_blackout_days_before =
      or_else o.earnings_blackout_days_before b.earnings_blackout_days_before;
  earnings_blackout_days_after =
      or_else o.earnings_blackout_days_after b.earnings_blackout_days_after;
  earnings_block_if_spans = or_else o.earnings_block_if_spans b.earnings_block_if_spans;
  open_interest_min = or_else o.open_interest_min b.open_interest_min;
  volume_min = or_else o.volume_min b.volume_min;
  bid_ask_spread_max_pct = or_else o.bid_ask_spread_max_pct b.bid_ask_spread_max_pct;
}

-- The ticker's entry in the universe.
unfoldable pub get_universe_entry : Symbol → List UniverseEntry → Option UniverseEntry
get_universe_entry symbol [] = none
get_universe_entry symbol (e ∷ es) =
    let rest = get_universe_entry symbol es in if str_eq e.symbol symbol then some e else rest

unfoldable pub effective_wheel_params : Symbol → GateConfig → WheelParams
effective_wheel_params symbol cfg = elim (get_universe_entry symbol cfg.universe) [
  | none ↦ cfg.wheel_params
  | some e ↦ updated e.overrides cfg.wheel_params
]

-- The strategy's entry in the configuration: the first of its id.
unfoldable pub strategy_entry : String → List StrategyEntry → Option StrategyEntry
strategy_entry id [] = none
strategy_entry id (s ∷ ss) =
    let rest = strategy_entry id ss in if str_eq s.id id then some s else rest

abbrev default_time_close : StrategyType → ℕ
default_time_close wheel = 0
default_time_close vertical_spread = 7
default_time_close iron_condor = 7
default_time_close calendar = 2
default_time_close pmcc = 1
default_time_close _ = 0

abbrev time_close_of : StrategyType → Option ℕ → ℕ
time_close_of swing raw = 0
time_close_of other raw = 0
time_close_of t raw = get_or raw (default_time_close t)

-- Days before the expiration at which the strategy closes its short leg.
unfoldable pub planned_time_close_dte : String → List StrategyEntry → ℕ
planned_time_close_dte id ss = elim (strategy_entry id ss) [
  | none ↦ 0
  | some s ↦ time_close_of s.type s.time_close
]
