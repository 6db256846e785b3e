-- ===== src/RiskGate/Events.antt =====
-- risk/limits.py, the rules on dates: 4 (earnings) and the macro blackout.
use wheelbot.Common.{
  if◌then◌else◌, Bool, List, Option, String, [], false, get_or, is_none, length, none, not, some,
  true, ℕ, ◌==◌, ◌∷◌,
}
use wheelbot.Macro.{
  Alarms, MacroConfig, MacroEvent, is_blackout, maybe_alert_empty, maybe_alert_stale,
}
use wheelbot.RiskGate.Defs.{
  AnyProposal, GateConfig, Market, Status, StrategyEntry, WheelParams, fail, is_buy_to_open,
  is_close, is_sell_to_open, multi, order_type_of, pass, pass_if, planned_time_close_dte, single,
  skip, strategy_entry, strategy_of, symbol_of,
}
use wheelbot.Models.{Day, OrderLeg}
use wheelbot.Earnings.{Window, in_blackout}

-- The first leg that is sold to open, else the first leg.
abbrev first_short : List OrderLeg → Option OrderLeg
first_short [] = none
first_short (l ∷ ls) =
    let rest = first_short ls in if is_sell_to_open l.action then some l else rest

abbrev short_leg : List OrderLeg → Option OrderLeg
short_leg [] = none
short_leg (l ∷ ls) = some (get_or (first_short (l ∷ ls)) l)

-- The expiration that the date rules look at. A package with no legs has none.
unfoldable pub short_expiration : AnyProposal → Option Day
short_expiration (single p) = some p.contract.expiration
short_expiration (multi p) = elim (short_leg p.legs) [ none ↦ none | some l ↦ some l.expiration ]

-- The days that the gate passes to data/earnings.py.
abbrev window_of : AnyProposal → GateConfig → WheelParams → Window
window_of p cfg params = record {
  days_before = get_or params.earnings_blackout_days_before 5;
  days_after = get_or params.earnings_blackout_days_after 2;
  block_if_spans = get_or params.earnings_block_if_spans true;
  entry_avoid_days = cfg.entry_avoid_days;
  time_close_dte = some (planned_time_close_dte (strategy_of p) cfg.strategies);
}

-- `_rule_earnings` and `_rule_earnings_multi_leg`; a package with no legs raises in the source,
-- and no selector builds one: the model skips it.
unfoldable pub rule_earnings : AnyProposal → GateConfig → WheelParams → Market → Status
rule_earnings p cfg params m = if is_close p then skip else elim (short_expiration p) [
  | none ↦ skip
  | some expiration ↦
      elim (in_blackout (window_of p cfg params) (m.next_earnings (symbol_of p)) expiration
        m.today) [ none ↦ skip | some true ↦ fail | some false ↦ pass ]
]

-- The days and event types of a blackout: the configuration's, or the strategy's own.
abbrev macro_types : Option StrategyEntry → MacroConfig → List String
macro_types none cfg = cfg.event_types
macro_types (some s) cfg = get_or s.macro_event_types cfg.event_types

abbrev same_day : Option StrategyEntry → Bool
same_day none = false
same_day (some s) = s.macro_same_day_only

abbrev macro_block : AnyProposal → GateConfig → Market → (expiration : Day) → Option MacroEvent
macro_block p cfg m expiration =
    let entry = strategy_entry (strategy_of p) cfg.strategies in
    let types = macro_types entry cfg.macro_config in
    if same_day entry
    then is_blackout cfg.macro_config m.macro_events m.today expiration types (some 0) (some 0)
        (some 0)
    else is_blackout cfg.macro_config m.macro_events m.today expiration types
        cfg.macro_config.entry_avoid_days none none

-- The rule also raises the calendar's alarms. `clock` is the time that the rate limit reads.
unfoldable pub rule_macro_blackout :
    AnyProposal → GateConfig → Market → (clock : ℕ) → Alarms → Alarms × Status
rule_macro_blackout p cfg m clock a =
    if is_close p
    then (a, skip)
    else if is_buy_to_open (order_type_of p)
    then (a, skip)
    else if not cfg.macro_config.enabled
    then (a, skip)
    else elim (short_expiration p) [
      | none ↦ (a, skip)
      | some expiration ↦
          if length m.macro_events == 0 then (maybe_alert_empty clock m.macro_events a, skip) else (
            maybe_alert_stale cfg.macro_config m.today clock m.macro_events a,
            pass_if (is_none (macro_block p cfg m expiration)),
          )
    ]
