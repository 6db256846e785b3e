-- ===== src/RiskGate/Tests.antt =====
-- Runs of the gate of risk/limits.py on an account of 100,000.
use wheelbot.RiskGate.Samples.{config, market, pmcc_short, quiet, sell_put, strategy}
use wheelbot.RiskGate.Defs.{
  GateConfig, StrategyEntry, effective_wheel_params, get_universe_entry, notional, pmcc, single,
  strategy_entry, wheel,
}
use wheelbot.Common.{[], length, none, refl, select, some, true, ◌+◌, ◌∷◌, ◌≡◌, ◌≤◌}
use wheelbot.RiskGate.{evaluate, first_failure, results_of}
use wheelbot.Common.Int.{◌*ℤ◌, ◌+ℤ◌, ◌-ℤ◌}
use wheelbot.RiskGate.Passed.{IsAffordable, evaluate-IsAffordable}
use wheelbot.RiskGate.Slots.{evaluate_own_room, takes_slot}
use wheelbot.RiskGate.Breakeven.{IsCovered, evaluate-long_breakeven}
use wheelbot.RiskGate.Screens.{
  is_swing_id, latest_long, long_breakeven, rule_cc_strike_floor, rule_liquidity,
  rule_pmcc_short_above_breakeven, rule_regime, rule_tier2_screen,
}
use wheelbot.Earnings.{in_blackout}
use wheelbot.RiskGate.Concurrent.{list_active, rule_concurrent_cap, rule_concurrent_total}
use wheelbot.RiskGate.Capital.{rule_buying_power, rule_pmcc_position_cap, rule_position_cap}
use wheelbot.RiskGate.Events.{rule_earnings, rule_macro_blackout, short_expiration}
use wheelbot.Store.Positions.{get_by_symbol}

sell_put_passes : (evaluate (single sell_put) config (market true) 0 quiet).1 ≡ none
unfolding evaluate results_of first_failure rule_buying_power ◌*ℤ◌ ◌-ℤ◌ ◌+ℤ◌ notional
    effective_wheel_params get_universe_entry rule_position_cap rule_concurrent_cap list_active
    strategy_entry rule_concurrent_total rule_earnings short_expiration in_blackout
    rule_cc_strike_floor rule_liquidity rule_macro_blackout rule_pmcc_position_cap rule_regime
    rule_tier2_screen is_swing_id rule_pmcc_short_above_breakeven get_by_symbol latest_long
    long_breakeven
sell_put_passes = refl

pmcc_short_passes : (evaluate (single pmcc_short) config (market true) 0 quiet).1 ≡ none
unfolding evaluate results_of first_failure rule_buying_power ◌*ℤ◌ ◌-ℤ◌ ◌+ℤ◌ notional
    effective_wheel_params get_universe_entry rule_position_cap rule_concurrent_cap list_active
    strategy_entry rule_concurrent_total rule_earnings short_expiration in_blackout
    rule_cc_strike_floor rule_liquidity rule_macro_blackout rule_pmcc_position_cap rule_regime
    rule_tier2_screen is_swing_id rule_pmcc_short_above_breakeven get_by_symbol latest_long
    long_breakeven
pmcc_short_passes = refl

evaluate-IsAffordable_example :
    IsAffordable (single sell_put) (market true).account (effective_wheel_params "GM" config)
evaluate-IsAffordable_example =
    evaluate-IsAffordable (single sell_put) config (market true) 0 quiet refl sell_put_passes

-- The wheel with four slots of its own.
abbrev capped_wheel : StrategyEntry
capped_wheel = record (strategy "wheel" wheel) { max_concurrent = some 4 }

abbrev own_config : GateConfig
own_config = record config { strategies = capped_wheel ∷ strategy "pmcc" pmcc ∷ [] }

own_config_passes : (evaluate (single sell_put) own_config (market true) 0 quiet).1 ≡ none
unfolding evaluate results_of first_failure rule_buying_power ◌*ℤ◌ ◌-ℤ◌ ◌+ℤ◌ notional
    effective_wheel_params get_universe_entry rule_position_cap rule_concurrent_cap list_active
    strategy_entry rule_concurrent_total rule_earnings short_expiration in_blackout
    rule_cc_strike_floor rule_liquidity rule_macro_blackout rule_pmcc_position_cap rule_regime
    rule_tier2_screen is_swing_id rule_pmcc_short_above_breakeven get_by_symbol latest_long
    long_breakeven
own_config_passes = refl

evaluate_own_room_example :
    length (select (takes_slot own_config (single sell_put)) (market true).positions) + 1 ≤ 4
evaluate_own_room_example =
    evaluate_own_room (single sell_put) own_config (market true) 0 quiet []
      (strategy "pmcc" pmcc ∷ []) capped_wheel 4 own_config_passes refl refl refl refl refl

evaluate-long_breakeven_example : IsCovered pmcc_short config (market true)
evaluate-long_breakeven_example =
    evaluate-long_breakeven pmcc_short config (market true) 0 quiet refl refl refl pmcc_short_passes
