-- ===== src/RiskGate.antt =====
-- risk/limits.py, RiskGate.evaluate: every rule in order, and what the router sees of them.
pub mod Defs
pub mod Capital
pub mod Concurrent
pub mod Events
pub mod Screens
pub mod Passed
pub mod Slots
pub mod Breakeven
pub mod Closes
pub mod Samples
mod Tests
use wheelbot.Common.{if◌then◌else◌, List, Option, [], none, some, ℕ, ◌∷◌}
use wheelbot.Macro.{Alarms}
use wheelbot.Models.{MultiLegProposal, Proposal}
use wheelbot.RiskGate.Defs.{
  Rule, GateConfig, AnyProposal, RuleResult, Status, Market, is_fail, multi, single,
  effective_wheel_params, buying_power_floor, per_position_cap, concurrent_positions_cap,
  concurrent_total_cap, earnings_blackout, regime, cc_strike_floor, tier2_screen, liquidity,
  macro_blackout, pmcc_position_cap, pmcc_short_above_breakeven,
}
use wheelbot.RiskGate.Events.{rule_macro_blackout, rule_earnings}
use wheelbot.RiskGate.Capital.{rule_buying_power, rule_position_cap, rule_pmcc_position_cap}
use wheelbot.RiskGate.Concurrent.{rule_concurrent_cap, rule_concurrent_total}
use wheelbot.RiskGate.Screens.{
  rule_regime_multi_leg, rule_cc_strike_floor, rule_tier2_screen, rule_liquidity, rule_regime,
  rule_pmcc_short_above_breakeven,
}

abbrev outcome : Rule → Status → RuleResult
outcome r s = record { rule = r; status = s }

-- The results of the rules of a package, with the status of the macro rule given.
abbrev multi_results :
    MultiLegProposal → GateConfig → Market → (macro_status : Status) → List RuleResult
multi_results q cfg m macro_status =
    let p = multi q in
    let params = effective_wheel_params q.symbol cfg in
    outcome buying_power_floor (rule_buying_power p m.account params)
    ∷ outcome per_position_cap (rule_position_cap p m.account params)
    ∷ outcome concurrent_positions_cap (rule_concurrent_cap p cfg params m.positions)
    ∷ outcome concurrent_total_cap (rule_concurrent_total p cfg m.positions)
    ∷ outcome earnings_blackout (rule_earnings p cfg params m)
    ∷ outcome regime (rule_regime_multi_leg q cfg m)
    ∷ outcome tier2_screen (rule_tier2_screen p cfg m)
    ∷ outcome macro_blackout macro_status
    ∷ []

abbrev single_results : Proposal → GateConfig → Market → (macro_status : Status) → List RuleResult
single_results q cfg m macro_status =
    let p = single q in
    let params = effective_wheel_params q.symbol cfg in
    outcome buying_power_floor (rule_buying_power p m.account params)
    ∷ outcome per_position_cap (rule_position_cap p m.account params)
    ∷ outcome concurrent_positions_cap (rule_concurrent_cap p cfg params m.positions)
    ∷ outcome concurrent_total_cap (rule_concurrent_total p cfg m.positions)
    ∷ outcome earnings_blackout (rule_earnings p cfg params m)
    ∷ outcome cc_strike_floor (rule_cc_strike_floor q)
    ∷ outcome liquidity (rule_liquidity q params)
    ∷ outcome regime (rule_regime q cfg m)
    ∷ outcome tier2_screen (rule_tier2_screen p cfg m)
    ∷ outcome macro_blackout macro_status
    ∷ outcome pmcc_position_cap (rule_pmcc_position_cap q cfg.strategies)
    ∷ outcome pmcc_short_above_breakeven (rule_pmcc_short_above_breakeven q cfg m)
    ∷ []

unfoldable pub results_of :
    AnyProposal → GateConfig → Market → (macro_status : Status) → List RuleResult
results_of (multi q) = multi_results q
results_of (single q) = single_results q

-- The first failure, which `RiskCheckFailed` names; none when the proposal has passed.
unfoldable pub first_failure : List RuleResult → Option Rule
first_failure [] = none
first_failure (r ∷ rs) =
    let rest = first_failure rs in if is_fail r.status then some r.rule else rest

-- `evaluate` with `raise_on_fail`: the rule that it raises for, or none.
unfoldable pub evaluate :
    AnyProposal → GateConfig → Market → (clock : ℕ) → Alarms → Alarms × Option Rule
unfolding results_of first_failure
evaluate p cfg m clock a =
    let (a', macro_status) = rule_macro_blackout p cfg m clock a in
    (a', first_failure (results_of p cfg m macro_status))
