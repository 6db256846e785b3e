-- ===== src/RiskGate/Passed.antt =====
-- What an order that has passed the gate of risk/limits.py satisfies.
use wheelbot.Models.{Account, Position, Proposal}
use wheelbot.Macro.{Alarms}
use wheelbot.Common.{
  All, List, [], arith, false, get_or, none, ℕ, ◌*◌, ◌∷◌, ◌≡◌, any, length, some, str_eq, ◌&&◌, ◌+◌,
  ◌≤◌, Bool, ap, refl, sym, ◌∙◌,
}
use wheelbot.RiskGate.Defs.{
  AnyProposal, GateConfig, Market, RuleResult, Status, WheelParams, effective_wheel_params,
  is_close, is_fail, multi, notional, single, symbol_of, strategy_of,
}
use wheelbot.RiskGate.{evaluate, first_failure, multi_results, results_of, single_results}
use wheelbot.Common.Int.{pos, ◌*ℤ◌, ◌-ℤ◌, ◌≤ℤ◌}
use wheelbot.RiskGate.Capital.{rule_buying_power, rule_position_cap}
use wheelbot.RiskGate.Concurrent.{
  rule_concurrent_cap, rule_concurrent_total, list_active, live, capped,
}
use wheelbot.RiskGate.Events.{rule_earnings, rule_macro_blackout}
use wheelbot.RiskGate.Screens.{rule_tier2_screen, rule_pmcc_short_above_breakeven}
use wheelbot.Common.Ratio.{whole}

abbrev Held : RuleResult → Type 0
Held r = is_fail r.status ≡ false

-- With no failure, no rule failed.
first_failure-none : (rs : List RuleResult) → first_failure rs ≡ none → All Held rs
unfolding first_failure
first_failure-none [] h = tt
first_failure-none (r ∷ rs) h = ground (arith, first_failure-none rs)

-- The rules that both kinds of proposal meet did not fail.
record Common (p : AnyProposal) (cfg : GateConfig) (m : Market) (macro_status : Status)
    : Type 0 where
  buying :
      is_fail (rule_buying_power p m.account (effective_wheel_params (symbol_of p) cfg)) ≡ false
  capital :
      is_fail (rule_position_cap p m.account (effective_wheel_params (symbol_of p) cfg)) ≡ false
  slots :
      is_fail (rule_concurrent_cap p cfg (effective_wheel_params (symbol_of p) cfg) m.positions)
      ≡ false
  total : is_fail (rule_concurrent_total p cfg m.positions) ≡ false
  earnings : is_fail (rule_earnings p cfg (effective_wheel_params (symbol_of p) cfg) m) ≡ false
  screen : is_fail (rule_tier2_screen p cfg m) ≡ false
  macro : is_fail macro_status ≡ false

passed-Common :
    (p : AnyProposal) (cfg : GateConfig) (m : Market) (macro_status : Status)
    → first_failure (results_of p cfg m macro_status) ≡ none
    → Common p cfg m macro_status
unfolding results_of
passed-Common (single q) cfg m s h =
    let held : All Held (single_results q cfg m s) =
      first_failure-none (single_results q cfg m s) h in
    record {
      buying = held.0;
      capital = held.1.0;
      slots = held.1.1.0;
      total = held.1.1.1.0;
      earnings = held.1.1.1.1.0;
      screen = held.1.1.1.1.1.1.1.1.0;
      macro = held.1.1.1.1.1.1.1.1.1.0;
    }
passed-Common (multi q) cfg m s h =
    let held : All Held (multi_results q cfg m s) =
      first_failure-none (multi_results q cfg m s) h in
    record {
      buying = held.0;
      capital = held.1.0;
      slots = held.1.1.0;
      total = held.1.1.1.0;
      earnings = held.1.1.1.1.0;
      screen = held.1.1.1.1.1.1.0;
      macro = held.1.1.1.1.1.1.1.0;
    }

-- The account's limits, for an order that opens: the buying power that is left, and the capital at
-- risk, both multiplied out by the percentage's denominator.
pub record IsAffordable (p : AnyProposal) (account : Account) (params : WheelParams) : Type 0 where
  pub keeps_floor :
      let pct = get_or params.buying_power_floor_pct (whole (pos 20)) in
      account.equity *ℤ pct.num *ℤ pos 1
      ≤ℤ (account.buying_power -ℤ notional p) *ℤ pos (100 * pct.den)
  pub within_cap :
      let pct = get_or params.max_position_pct_of_account (whole (pos 30)) in
      notional p *ℤ pos (100 * pct.den) ≤ℤ account.equity *ℤ pct.num *ℤ pos 1

affordable :
    (p : AnyProposal) (account : Account) (params : WheelParams)
    → is_close p ≡ false
    → is_fail (rule_buying_power p account params) ≡ false
    → is_fail (rule_position_cap p account params) ≡ false
    → IsAffordable p account params
unfolding rule_buying_power rule_position_cap
affordable p account params opens buying capital = ground arith

-- An order that opens and passes leaves the buying power at its floor or above, and its capital at
-- risk within the cap for one position.
pub evaluate-IsAffordable :
    (p : AnyProposal) (cfg : GateConfig) (m : Market) (clock : ℕ) (a : Alarms)
    → is_close p ≡ false
    → (evaluate p cfg m clock a).1 ≡ none
    → IsAffordable p m.account (effective_wheel_params (symbol_of p) cfg)
unfolding evaluate
evaluate-IsAffordable p cfg m clock a opens passed =
    let c = passed-Common p cfg m (rule_macro_blackout p cfg m clock a).1 passed in
    affordable p m.account (effective_wheel_params (symbol_of p) cfg) opens c.buying c.capital

pub room :
    (manages : Bool) (active cap : ℕ)
    → is_fail (capped manages active cap) ≡ false
    → manages ≡ false
    → active + 1 ≤ cap
room manages active cap held new = ground arith

total_eq :
    (p : AnyProposal) (cfg : GateConfig) (ps : List Position) (cap : ℕ)
    → cfg.max_concurrent_total ≡ some cap
    → rule_concurrent_total p cfg ps
      ≡ capped
          (any
            (λ q. str_eq q.symbol (symbol_of p) && str_eq q.strategy_id (strategy_of p))
            (live (list_active cfg.account_id none ps)))
          (length (live (list_active cfg.account_id none ps)))
          cap
unfolding rule_concurrent_total
total_eq p cfg ps cap e = rw e refl

total_room_lem :
    (p : AnyProposal) (cfg : GateConfig) (ps : List Position)
    → is_fail (rule_concurrent_total p cfg ps) ≡ false
    → (cap : ℕ) → cfg.max_concurrent_total ≡ some cap
    → any
        (λ q. str_eq q.symbol (symbol_of p) && str_eq q.strategy_id (strategy_of p))
        (live (list_active cfg.account_id none ps))
      ≡ false
    → length (live (list_active cfg.account_id none ps)) + 1 ≤ cap
unfolding rule_concurrent_total
total_room_lem p cfg ps held cap e new =
    room _ _ _ (sym (ap is_fail (total_eq p cfg ps cap e)) ∙ held) new

-- With a cap on the whole account, an order that passes and manages no live position of its symbol
-- and strategy has a free slot among all of them.
pub evaluate_total_room :
    (p : AnyProposal) (cfg : GateConfig) (m : Market) (clock : ℕ) (a : Alarms)
    → (evaluate p cfg m clock a).1 ≡ none
    → (cap : ℕ) → cfg.max_concurrent_total ≡ some cap
    → any
        (λ q. str_eq q.symbol (symbol_of p) && str_eq q.strategy_id (strategy_of p))
        (live (list_active cfg.account_id none m.positions))
      ≡ false
    → length (live (list_active cfg.account_id none m.positions)) + 1 ≤ cap
unfolding evaluate
evaluate_total_room p cfg m clock a passed =
    total_room_lem p cfg m.positions
      (passed-Common p cfg m (rule_macro_blackout p cfg m clock a).1 passed).total

-- The rule on a PMCC's short call did not fail.
pub evaluate-breakeven_rule :
    (p : Proposal) (cfg : GateConfig) (m : Market) (clock : ℕ) (a : Alarms)
    → (evaluate (single p) cfg m clock a).1 ≡ none
    → is_fail (rule_pmcc_short_above_breakeven p cfg m) ≡ false
unfolding evaluate results_of
evaluate-breakeven_rule p cfg m clock a passed =
    let s = (rule_macro_blackout (single p) cfg m clock a).1 in
    let held : All Held (single_results p cfg m s) =
      first_failure-none (single_results p cfg m s) passed in
    held.1.1.1.1.1.1.1.1.1.1.1.0

-- The rule on the strategy's own cap did not fail.
pub evaluate-own_cap :
    (p : AnyProposal) (cfg : GateConfig) (m : Market) (clock : ℕ) (a : Alarms)
    → (evaluate p cfg m clock a).1 ≡ none
    → is_fail (rule_concurrent_cap p cfg (effective_wheel_params (symbol_of p) cfg) m.positions)
      ≡ false
unfolding evaluate
evaluate-own_cap p cfg m clock a passed =
    (passed-Common p cfg m (rule_macro_blackout p cfg m clock a).1 passed).slots
