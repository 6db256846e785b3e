-- ===== src/RiskGate/Capital.antt =====
-- risk/limits.py, the rules on capital: 1, 2, and the cap on a PMCC's long call.
use wheelbot.Common.{if◌then◌else◌, List, Option, get_or, none, not, some, str_eq, ℕ, ◌*◌}
use wheelbot.Models.{Account, OptionContract, Proposal}
use wheelbot.RiskGate.Defs.{
  AnyProposal, Status, StrategyEntry, WheelParams, fail, is_buy_to_open, is_close, notional, pass,
  skip, strategy_entry,
}
use wheelbot.Common.Int.{leb_ℤ, ltb_ℤ, pos, ℤ, ◌*ℤ◌, ◌+ℤ◌, ◌-ℤ◌}
use wheelbot.Common.Ratio.{ltb_ratio, percent_of, whole}

unfoldable pub rule_buying_power : AnyProposal → Account → WheelParams → Status
rule_buying_power p account params =
    if is_close p
    then skip
    else (let floor =
          percent_of account.equity (get_or params.buying_power_floor_pct (whole (pos 20))) in
        let bp_after = account.buying_power -ℤ notional p in
        if ltb_ratio (whole bp_after) floor then fail else pass)

unfoldable pub rule_position_cap : AnyProposal → Account → WheelParams → Status
rule_position_cap p account params =
    if is_close p
    then skip
    else (let cap =
          percent_of account.equity (get_or params.max_position_pct_of_account (whole (pos 30))) in
        if ltb_ratio cap (whole (notional p)) then fail else pass)

-- `_pmcc_param("max_capital_per_position_usd", 0) or 0`
abbrev pmcc_cap : List StrategyEntry → ℤ
pmcc_cap ss = elim (strategy_entry "pmcc" ss) [
  | none ↦ pos 0
  | some s ↦ get_or s.max_capital_per_position_usd (pos 0)
]

-- `((c.bid + c.ask) / 2) * 100 * proposal.quantity`
abbrev quoted_debit : OptionContract → ℕ → Option ℤ
quoted_debit c quantity = elim c.bid [
  | none ↦ none
  | some b ↦ elim c.ask [ none ↦ none | some a ↦ some ((b +ℤ a) *ℤ pos (50 * quantity)) ]
]

unfoldable pub rule_pmcc_position_cap : Proposal → List StrategyEntry → Status
rule_pmcc_position_cap p ss =
    if not (str_eq p.strategy_id "pmcc")
    then skip
    else if not (is_buy_to_open p.order_type)
    then skip
    else if leb_ℤ (pmcc_cap ss) (pos 0)
    then skip
    else elim (quoted_debit p.contract p.quantity) [
      | none ↦ skip
      | some debit ↦ if ltb_ℤ (pmcc_cap ss) debit then fail else pass
    ]
