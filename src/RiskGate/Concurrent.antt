-- ===== src/RiskGate/Concurrent.antt =====
-- risk/limits.py, the rules on the number of open positions: 3 and 3b.
use wheelbot.Common.{
  if◌then◌else◌, Bool, List, Option, String, any, get_or, length, ltb, none, not, select, some,
  str_eq, true, ℕ, ◌&&◌, ◌+◌,
}
use wheelbot.RiskGate.Defs.{
  AnyProposal, GateConfig, Status, StrategyEntry, WheelParams, fail, pass, skip, strategy_entry,
  strategy_of, symbol_of,
}
use wheelbot.Models.{Position, is_idle, is_spread_closed}

-- db/repo.py, PositionsRepo.list_active; `none` is no filter on the strategy.
unfoldable pub list_active :
    (account : String) (strategy : Option String) → List Position → List Position
list_active account strategy ps =
    select
      (λ p.
        str_eq p.account_id account
        && elim strategy [ none ↦ true | some s ↦ str_eq p.strategy_id s ]
        && not (is_idle p.state))
      ps

-- Closed spreads hold no exposure.
abbrev pub live : List Position → List Position
live ps = select (λ p. not (is_spread_closed p.state)) ps

-- `projected > cap`, unless the proposal manages a position that is there.
abbrev pub capped : (manages : Bool) (active cap : ℕ) → Status
capped manages active cap = if manages then skip else if ltb cap (active + 1) then fail else pass

-- The strategy's own cap, else the wheel's.
abbrev pub cap_of : String → List StrategyEntry → WheelParams → ℕ
cap_of id ss params =
    let wheel_cap = get_or params.max_concurrent_positions 4 in
    elim (strategy_entry id ss) [ none ↦ wheel_cap | some s ↦ get_or s.max_concurrent wheel_cap ]

unfoldable pub rule_concurrent_cap : AnyProposal → GateConfig → WheelParams → List Position → Status
rule_concurrent_cap p cfg params positions =
    let active = live (list_active cfg.account_id (some (strategy_of p)) positions) in
    capped (any (λ q. str_eq q.symbol (symbol_of p)) active) (length active)
      (cap_of (strategy_of p) cfg.strategies params)

unfoldable pub rule_concurrent_total : AnyProposal → GateConfig → List Position → Status
rule_concurrent_total p cfg positions = elim cfg.max_concurrent_total [
  | none ↦ skip
  | some cap ↦
      let active = live (list_active cfg.account_id none positions) in
      capped
        (any (λ q. str_eq q.symbol (symbol_of p) && str_eq q.strategy_id (strategy_of p)) active)
        (length active) cap
]
