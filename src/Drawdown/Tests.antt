-- ===== src/Drawdown/Tests.antt =====
-- Runs of risk/auto_disable.py, on a strategy with two tiers.
use wheelbot.Store.Runtime.{DrawdownState, Row, Table, blank, disabled, low_win_rate, warning}
use wheelbot.Drawdown.{check_and_apply, current_state, compute_rolling_pnl, target_state}
use wheelbot.Common.{
  if◌then◌else◌, List, Option, [], arith, none, refl, some, str_eq, true, ℕ, ◌∷◌, ◌≡◌,
}
use wheelbot.Store.Cycles.{Cycle}
use wheelbot.Models.{Strategy}
use wheelbot.Store.{World}
use wheelbot.Drawdown.Persistence.{check_and_apply_disables}
use wheelbot.Common.Int.{negsuc, ℤ, ◌+ℤ◌}
use wheelbot.Router.Samples.{at}

abbrev wheel_strategy : Strategy
wheel_strategy = record {
  id = "wheel";
  enabled = true;
  auto_disable_drawdown_usd = some (negsuc 499);
  drawdown_warning_usd = some (negsuc 199);
  win_rate_floor_pct = none;
  expectancy_floor_usd = none;
}

abbrev closed : ℤ → ℕ → Cycle
closed pnl at = record {
  account_id = "main";
  strategy_id = "wheel";
  ended_at = some at;
  final_pnl = some pnl;
}

abbrev row : Option DrawdownState → Option ℕ → Row
row tag until = record blank {
  disabled_until = until;
  drawdown_state = tag;
  pause_state = some low_win_rate;
}

abbrev table : Row → Table
table r k = if str_eq k "wheel" then some r else none

abbrev world : Table → List Cycle → World
world t cs = record { runtime = t; limits = λ k. none; cycles = cs; sent = [] }

abbrev losing : World
losing = world (λ k. none) (closed (negsuc 599) 90 ∷ [])

abbrev warned : World
warned = world (table (row (some warning) none)) []

abbrev disabled_world : World
disabled_world = world (table (row (some disabled) (some 500))) []

check_and_apply_disables_example :
    (current_state "wheel" 200 (check_and_apply "main" wheel_strategy 100 100 losing).0.runtime).1
    ≡ disabled
unfolding current_state target_state compute_rolling_pnl ◌+ℤ◌
check_and_apply_disables_example =
    check_and_apply_disables "main" wheel_strategy 100 100 200 losing refl (ground arith) refl
