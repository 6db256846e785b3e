-- ===== src/Monitors/Tests.antt =====
-- Runs of the monitors of scripts/run_bot.py, and of the entry gate.
use wheelbot.Floors.WinRate
use wheelbot.Store.Cycles.{Cycle}
use wheelbot.Floors.{FloorConfig}
use wheelbot.Monitors.{Settings, run_monitors}
use wheelbot.Models.{Strategy}
use wheelbot.Store.{World}
use wheelbot.Common.{[], none, some, true, ℕ, ◌∷◌}
use wheelbot.Common.Int.{negsuc, pos, ℤ}
use wheelbot.Common.Ratio.{whole}

abbrev strategy : Strategy
strategy = record {
  id = "wheel";
  enabled = true;
  auto_disable_drawdown_usd = some (negsuc 499);
  drawdown_warning_usd = none;
  win_rate_floor_pct = none;
  expectancy_floor_usd = none;
}

abbrev floor : FloorConfig
floor = record {
  enabled = true;
  min_closed_cycles = some 2;
  minimum = some (whole (pos 60));
  pause_duration_days = none;
}

abbrev closed : ℤ → ℕ → Cycle
closed pnl at = record {
  account_id = "main";
  strategy_id = "wheel";
  ended_at = some at;
  final_pnl = some pnl;
}

abbrev world : World
world = record {
  runtime = λ k. none;
  limits = λ k. none;
  cycles = closed (pos 100) 10 ∷ closed (negsuc 199) 20 ∷ [];
  sent = [];
}

abbrev settings : Settings
settings = record { account = "main"; win_rate_floor = floor; expectancy_floor = floor }

abbrev after : World
after = run_monitors settings strategy 100 100 world
