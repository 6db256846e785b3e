-- ===== src/Floors/Tests.antt =====
-- Runs of risk/win_rate_floor.py and risk/expectancy_floor.py, over two closed cycles.
use wheelbot.Floors.WinRate
use wheelbot.Floors.Expectancy
use wheelbot.Floors.Sticky.{
  Reach, here, next, trade, win_rate_check, expectancy_check, Reach-pause_of,
}
use wheelbot.Store.Cycles.{Cycle}
use wheelbot.Floors.{FloorConfig}
use wheelbot.Common.{List, Option, [], none, refl, some, true, ℕ, ◌∷◌, ◌≡◌}
use wheelbot.Common.Ratio.{Ratio, whole}
use wheelbot.Models.{Strategy}
use wheelbot.Store.Runtime.{Table, below_expectancy, mark_paused, negative_expectancy, pause_of}
use wheelbot.Store.{World}
use wheelbot.Common.Int.{negsuc, pos, ℤ}
use wheelbot.Floors.WinRate.{win_rate, wins}
use wheelbot.Router.Samples.{at}

abbrev strategy : Option Ratio → Strategy
strategy own = record {
  id = "wheel";
  enabled = true;
  auto_disable_drawdown_usd = none;
  drawdown_warning_usd = none;
  win_rate_floor_pct = own;
  expectancy_floor_usd = none;
}

abbrev floor : FloorConfig
floor = record {
  enabled = true;
  min_closed_cycles = some 2;
  minimum = some (whole (pos 60));
  pause_duration_days = none;
}

abbrev closed : ℤ → ℕ → Cycle
closed pnl at = record {
  account_id = "main";
  strategy_id = "wheel";
  ended_at = some at;
  final_pnl = some pnl;
}

abbrev cycles : List Cycle
cycles = closed (pos 100) 10 ∷ closed (negsuc 199) 20 ∷ []

abbrev world : Table → World
world t = record { runtime = t; limits = λ k. none; cycles = cycles; sent = [] }

abbrev fresh : World
fresh = world (λ k. none)

abbrev paused : World
paused = world (mark_paused "wheel" below_expectancy 50 14 negative_expectancy (λ k. none))

-- A check of each floor, and a trade between them.
abbrev second : World
second = (WinRate.check_and_apply "main" (strategy none) floor 100 100 paused).0

abbrev third : World
third = record second { cycles = [] }

abbrev fourth : World
fourth = (Expectancy.check_and_apply "main" (strategy none) floor 200 200 third).0

abbrev run : Reach paused fourth
run =
    next
      (next (next here (win_rate_check "main" (strategy none) floor 100 100 refl)) (trade [] refl))
      (expectancy_check "main" (strategy none) floor 200 200 refl)

Reach-pause_of_example : pause_of "wheel" fourth.runtime ≡ some negative_expectancy
unfolding mark_paused
Reach-pause_of_example = Reach-pause_of "wheel" negative_expectancy run refl

abbrev own_floor : Strategy
own_floor = strategy (some (whole (pos 40)))
