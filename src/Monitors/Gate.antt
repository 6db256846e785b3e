-- ===== src/Monitors/Gate.antt =====
-- When a strategy may open positions, and what the monitors do to that.
use wheelbot.Drawdown
use wheelbot.Floors.WinRate
use wheelbot.Floors.Expectancy
use wheelbot.Store.Runtime.{Table, row_or_blank}
use wheelbot.Models.{Strategy}
use wheelbot.Common.{◌⊎◌, String, some, ℕ, ◌<◌, ◌≡◌, ◌≤◌, List}
use wheelbot.Store.{World}
use wheelbot.Drawdown.{size_multiplier}
use wheelbot.Monitors.{Settings}
use wheelbot.Common.Ratio.{Ratio}
use wheelbot.Store.Cycles.{list_closed_for_strategy, Cycle}
use wheelbot.Floors.{min_cycles}

-- The row of a strategy has no disabling that is over.
abbrev IsFresh : String → ℕ → Table → Type 0
IsFresh k now t = (until : ℕ) → (row_or_blank (t k)).disabled_until ≡ some until → now < until

-- A disabling of the row is over at the first time, or it lasts beyond the second one.
abbrev pub NoneEnds : String → (now later : ℕ) → Table → Type 0
NoneEnds k now later t =
    (until : ℕ) → (row_or_blank (t k)).disabled_until ≡ some until → (until ≤ now) ⊎ (later < until)

-- The closed cycles that the win-rate floor looks at.
abbrev looked_at : Settings → Strategy → World → List Cycle
looked_at cfg s w =
    list_closed_for_strategy cfg.account s.id (min_cycles cfg.win_rate_floor) w.cycles
