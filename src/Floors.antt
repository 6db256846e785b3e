-- ===== src/Floors.antt =====
-- What risk/win_rate_floor.py and risk/expectancy_floor.py share: the configuration block of a
-- floor, its threshold, and the outcome of a computation that may divide by zero.
pub mod WinRate
pub mod Expectancy
pub mod Sticky
pub mod Pausing
mod Tests
use wheelbot.Common.{ℕ, Bool, not, Option, none, some, get_or, if◌then◌else◌}
use wheelbot.Common.Ratio.{Ratio}

pub record FloorConfig : Type 0 where
  pub enabled : Bool
  pub min_closed_cycles : Option ℕ
  pub minimum : Option Ratio
  pub pause_duration_days : Option ℕ

abbrev pub pause_alert_cooldown_hours : ℕ
pause_alert_cooldown_hours = 24

abbrev default_pause_duration_days : ℕ
default_pause_duration_days = 14

-- `int(block.get("min_closed_cycles", 10))`
abbrev pub min_cycles : FloorConfig → ℕ
min_cycles c = get_or c.min_closed_cycles 10

abbrev pub pause_days : FloorConfig → ℕ
pause_days c = get_or c.pause_duration_days default_pause_duration_days

-- The strategy's own threshold, else the block's; none when the block is off.
unfoldable pub threshold_for : Option Ratio → FloorConfig → Option Ratio
threshold_for override c =
    if c.enabled then elim override [ some r ↦ some r | none ↦ c.minimum ] else none

-- `zero_division` is the exception that the source raises.
pub data Checked (A : Type 0) : Type 0 where
  ok : A → Checked A
  zero_division : Checked A
