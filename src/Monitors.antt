-- ===== src/Monitors.antt =====
-- scripts/run_bot.py: the three risk monitors that run after each strategy's iteration, and the
-- gate on new entries that reads what they wrote.
pub mod Gate
mod Tests
use wheelbot.Drawdown
use wheelbot.Floors.WinRate
use wheelbot.Floors.Expectancy
use Prim.Native.String.{◌++◌}
use wheelbot.Common.{ℕ, if◌then◌else◌, Bool, Option, String, false, none, some, true, ◌*◌}
use wheelbot.Floors.{Checked, ok, zero_division, FloorConfig}
use wheelbot.Store.Runtime.{DrawdownState, PauseTag, Table, disabled, pause_of}
use wheelbot.Models.{Strategy}
use wheelbot.Store.{World, monitor_failed, notify_limited}
use wheelbot.Drawdown.{current_state, size_multiplier}

abbrev monitor_failure_cooldown_hours : ℕ
monitor_failure_cooldown_hours = 24

-- A monitor that raised: at most one notice a day for each monitor and strategy.
pub report_monitor_failure : (step strategy : String) (clock : ℕ) → World → World
report_monitor_failure step strategy clock w =
    notify_limited (step ++ (":" ++ strategy)) monitor_failure_cooldown_hours clock
      (monitor_failed step strategy) w

-- `try: ... except Exception: await _report_monitor_failure(...)`
abbrev guarded : {A : Type 0} (step strategy : String) (clock : ℕ) → World × Checked A → World
guarded step strategy clock (w, ok r) = w
guarded step strategy clock (w, zero_division) = report_monitor_failure step strategy clock w

-- The configuration of the three monitors.
pub record Settings : Type 0 where
  pub account : String
  pub win_rate_floor : FloorConfig
  pub expectancy_floor : FloorConfig

-- Drawdown, then win rate, then expectancy; none of them can stop the loop.
pub run_monitors : Settings → Strategy → (now clock : ℕ) → World → World
run_monitors cfg s now clock w =
    let w₁ = (Drawdown.check_and_apply cfg.account s now clock w).0 in
    let w₂ =
      guarded "win_rate_floor_check_failed" s.id clock
        (WinRate.check_and_apply cfg.account s cfg.win_rate_floor now clock w₁) in
    guarded "expectancy_floor_check_failed" s.id clock
      (Expectancy.check_and_apply cfg.account s cfg.expectancy_floor now clock w₂)

-- Whether a strategy may open positions, and the size multiplier in quarters: 1.0 is 4.
pub record Entry : Type 0 where
  pub opens_allowed : Bool
  pub multiplier : ℕ

abbrev entry : Bool → ℕ → Entry
entry o m = record { opens_allowed = o; multiplier = m }

abbrev by_pause : (veto : ℕ) → DrawdownState → Option PauseTag → Entry
by_pause veto state (some _) = entry false 4
by_pause veto state none = entry true (Drawdown.size_multiplier state * veto)

abbrev by_state : (veto : ℕ) → DrawdownState → Option PauseTag → Entry
by_state veto disabled _ = entry false 4
by_state veto state p = by_pause veto state p

-- The gates of a strategy with a universe that is not empty. `veto` is the regime veto's own
-- multiplier in halves. Reading the drawdown state may delete a row, so the table is returned too.
pub entry_gate : Strategy → (veto now : ℕ) → Table → Table × Entry
entry_gate s veto now t =
    if s.enabled
    then (let (t', state) = Drawdown.current_state s.id now t in
        (t', by_state veto state (pause_of s.id t')))
    else (t, entry false 4)
