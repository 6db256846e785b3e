-- ===== src/Store.antt =====
-- The database of db/repo.py, as far as the risk monitors use it: the tables, the alert rate
-- limits and the notifications that were sent. A table keyed by a text is a function of its key.
-- A timestamp is its number of seconds, so the source's ISO texts compare as the times they
-- stand for.
pub mod Runtime
pub mod Alerts
pub mod Cycles
pub mod Daily
pub mod Orders
pub mod Positions
pub mod Lookup
pub mod Rows
pub mod Numbers
use wheelbot.Common.{Option, String, List, [], ◌∷◌, if◌then◌else◌, ℕ, arith, ◌≡◌}
use wheelbot.Store.Runtime.{Table, DrawdownState}
use wheelbot.Store.Alerts.{Limits, try_fire}
use wheelbot.Store.Cycles.{Cycle}

-- The calls of core/notify.py that the monitors make.
pub data Notice : Type 0 where
  auto_disabled : (strategy : String) (prior : DrawdownState) → Notice
  drawdown_warning paused_low_win_rate paused_negative_expectancy : (strategy : String) → Notice
  monitor_failed : (monitor strategy : String) → Notice

pub record World : Type 0 where
  pub runtime : Table
  pub limits : Limits
  pub cycles : List Cycle
  pub sent : List Notice

abbrev pub send : Notice → World → World
send n w = record w { sent = n ∷ w.sent }

-- `if await try_fire(...): await notify(...)`
abbrev pub notify_limited : (key : String) (cooldown_hours clock : ℕ) → Notice → World → World
notify_limited key hours clock n w =
    let (limits, fires) = try_fire key hours clock w.limits in
    let w' : World = record w { limits = limits } in if fires then send n w' else w'

-- An alert writes the rate limits and the notices only.
pub notify_limited-runtime :
    (key : String) (cooldown_hours clock : ℕ) (n : Notice) (w : World)
    → (notify_limited key cooldown_hours clock n w).runtime ≡ w.runtime
notify_limited-runtime key hours clock n w = ground arith
