-- ===== src/Earnings.antt =====
-- data/earnings.py: whether a position that expires on a day conflicts with the next earnings.
-- Where the next date comes from is outside the model: `none` is "no data".
pub mod Hold
mod Tests
use Prim.Native.Nat.{max, min}
use wheelbot.Common.{Bool, Option, leb, none, some, ℕ, ◌&&◌, ◌+◌, ◌-◌, ◌||◌}
use wheelbot.Models.{Day}

-- The days of the rule, as the callers pass them.
pub record Window : Type 0 where
  pub days_before : ℕ
  pub days_after : ℕ
  pub block_if_spans : Bool
  pub entry_avoid_days : Option ℕ
  pub time_close_dte : Option ℕ

-- Whether a position held from `today` to its planned exit meets the window around the earnings.
-- `earnings - days_before <= hold_end` is stated by addition. An exit planned before day 0 is
-- read as day 0, which `max today` hides.
pub earnings_overlaps_hold :
    (earnings today expiration : Day) (time_close_dte days_before days_after : ℕ) → Bool
earnings_overlaps_hold earnings today expiration time_close_dte days_before days_after =
    let planned_exit = expiration - time_close_dte in
    let hold_end = min expiration (max today planned_exit) in
    leb today (earnings + days_after) && leb earnings (hold_end + days_before)

-- Entry-proximity mode.
abbrev near_today : Window → (earnings expiration today : Day) (avoid : ℕ) → Bool
near_today w earnings expiration today avoid =
    let imminent = leb today earnings && leb earnings (today + avoid) in
    elim w.time_close_dte [
      | none ↦ imminent
      | some dte ↦
          imminent
          || earnings_overlaps_hold earnings today expiration dte w.days_before w.days_after
    ]

-- The older mode: around the expiration, or across the position's life.
abbrev near_expiration : Window → (earnings expiration today : Day) → Bool
near_expiration w earnings expiration today =
    (leb earnings (expiration + w.days_before) && leb expiration (earnings + w.days_after))
    || (w.block_if_spans && (leb today earnings && leb earnings expiration))

unfoldable pub in_blackout :
    Window → (next_earnings : Option Day) (expiration today : Day) → Option Bool
unfolding earnings_overlaps_hold
in_blackout w none expiration today = none
in_blackout w (some earnings) expiration today = elim w.entry_avoid_days [
  | some avoid ↦ some (near_today w earnings expiration today avoid)
  | none ↦ some (near_expiration w earnings expiration today)
]
