-- ===== src/MarketHours.antt =====
-- execution/market_hours.py. The weekday (Monday is 0) and the second of the day in New York, to
-- which the time zone's library converts the time, are arguments.
pub mod Windows
use wheelbot.Common.{Bool, ℕ, false, if◌then◌else◌, leb, ltb, ◌&&◌, ◌*◌, ◌+◌}

-- 09:30 and 16:00.
abbrev opening : ℕ
opening = 34200

abbrev pub closing : ℕ
closing = 57600

unfoldable pub is_market_hours : (weekday time : ℕ) → Bool
is_market_hours weekday time = if leb 5 weekday then false else leb opening time && ltb time closing

-- `et < close_dt - timedelta(minutes=minutes_before_close)`, without the subtraction.
unfoldable pub within_entry_window : (weekday time minutes_before_close : ℕ) → Bool
within_entry_window weekday time minutes_before_close =
    if leb 5 weekday
    then false
    else if ltb time opening
    then false
    else ltb (time + 60 * minutes_before_close) closing
