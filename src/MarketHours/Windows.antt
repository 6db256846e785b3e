-- ===== src/MarketHours/Windows.antt =====
-- execution/market_hours.py: the entry window lies inside the market's hours.
use wheelbot.Common.{arith, true, ℕ, ◌*◌, ◌+◌, ◌<◌, ◌↔◌, ◌≡◌}
use wheelbot.MarketHours.{closing, is_market_hours, within_entry_window}

-- An entry is taken just when the market is open and more than the given minutes are left before
-- the close: the entry window is the market's hours without its end.
within_entry_window_iff :
    (weekday time minutes : ℕ)
    → (within_entry_window weekday time minutes ≡ true)
      ↔ ((is_market_hours weekday time ≡ true) × (time + 60 * minutes < closing))
unfolding within_entry_window is_market_hours
within_entry_window_iff weekday time minutes = ground arith
