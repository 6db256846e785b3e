-- ===== src/Earnings/Tests.antt =====
-- Runs of data/earnings.py: earnings on day 110, an entry on day 100.
use wheelbot.Common.{Option, arith, false, refl, some, true, ℕ, ◌≡◌}
use wheelbot.Earnings.{Window, earnings_overlaps_hold, in_blackout}
use wheelbot.Earnings.Hold.{in_blackout-hold}

abbrev window : Option ℕ → Window
window avoid = record {
  days_before = 2;
  days_after = 1;
  block_if_spans = true;
  entry_avoid_days = avoid;
  time_close_dte = some 7;
}

in_blackout-hold_example : earnings_overlaps_hold 110 102 112 7 2 1 ≡ false
unfolding in_blackout
in_blackout-hold_example =
    in_blackout-hold (window (some 5)) {avoid = 5} {dte = 7} 110 112 100 102 refl refl refl
      (omega arith) (omega arith)
