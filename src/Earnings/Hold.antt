-- ===== src/Earnings/Hold.antt =====
-- What the entry gate of data/earnings.py promises of the position's hold.
use wheelbot.Models.{Day}
use wheelbot.Earnings.{Window, earnings_overlaps_hold, in_blackout}
use wheelbot.Common.{arith, false, none, some, true, ℕ, ◌+◌, ◌↔◌, ◌≡◌, ◌≤◌, ◌⊎◌}

-- In proximity mode, with the strategy's time-close known, a position that the gate lets in is
-- not exposed to the earnings on any day of its planned hold, from its entry to the day of its
-- time-close: the recheck that runs while it is open finds no overlap either.
pub in_blackout-hold :
    (w : Window) {avoid dte : ℕ} (earnings expiration today later : Day)
    → w.entry_avoid_days ≡ some avoid
    → w.time_close_dte ≡ some dte
    → in_blackout w (some earnings) expiration today ≡ some false
    → today ≤ later
    → later + dte ≤ expiration
    → earnings_overlaps_hold earnings later expiration dte w.days_before w.days_after ≡ false
unfolding in_blackout
in_blackout-hold w earnings expiration today later near close clear after before = ground arith

-- In the older mode the gate refuses exactly when the expiration lies in the days around the
-- earnings or, where spanning is blocked, when the earnings fall in the position's life, the day
-- of entry and the expiration included.
in_blackout-legacy :
    (w : Window) (earnings expiration today : Day)
    → w.entry_avoid_days ≡ none
    → (in_blackout w (some earnings) expiration today ≡ some true) ↔ (
        ((earnings ≤ expiration + w.days_before) × (expiration ≤ earnings + w.days_after))
        ⊎ ((w.block_if_spans ≡ true) × (today ≤ earnings) × (earnings ≤ expiration)))
unfolding in_blackout
in_blackout-legacy w earnings expiration today legacy = ground arith
