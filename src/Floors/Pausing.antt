-- ===== src/Floors/Pausing.antt =====
-- When the win-rate floor pauses a strategy, and what the dashboard's reading says of it.
use wheelbot.Floors.WinRate
use wheelbot.Store.Cycles.{Cycle, list_closed_for_strategy}
use wheelbot.Floors.{FloorConfig, min_cycles, ok, pause_days, threshold_for}
use wheelbot.Common.{
  List, String, length, none, some, true, ℕ, ◌*◌, ◌<◌, ◌↔◌, ◌≡◌, ◌≢◌, ◌≤◌, if◌then◌else◌,
  ==-zero_false, Bool, Option, arith, false, is_none, ltb-false, refl, ◌&&◌, eq_refl,
}
use wheelbot.Common.Ratio.{Ratio, ltb_ratio}
use wheelbot.Models.{Strategy}
use wheelbot.Store.{World, notify_limited-runtime}
use wheelbot.Store.Runtime.{low_win_rate, mark_paused, pause_of, PauseTag, negative_expectancy}
use wheelbot.Common.Int.{pos, ◌*ℤ◌, ◌<ℤ◌}
use wheelbot.Floors.WinRate.{win_rate, wins}

-- What a strategy's pause is after the floor has settled.
settle-pause_of :
    (k : String) (days now clock : ℕ) (target : Bool) (w : World)
    → pause_of k (WinRate.settle k days now clock (pause_of k w.runtime) target w).0.runtime ≡ (
        if is_none (pause_of k w.runtime) && target
        then some low_win_rate
        else pause_of k w.runtime)
unfolding WinRate.settle mark_paused
settle-pause_of k days now clock target w = go (pause_of k w.runtime) target refl
  where
    go :
        (held : Option PauseTag) (b : Bool)
        → pause_of k w.runtime ≡ held
        → pause_of k (WinRate.settle k days now clock held b w).0.runtime
          ≡ (if is_none held && b then some low_win_rate else held)
    go (some low_win_rate) b e = e
    go (some negative_expectancy) b e = e
    go none false e = e
    go none true e = rw notify_limited-runtime (ground (arith, eq_refl k))

module _ (account : String) (s : Strategy) (c : FloorConfig) (now clock : ℕ) (w : World) where
  -- The cycles that the floor looks at.
  abbrev sampled : List Cycle
  sampled = list_closed_for_strategy account s.id (min_cycles c) w.cycles

  -- With enough cycles a check settles by comparing the rate with the threshold.
  checked :
      {t : Ratio}
      → threshold_for s.win_rate_floor_pct c ≡ some t
      → min_cycles c ≤ length sampled
      → 0 < length sampled
      → WinRate.check_and_apply account s c now clock w ≡ (
          let (w', action) =
            WinRate.settle s.id
              (pause_days c)
              now
              clock
              (pause_of s.id w.runtime)
              (ltb_ratio (WinRate.win_rate sampled) t)
              w in
          (w', ok (WinRate.result action (some (WinRate.win_rate sampled)) (length sampled))))
  unfolding WinRate.check_and_apply
  checked on enough more =
      rw (on, WinRate.check_and_apply, ltb-false _ _ enough, ==-zero_false _ more)

  -- A strategy that is not paused is paused by a check exactly when its share of winning cycles,
  -- in percent, is strictly below the threshold; both sides are multiplied out.
  check_and_apply_pauses_iff :
      {t : Ratio}
      → threshold_for s.win_rate_floor_pct c ≡ some t
      → pause_of s.id w.runtime ≡ none
      → min_cycles c ≤ length sampled
      → 0 < length sampled
      → (pause_of s.id (WinRate.check_and_apply account s c now clock w).0.runtime
          ≡ some low_win_rate)
        ↔ (pos (WinRate.wins sampled * 100) *ℤ pos t.den <ℤ t.num *ℤ pos (length sampled))
  unfolding WinRate.settle mark_paused
  check_and_apply_pauses_iff {t} on free enough more =
      rw (checked on enough more, settle-pause_of, free) (ground arith)

  -- Below its floor, a strategy is paused after a check, by this floor or by the one before it.
  pub check_and_apply_ends_paused :
      {t : Ratio}
      → threshold_for s.win_rate_floor_pct c ≡ some t
      → min_cycles c ≤ length sampled
      → 0 < length sampled
      → ltb_ratio (WinRate.win_rate sampled) t ≡ true
      → pause_of s.id (WinRate.check_and_apply account s c now clock w).0.runtime ≢ none
  unfolding WinRate.settle mark_paused
  check_and_apply_ends_paused {t} on enough more low =
      rw (checked on enough more, settle-pause_of, low) (ground arith)

-- The dashboard's reading reaches the same result as a check, for a strategy that is not paused
-- and has no threshold of its own, a division by zero included.
evaluate-eq-check :
    (account : String) (s : Strategy) (c : FloorConfig) (now clock : ℕ) (w : World) {t : Ratio}
    → c.enabled ≡ true
    → c.minimum ≡ some t
    → s.win_rate_floor_pct ≡ none
    → pause_of s.id w.runtime ≡ none
    → WinRate.evaluate c account s.id w.cycles ≡ (WinRate.check_and_apply account s c now clock w).1
unfolding WinRate.evaluate WinRate.check_and_apply threshold_for WinRate.settle
evaluate-eq-check account s c now clock w on global own free = ground arith

-- With a threshold of its own that the rate meets, a strategy goes on trading, and the
-- dashboard's reading still calls for a pause whenever the rate is below the block's threshold.
pub evaluate_ignores_override :
    (account : String) (s : Strategy) (c : FloorConfig) (now clock : ℕ) (w : World) {t own : Ratio}
    → c.enabled ≡ true
    → c.minimum ≡ some t
    → s.win_rate_floor_pct ≡ some own
    → pause_of s.id w.runtime ≡ none
    → min_cycles c ≤ length (sampled account s c now clock w)
    → 0 < length (sampled account s c now clock w)
    → ltb_ratio (WinRate.win_rate (sampled account s c now clock w)) t ≡ true
    → ltb_ratio (WinRate.win_rate (sampled account s c now clock w)) own ≡ false
    → let rate = WinRate.win_rate (sampled account s c now clock w) in
      let size = length (sampled account s c now clock w) in
      (WinRate.evaluate c account s.id w.cycles
        ≡ ok (WinRate.result WinRate.pause (some rate) size))
      × (WinRate.check_and_apply account s c now clock w
          ≡ (w, ok (WinRate.result WinRate.normal (some rate) size)))
unfolding WinRate.evaluate WinRate.check_and_apply threshold_for WinRate.settle
evaluate_ignores_override account s c now clock w on global override free enough more low meets =
    ground arith
