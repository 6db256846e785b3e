-- ===== src/Drawdown/Tiers.antt =====
-- The tiers of risk/auto_disable.py: which P&L calls for which, and what a transition reports.
use wheelbot.Store.Runtime.{DrawdownState, disabled, normal, warning}
use wheelbot.Drawdown.{
  target_state, check_and_apply, is_configured, current_state, compute_rolling_pnl,
  rolling_window_days, transition, trips,
}
use wheelbot.Common.{ℕ, String, ◌≤◌, ◌≡◌, arith, true, ◌≢◌, Option, ◌∷◌, some, refl, none}
use wheelbot.Models.{Strategy}
use wheelbot.Common.Int.{ℤ, ◌≤ℤ◌}
use wheelbot.Store.{World, auto_disabled}

-- How far a state restricts new entries.
abbrev severity : DrawdownState → ℕ
severity normal = 0
severity warning = 1
severity disabled = 2

trips_mono :
    (threshold : Option ℤ) (low high : ℤ)
    → low ≤ℤ high
    → trips threshold high ≡ true
    → trips threshold low ≡ true
trips_mono none low high h p = cc
trips_mono (some v) low high h p = ground arith

-- A lower rolling P&L never calls for a milder state, whichever tiers are configured.
target_state_mono :
    (s : Strategy) (low high : ℤ)
    → low ≤ℤ high
    → severity (target_state s high) ≤ severity (target_state s low)
unfolding target_state
target_state_mono s low high h = ground (
  arith,
  trips_mono s.auto_disable_drawdown_usd low high h,
  trips_mono s.drawdown_warning_usd low high h,
)

-- The state after a check, from the state before it and the state that the P&L calls for.
abbrev pub outcome : DrawdownState → DrawdownState → DrawdownState
outcome disabled target = disabled
outcome prior target = target

transition-outcome :
    (k : String) (now clock : ℕ) (prior target : DrawdownState) (w : World)
    → let (w', state) = transition k now clock prior target w in
      (state ≡ outcome prior target)
      × (prior ≢ disabled → target ≡ disabled → w'.sent ≡ auto_disabled k prior ∷ w.sent)
      × (severity state ≤ severity prior → w'.sent ≡ w.sent)
unfolding transition
transition-outcome k now clock disabled target w = (refl, λ live _. absurd (live refl), λ _. refl)
transition-outcome k now clock normal disabled w = ground arith
transition-outcome k now clock warning disabled w = ground arith
transition-outcome k now clock warning warning w = ground arith
transition-outcome k now clock normal warning w = ground arith
transition-outcome k now clock warning normal w = ground arith
transition-outcome k now clock normal normal w = ground arith

outcome_lem :
    (account : String) (s : Strategy) (now clock : ℕ) (w : World)
    → is_configured s ≡ true
    → let prior = (current_state s.id now w.runtime).1 in
      let target =
        target_state s (compute_rolling_pnl account s.id rolling_window_days now w.cycles) in
      let (w', state) = check_and_apply account s now clock w in
      (state ≡ outcome prior target)
      × (prior ≢ disabled → target ≡ disabled → w'.sent ≡ auto_disabled s.id prior ∷ w.sent)
      × (severity state ≤ severity prior → w'.sent ≡ w.sent)
unfolding check_and_apply
outcome_lem account s now clock w on =
    let read = current_state s.id now w.runtime in
    let pnl = compute_rolling_pnl account s.id rolling_window_days now w.cycles in
    rw on (
      transition-outcome s.id now clock read.1 (target_state s pnl) (record w { runtime = read.0 }))

-- A configured check returns the state that the P&L calls for, except that a disabled strategy
-- stays disabled.
pub check_and_apply-outcome :
    (account : String) (s : Strategy) (now clock : ℕ) (w : World)
    → is_configured s ≡ true
    → (check_and_apply account s now clock w).1
      ≡ outcome
          (current_state s.id now w.runtime).1
          (target_state s (compute_rolling_pnl account s.id rolling_window_days now w.cycles))
check_and_apply-outcome account s now clock w on = (outcome_lem account s now clock w on).0

-- A check that disables a strategy that was not disabled sends its notice, with the state that the
-- strategy was in, and no other.
check_and_apply_notifies :
    (account : String) (s : Strategy) (now clock : ℕ) (w : World)
    → is_configured s ≡ true
    → (current_state s.id now w.runtime).1 ≢ disabled
    → target_state s (compute_rolling_pnl account s.id rolling_window_days now w.cycles) ≡ disabled
    → (check_and_apply account s now clock w).0.sent
      ≡ auto_disabled s.id (current_state s.id now w.runtime).1 ∷ w.sent
check_and_apply_notifies account s now clock w on live low =
    (outcome_lem account s now clock w on).1 live low

-- A check that leaves the strategy in its state, or in a milder one, sends nothing.
check_and_apply_silent :
    (account : String) (s : Strategy) (now clock : ℕ) (w : World)
    → is_configured s ≡ true
    → severity (check_and_apply account s now clock w).1
      ≤ severity (current_state s.id now w.runtime).1
    → (check_and_apply account s now clock w).0.sent ≡ w.sent
check_and_apply_silent account s now clock w on milder =
    (outcome_lem account s now clock w on).2 milder
