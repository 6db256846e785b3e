-- ===== src/Drawdown/Persistence.antt =====
-- What the database holds after a check of risk/auto_disable.py, and for how long.
use wheelbot.Common.{
  ℕ, ◌≡◌, refl, false, String, arith, str_eq, eq_refl, true, some, ◌≢◌, ◌<◌, if◌then◌else◌, ltb,
  ◌+◌, ◌*◌,
}
use wheelbot.Store.{World}
use wheelbot.Store.Runtime.{
  DrawdownState, normal, warning, disabled, disable, mark_warning, set_drawdown_state, enable,
  Table, Row, seconds_per_day,
}
use wheelbot.Drawdown.{
  transition, current_state, check_and_apply, is_configured, compute_rolling_pnl,
  rolling_window_days, target_state, auto_reset_days,
}
use wheelbot.Models.{Strategy}

-- Rows of other strategies are left alone by a transition.
pub transition-ne :
    (k j : String) (now clock : ℕ) (prior target : DrawdownState) (w : World)
    → str_eq j k ≡ false
    → (transition k now clock prior target w).0.runtime j ≡ w.runtime j
unfolding transition disable mark_warning set_drawdown_state enable
transition-ne k j now clock disabled target w h = refl
transition-ne k j now clock normal disabled w h = ground (arith, eq_refl k)
transition-ne k j now clock warning disabled w h = ground (arith, eq_refl k)
transition-ne k j now clock warning warning w h = refl
transition-ne k j now clock normal warning w h = ground arith
transition-ne k j now clock warning normal w h = ground arith
transition-ne k j now clock normal normal w h = refl

-- Reading twice is reading once: the row that a read leaves gives the same state.
current_state_idem :
    (k : String) (now : ℕ) (t : Table)
    → current_state k now (current_state k now t).0 ≡ current_state k now t
unfolding current_state enable
current_state_idem k now t = ground (arith, eq_refl k)

-- A transition from the state that the row gives leaves the state that it returns.
transition-read :
    (k : String) (now clock : ℕ) (prior target : DrawdownState) (w : World)
    → current_state k now w.runtime ≡ (w.runtime, prior)
    → (current_state k now (transition k now clock prior target w).0.runtime).1
      ≡ (transition k now clock prior target w).1
unfolding transition disable mark_warning set_drawdown_state enable current_state
transition-read k now clock disabled target w h = ground arith
transition-read k now clock normal disabled w h = ground (arith, eq_refl k)
transition-read k now clock warning disabled w h = ground (arith, eq_refl k)
transition-read k now clock warning warning w h = ground arith
transition-read k now clock normal warning w h = ground (arith, eq_refl k)
transition-read k now clock warning normal w h = ground (arith, eq_refl k)
transition-read k now clock normal normal w h = ground arith

-- The state that a configured check returns is the state that a read at the same time finds.
check_and_apply-current_state :
    (account : String) (s : Strategy) (now clock : ℕ) (w : World)
    → is_configured s ≡ true
    → let (w', state) = check_and_apply account s now clock w in
      (current_state s.id now w'.runtime).1 ≡ state
unfolding check_and_apply
check_and_apply-current_state account s now clock w on =
    let read = current_state s.id now w.runtime in
    let pnl = compute_rolling_pnl account s.id rolling_window_days now w.cycles in
    rw on (
      transition-read s.id now clock read.1 (target_state s pnl) (record w { runtime = read.0 })
        (current_state_idem s.id now w.runtime))

transition_disables :
    (k : String) (now clock later : ℕ) (prior : DrawdownState) (w : World)
    → prior ≢ disabled
    → (current_state k later (transition k now clock prior disabled w).0.runtime).1
      ≡ (if ltb later (now + auto_reset_days * seconds_per_day) then disabled else normal)
unfolding transition disable set_drawdown_state current_state
transition_disables k now clock later disabled w live = absurd (live refl)
transition_disables k now clock later normal w live = ground (arith, eq_refl k)
transition_disables k now clock later warning w live = ground (arith, eq_refl k)

-- A check that finds a strategy not disabled, and whose P&L calls for disabling it, disables it
-- for exactly thirty days: a read finds it disabled before that time, and normal from then on.
pub check_and_apply_disables :
    (account : String) (s : Strategy) (now clock later : ℕ) (w : World)
    → is_configured s ≡ true
    → (current_state s.id now w.runtime).1 ≢ disabled
    → target_state s (compute_rolling_pnl account s.id rolling_window_days now w.cycles) ≡ disabled
    → (current_state s.id later (check_and_apply account s now clock w).0.runtime).1
      ≡ (if ltb later (now + auto_reset_days * seconds_per_day) then disabled else normal)
unfolding check_and_apply
check_and_apply_disables account s now clock later w on live low =
    let read = current_state s.id now w.runtime in
    rw (on, low)
      (transition_disables s.id now clock later read.1 (record w { runtime = read.0 }) live)

-- While a strategy is disabled, a check changes nothing at all, whatever its P&L.
check_and_apply_holds :
    (account : String) (s : Strategy) (now clock : ℕ) (w : World) {r : Row} {until : ℕ}
    → is_configured s ≡ true
    → w.runtime s.id ≡ some r
    → r.disabled_until ≡ some until
    → now < until
    → check_and_apply account s now clock w ≡ (w, disabled)
unfolding check_and_apply transition current_state
check_and_apply_holds account s now clock w on row window before = ground arith
