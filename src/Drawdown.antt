-- ===== src/Drawdown.antt =====
-- risk/auto_disable.py: the drawdown breaker of a strategy.
pub mod Persistence
pub mod Tiers
mod Tests
use Prim.Native.String.{◌++◌}
use wheelbot.Common.{
  ℕ, ◌+◌, ◌*◌, Bool, true, false, ◌&&◌, not, Option, none, some, List, [], ◌∷◌, String, ltb, leb,
  if◌then◌else◌, is_none,
}
use wheelbot.Common.Int.{ℤ, pos, ◌+ℤ◌, leb_ℤ}
use wheelbot.Models.{Strategy}
use wheelbot.Store.{World, Notice, auto_disabled, drawdown_warning, send, notify_limited}
use wheelbot.Store.Runtime.{
  Table, Cause, below_disable, below_warning, DrawdownState, normal, warning, disabled,
  seconds_per_day, row_or_blank, disable, mark_warning, set_drawdown_state, enable,
}
use wheelbot.Store.Alerts.{try_fire}
use wheelbot.Store.Cycles.{Cycle, is_closed_for}

abbrev pub auto_reset_days : ℕ
auto_reset_days = 30

abbrev pub rolling_window_days : ℕ
rolling_window_days = 7

abbrev warning_alert_cooldown_hours : ℕ
warning_alert_cooldown_hours = 4

-- Twice the multiplier of the source: 0.5 is 1, and 1.0 is 2.
unfoldable pub size_multiplier : DrawdownState → ℕ
size_multiplier warning = 1
size_multiplier _ = 2

abbrev pnl_of : Cycle → ℤ
pnl_of c = elim c.final_pnl [ none ↦ pos 0 | some p ↦ p ]

-- `ended_at >= cutoff`, with the cutoff `days` before `now`.
abbrev is_recent : (days now : ℕ) → Cycle → Bool
is_recent days now c = elim c.ended_at [
  | none ↦ false
  | some t ↦ leb now (t + days * seconds_per_day)
]

-- The sum of `final_pnl` over the cycles that closed in the last `days` days.
pub compute_rolling_pnl : (account strategy : String) (days now : ℕ) → List Cycle → ℤ
compute_rolling_pnl account strategy days now [] = pos 0
compute_rolling_pnl account strategy days now (c ∷ cs) =
    let rest = compute_rolling_pnl account strategy days now cs in
    if is_closed_for account strategy c && is_recent days now c then pnl_of c +ℤ rest else rest

-- The state that the row gives when it has no `disabled_until`.
abbrev tagged : Option DrawdownState → DrawdownState
tagged (some warning) = warning
tagged _ = normal

-- Reads the state; a row whose `disabled_until` has passed is deleted.
unfoldable pub current_state : String → (now : ℕ) → Table → Table × DrawdownState
current_state k now t = elim (t k) [
  | none ↦ (t, normal)
  | some r ↦ elim r.disabled_until [
    | some until ↦ if ltb now until then (t, disabled) else (enable k t, normal)
    | none ↦ (t, tagged r.drawdown_state)
  ]
]

abbrev is_disabled_state : DrawdownState → Bool
is_disabled_state disabled = true
is_disabled_state _ = false

-- The older reading of the state: whether it is DISABLED, and the reason.
unfoldable is_currently_disabled : String → (now : ℕ) → Table → Table × Bool × Option Cause
unfolding current_state
is_currently_disabled k now t =
    let (t', state) = current_state k now t in
    if is_disabled_state state
    then (t', true, (row_or_blank (t' k)).disabled_reason)
    else (t', false, none)

-- `threshold is not None and threshold != 0 and pnl <= threshold`
abbrev pub trips : Option ℤ → ℤ → Bool
trips none pnl = false
trips (some v) pnl = not (leb_ℤ v (pos 0) && leb_ℤ (pos 0) v) && leb_ℤ pnl v

-- What the rolling P&L calls for.
pub target_state : Strategy → ℤ → DrawdownState
target_state s pnl =
    if trips s.auto_disable_drawdown_usd pnl
    then disabled
    else if trips s.drawdown_warning_usd pnl
    then warning
    else normal

abbrev alert_key : String → String
alert_key k = "drawdown_warning_" ++ k

-- The transition, from the state that the row gave and the state that the P&L calls for.
unfoldable pub transition :
    String → (now clock : ℕ) (prior target : DrawdownState) → World → World × DrawdownState
transition k now clock disabled target w = (w, disabled)
transition k now clock prior disabled w =
    let t =
      set_drawdown_state k disabled
        (disable k (now + auto_reset_days * seconds_per_day) below_disable now w.runtime) in
    (send (auto_disabled k prior) (record w { runtime = t }), disabled)
transition k now clock warning warning w = (w, warning)
transition k now clock normal warning w =
    let w' : World = record w { runtime = mark_warning k below_warning now w.runtime } in
    (
      notify_limited (alert_key k) warning_alert_cooldown_hours clock (drawdown_warning k) w',
      warning,
    )
transition k now clock warning normal w = (record w { runtime = enable k w.runtime }, normal)
transition k now clock normal normal w = (w, normal)

abbrev pub is_configured : Strategy → Bool
is_configured s = not (is_none s.auto_disable_drawdown_usd && is_none s.drawdown_warning_usd)

-- Evaluates the thresholds and moves the state. `now` is the check's time and `clock` the time
-- that the rate limit reads.
unfoldable pub check_and_apply :
    (account : String) → Strategy → (now clock : ℕ) → World → World × DrawdownState
unfolding transition current_state
check_and_apply account s now clock w =
    if is_configured s
    then (let pnl = compute_rolling_pnl account s.id rolling_window_days now w.cycles in
        let (t, prior) = current_state s.id now w.runtime in
        transition s.id now clock prior (target_state s pnl) (record w { runtime = t }))
    else (w, normal)
