-- ===== src/Floors/WinRate.antt =====
-- risk/win_rate_floor.py: pauses a strategy whose share of winning cycles is too low.
use Prim.Native.String.{◌++◌}
use wheelbot.Floors.{
  Checked, ok, zero_division, FloorConfig, min_cycles, pause_alert_cooldown_hours, pause_days,
  threshold_for,
}
use wheelbot.Common.{
  if◌then◌else◌, Bool, List, Option, String, false, length, ltb, none, select, some, true, ℕ, ◌*◌,
  ◌==◌,
}
use wheelbot.Store.Cycles.{Cycle, list_closed_for_strategy}
use wheelbot.Store.Runtime.{
  PauseTag, Table, below_win_rate, low_win_rate, mark_paused, negative_expectancy, pause_of,
}
use wheelbot.Common.Ratio.{Ratio, ltb_ratio, quotient}
use wheelbot.Models.{Strategy}
use wheelbot.Store.{World, paused_low_win_rate, notify_limited}
use wheelbot.Common.Int.{ltb_ℤ, pos}

pub data Action : Type 0 where
  normal insufficient_data pause : Action

pub record WinRateResult : Type 0 where
  pub action : Action
  pub win_rate : Option Ratio
  pub sample_size : ℕ

abbrev pub result : Action → Option Ratio → ℕ → WinRateResult
result a r n = record { action = a; win_rate = r; sample_size = n }

abbrev is_win : Cycle → Bool
is_win c = elim c.final_pnl [ none ↦ false | some p ↦ ltb_ℤ (pos 0) p ]

-- `sum(1 for c in cycles if c.final_pnl is not None and c.final_pnl > 0)`
unfoldable pub wins : List Cycle → ℕ
wins cs = length (select is_win cs)

-- `wins / sample * 100.0`
abbrev pub win_rate : List Cycle → Ratio
win_rate cs = quotient (pos (wins cs * 100)) (length cs)

-- The dashboard's reading: it knows only the threshold of the configuration block.
unfoldable pub evaluate :
    FloorConfig → (account strategy : String) → List Cycle → Checked WinRateResult
evaluate c account strategy all_cycles =
    let cycles = list_closed_for_strategy account strategy (min_cycles c) all_cycles in
    let sample = length cycles in
    if ltb sample (min_cycles c)
    then ok (result insufficient_data none sample)
    else if sample == 0
    then zero_division
    else (let rate = win_rate cycles in
        elim c.minimum [
          | none ↦ ok (result normal (some rate) sample)
          | some threshold ↦
              if ltb_ratio rate threshold
              then ok (result pause (some rate) sample)
              else ok (result normal (some rate) sample)
        ])

-- `True` is PAUSED_LOW_WIN_RATE; a pause of the other floor reads as NORMAL.
unfoldable pub current_pause_state : String → Table → Bool
current_pause_state k t = elim (pause_of k t) [ some low_win_rate ↦ true | _ ↦ false ]

abbrev alert_key : String → String
alert_key k = "win_rate_floor_" ++ k

-- What is done with a rate: by the pause that the row holds, and whether the rate is too low.
unfoldable pub settle :
    String
    → (eligible_in_days now clock : ℕ) → Option PauseTag
    → (target_pause : Bool) → World
    → World × Action
settle k days now clock (some low_win_rate) target_pause w = (w, pause)
settle k days now clock (some negative_expectancy) target_pause w = (w, normal)
settle k days now clock none false w = (w, normal)
settle k days now clock none true w =
    let w' : World = record w {
      runtime = mark_paused k below_win_rate now days low_win_rate w.runtime;
    } in
    (
      notify_limited (alert_key k) pause_alert_cooldown_hours clock (paused_low_win_rate k) w',
      pause,
    )

unfoldable pub check_and_apply :
    (account : String)
    → Strategy
    → FloorConfig
    → (now clock : ℕ) → World
    → World × Checked WinRateResult
check_and_apply account s c now clock w = elim (threshold_for s.win_rate_floor_pct c) [
  | none ↦ (w, ok (result normal none 0))
  | some threshold ↦
      let cycles = list_closed_for_strategy account s.id (min_cycles c) w.cycles in
      let sample = length cycles in
      if ltb sample (min_cycles c)
      then (w, ok (result insufficient_data none sample))
      else if sample == 0
      then (w, zero_division)
      else (let rate = win_rate cycles in
          let (w', action) =
            settle s.id (pause_days c) now clock (pause_of s.id w.runtime)
              (ltb_ratio rate threshold) w in
          (w', ok (result action (some rate) sample)))
]
