-- ===== src/Floors/Expectancy.antt =====
-- risk/expectancy_floor.py: pauses a strategy whose mean result per cycle is too low.
use Prim.Native.String.{◌++◌}
use wheelbot.Floors.{
  Checked, ok, zero_division, FloorConfig, min_cycles, pause_alert_cooldown_hours, pause_days,
  threshold_for,
}
use wheelbot.Common.{
  if◌then◌else◌, Bool, List, Option, String, [], false, get_or, length, ltb, none, some, true, ℕ,
  ◌==◌, ◌∷◌,
}
use wheelbot.Store.Cycles.{Cycle, list_closed_for_strategy}
use wheelbot.Store.Runtime.{
  PauseTag, Table, below_expectancy, low_win_rate, mark_paused, negative_expectancy, pause_of,
}
use wheelbot.Common.Ratio.{Ratio, ltb_ratio, quotient}
use wheelbot.Models.{Strategy}
use wheelbot.Store.{World, paused_negative_expectancy, notify_limited}
use wheelbot.Common.Int.{pos, ℤ, ◌+ℤ◌}

pub data Action : Type 0 where
  normal insufficient_data pause held_other_pause : Action

pub record ExpectancyResult : Type 0 where
  pub action : Action
  pub expectancy : Option Ratio
  pub sample_size : ℕ

abbrev pub result : Action → Option Ratio → ℕ → ExpectancyResult
result a e n = record { action = a; expectancy = e; sample_size = n }

-- `sum((c.final_pnl or 0.0) for c in cycles)`
unfoldable pub total_pnl : List Cycle → ℤ
total_pnl [] = pos 0
total_pnl (c ∷ cs) = get_or c.final_pnl (pos 0) +ℤ total_pnl cs

-- The mean over the last closed cycles, as the source divides it.
unfoldable pub evaluate :
    FloorConfig → (account strategy : String) → List Cycle → Checked ExpectancyResult
evaluate c account strategy all_cycles =
    let cycles = list_closed_for_strategy account strategy (min_cycles c) all_cycles in
    let sample = length cycles in
    if ltb sample (min_cycles c)
    then ok (result insufficient_data none sample)
    else if sample == 0
    then zero_division
    else ok (result normal (some (quotient (total_pnl cycles) sample)) sample)

-- `True` is PAUSED_NEGATIVE_EXPECTANCY; a pause of the other floor reads as NORMAL.
unfoldable pub current_pause_state : String → Table → Bool
current_pause_state k t = elim (pause_of k t) [ some negative_expectancy ↦ true | _ ↦ false ]

abbrev alert_key : String → String
alert_key k = "expectancy_floor_" ++ k

unfoldable pub settle :
    String
    → (eligible_in_days now clock : ℕ) → Option PauseTag
    → (target_pause : Bool) → World
    → World × Action
settle k days now clock (some negative_expectancy) target_pause w = (w, pause)
settle k days now clock (some low_win_rate) target_pause w = (w, held_other_pause)
settle k days now clock none false w = (w, normal)
settle k days now clock none true w =
    let w' : World = record w {
      runtime = mark_paused k below_expectancy now days negative_expectancy w.runtime;
    } in
    (
      notify_limited (alert_key k) pause_alert_cooldown_hours clock (paused_negative_expectancy k)
          w',
      pause,
    )

-- A result with a mean goes on to the floor; the others are returned as they are.
abbrev pub continue_with :
    Strategy
    → FloorConfig
    → (now clock : ℕ) → (threshold : Ratio) → World
    → ExpectancyResult
    → World × Checked ExpectancyResult
continue_with s c now clock threshold w r = elim r.expectancy [
  | none ↦ (w, ok r)
  | some mean ↦
      let (w', action) =
        settle s.id (pause_days c) now clock (pause_of s.id w.runtime) (ltb_ratio mean threshold)
          w in
      (w', ok (result action (some mean) r.sample_size))
]

abbrev pub after_evaluate :
    Strategy
    → FloorConfig
    → (now clock : ℕ) → (threshold : Ratio) → World
    → Checked ExpectancyResult
    → World × Checked ExpectancyResult
after_evaluate s c now clock threshold w zero_division = (w, zero_division)
after_evaluate s c now clock threshold w (ok r) = continue_with s c now clock threshold w r

unfoldable pub check_and_apply :
    (account : String)
    → Strategy
    → FloorConfig
    → (now clock : ℕ) → World
    → World × Checked ExpectancyResult
check_and_apply account s c now clock w = elim (threshold_for s.expectancy_floor_usd c) [
  | none ↦ (w, ok (result normal none 0))
  | some threshold ↦ after_evaluate s c now clock threshold w (evaluate c account s.id w.cycles)
]
