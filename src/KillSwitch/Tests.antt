-- ===== src/KillSwitch/Tests.antt =====
-- Runs of execution/kill_switch.py, on the row of day 7.
use wheelbot.KillSwitch.Latch.{Reach, here, next, checked, primed_anew, check_latched, IsArmedFor}
use wheelbot.Common.{
  if◌then◌else◌, Bool, String, [], false, none, refl, some, str_eq, true, ◌&&◌, ◌==◌, ◌∷◌, ◌≡◌,
  List, ℕ,
}
use wheelbot.Store.Daily.{
  DailyState, Reason, drawdown_exceeded, stop_file_present, latched_for_session, upsert,
}
use wheelbot.KillSwitch.{
  KillConfig, KillSwitchResult, Session, check, prime_session, closed_pnls, conclude, done,
  drawdown_reasons, is_latching, latch_reasons, streak, consecutive_losses,
}
use wheelbot.Common.Int.{pos, negsuc, ℤ, ◌*ℤ◌, ◌-ℤ◌}
use wheelbot.Common.Ratio.{whole}
use wheelbot.Store.Cycles.{Cycle, newest_first}
use wheelbot.KillSwitch.Anchor.{HasAnchor, Reach-HasAnchor}
use wheelbot.KillSwitch.Release.{check_unlatched}
use wheelbot.Router.Samples.{at}

abbrev config : KillConfig
config = record {
  account = "main";
  stop_file_path = some "/tmp/stop";
  daily_loss_kill_switch_pct = whole (pos 5);
  consecutive_losses_pause = 3;
}

abbrev row : Reason → DailyState
row r = record {
  session_open_equity = some (pos 1000);
  consecutive_losses = 0;
  kill_switch_armed = true;
  kill_switch_reason = some r;
}

abbrev armed_for : Reason → Session
armed_for r = record {
  daily = λ a d. if str_eq a "main" && d == 7 then some (row r) else none;
  sent = [];
}

abbrev by_drawdown : Reason
by_drawdown = drawdown_exceeded ∷ []

abbrev by_file : Reason
by_file = stop_file_present "/tmp/stop" ∷ []

abbrev no_files : String → Bool
no_files path = false

-- A check and a priming in between.
abbrev checked_once : Reason → Session
checked_once r = (check config 7 (some (pos 900)) no_files [] (armed_for r)).0

abbrev primed_again : Reason → Session
primed_again r = (prime_session config 7 (some (pos 900)) (checked_once r)).0

abbrev run : (r : Reason) → Reach (armed_for r) (primed_again r)
run r =
    next (next here (checked config 7 (some (pos 900)) no_files [] refl))
      (primed_anew config 7 (some (pos 900)) refl)

abbrev latched : KillSwitchResult
latched = record { tripped = true; reasons = (latched_for_session ∷ drawdown_exceeded ∷ []) ∷ [] }

-- The market has recovered, and the switch stays tripped.
still_latched :
    (check config 7 (some (pos 1000)) no_files [] (primed_again by_drawdown)).1 ≡ done latched
unfolding check conclude drawdown_reasons consecutive_losses latch_reasons is_latching prime_session
    upsert closed_pnls streak newest_first ◌-ℤ◌ ◌*ℤ◌
still_latched = refl

check_latched_example : latched.tripped ≡ true
unfolding is_latching
check_latched_example =
    check_latched config 7 (some (pos 1000)) no_files [] by_drawdown {s = armed_for by_drawdown}
      {s' = primed_again by_drawdown} {result = latched} (row by_drawdown, refl, refl, refl) refl
      (run by_drawdown) still_latched

-- The drawdown of the check in between is forgotten after a trip of the stop file.
check_unlatched_example :
    ((check config 7 (some (pos 1000)) no_files [] (primed_again by_file)).1
      ≡ done (record { tripped = false; reasons = [] }))
    × IsArmedFor "main" 7 by_file
        (check config 7 (some (pos 1000)) no_files [] (primed_again by_file)).0.daily
unfolding check conclude drawdown_reasons consecutive_losses latch_reasons is_latching prime_session
    upsert closed_pnls streak newest_first ◌-ℤ◌ ◌*ℤ◌
check_unlatched_example =
    check_unlatched config 7 (some (pos 1000)) no_files [] by_file {s = armed_for by_file}
      {s' = primed_again by_file} (row by_file, refl, refl, refl) refl (run by_file)
      (record { no_file = refl; no_drawdown = refl; no_streak = refl })

Reach-HasAnchor_example : HasAnchor "main" 7 (pos 1000) (primed_again by_file).daily
Reach-HasAnchor_example =
    Reach-HasAnchor "main" 7 (pos 1000) (run by_file) (row by_file, refl, refl)

abbrev closed : ℤ → ℕ → Cycle
closed pnl at = record {
  account_id = "main";
  strategy_id = "wheel";
  ended_at = some at;
  final_pnl = some pnl;
}

abbrev cycles : List Cycle
cycles = closed (negsuc 9) 30 ∷ closed (pos 5) 10 ∷ closed (negsuc 4) 20 ∷ []

two_losses : consecutive_losses "main" 3 cycles ≡ 2
unfolding consecutive_losses closed_pnls newest_first streak
two_losses = refl
