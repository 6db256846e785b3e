-- ===== src/KillSwitch/Release.antt =====
-- When the kill switch of execution/kill_switch.py lets go within a day.
use wheelbot.Common.{
  Bool, List, Option, String, [], arith, false, some, ℕ, ◌≡◌, Option-cases, eq_refl, inl, inr,
}
use wheelbot.Store.Cycles.{Cycle}
use wheelbot.Store.Daily.{DailyState, Reason, clear_kill_switch_latch, Daily}
use wheelbot.KillSwitch.Latch.{IsArmedFor, Reach-IsArmedFor, check-IsArmedFor, Reach}
use wheelbot.KillSwitch.{
  KillConfig, Session, check, conclude, consecutive_losses, done, drawdown_reasons, is_latching,
  latch_reasons, stop_reasons, streak_reasons,
}
use wheelbot.Common.Int.{ℤ}

-- No rule of a check gives a reason of its own.
pub record IsQuiet (cfg : KillConfig) (day : ℕ) (equity : Option ℤ) (files : String → Bool)
    (cycles : List Cycle) (s : Session) : Type 0 where
  pub no_file : stop_reasons cfg files ≡ []
  pub no_drawdown : drawdown_reasons cfg (s.daily cfg.account day) equity ≡ done []
  pub no_streak :
      streak_reasons cfg (consecutive_losses cfg.account cfg.consecutive_losses_pause cycles) ≡ []

latch_reasons_idle :
    (row : DailyState) (r : Reason)
    → row.kill_switch_reason ≡ some r
    → is_latching r ≡ false
    → latch_reasons (some row) [] ≡ []
unfolding latch_reasons
latch_reasons_idle row r reason plain = rw (reason, plain) (ground arith)

check_quiet :
    (cfg : KillConfig) (day : ℕ) (equity : Option ℤ) (files : String → Bool) (cycles : List Cycle)
    (r : Reason) (s : Session)
    → IsArmedFor cfg.account day r s.daily
    → is_latching r ≡ false
    → IsQuiet cfg day equity files cycles s
    → (check cfg day equity files cycles s).1 ≡ done (record { tripped = false; reasons = [] })
unfolding check conclude
check_quiet cfg day equity files cycles r s (row, found, armed, reason) plain quiet = rw (
  quiet.no_drawdown,
  check,
  quiet.no_file,
  quiet.no_streak,
  found,
  latch_reasons_idle row r reason plain,
)

-- Where the first trip of a day was for a reason that names neither a drawdown nor a losing
-- streak, as the stop file's is, no later trip of that day is latched: whatever has tripped since,
-- a check at which no rule gives a reason is not tripped, while the day's row still says armed.
pub check_unlatched :
    (cfg : KillConfig) (day : ℕ) (equity : Option ℤ) (files : String → Bool) (cycles : List Cycle)
    (r : Reason) {s s' : Session}
    → IsArmedFor cfg.account day r s.daily
    → is_latching r ≡ false
    → Reach s s'
    → IsQuiet cfg day equity files cycles s'
    → ((check cfg day equity files cycles s').1 ≡ done (record { tripped = false; reasons = [] }))
      × IsArmedFor cfg.account day r (check cfg day equity files cycles s').0.daily
check_unlatched cfg day equity files cycles r {s' = t} armed plain run quiet =
    let still = Reach-IsArmedFor cfg.account day r run armed in
    (
      check_quiet cfg day equity files cycles r t still plain quiet,
      check-IsArmedFor cfg cfg.account day day equity files cycles r t still,
    )

latch_reasons-clear :
    (account : String) (day : ℕ) (t : Daily)
    → latch_reasons (clear_kill_switch_latch account day t account day) [] ≡ []
unfolding latch_reasons clear_kill_switch_latch
latch_reasons-clear account day t = elim (Option-cases (t account day)) [
  | inl absent ↦ rw (absent, clear_kill_switch_latch) (rw absent)
  | inr (row, found) ↦ rw (found, clear_kill_switch_latch) (ground (arith, eq_refl account))
]

-- The session after the operator's release.
abbrev released : KillConfig → (day : ℕ) → Session → Session
released cfg day s = record s { daily = clear_kill_switch_latch cfg.account day s.daily }

-- The operator's release opens a latched switch: with no reason of its own, the next check of the
-- day is not tripped.
clear_kill_switch_latch_opens :
    (cfg : KillConfig) (day : ℕ) (equity : Option ℤ) (files : String → Bool) (cycles : List Cycle)
    (s : Session)
    → IsQuiet cfg day equity files cycles (released cfg day s)
    → (check cfg day equity files cycles (released cfg day s)).1
      ≡ done (record { tripped = false; reasons = [] })
unfolding check conclude
clear_kill_switch_latch_opens cfg day equity files cycles s quiet = rw (
  quiet.no_drawdown,
  check,
  quiet.no_file,
  quiet.no_streak,
  latch_reasons-clear cfg.account day s.daily,
)
