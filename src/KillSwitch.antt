-- ===== src/KillSwitch.antt =====
-- execution/kill_switch.py: the stops that halt new orders for the session.
pub mod Latch
pub mod Release
pub mod Anchor
pub mod Streak
mod Tests
use Prim.Native.Nat.{max}
use text.Mathlib.Text.{find?}
use wheelbot.Common.{
  if◌then◌else◌, Bool, List, Option, String, [], any, false, get_or, is_none, leb, none, not, some,
  str_eq, suc, take, true, ℕ, ◌&&◌, ◌++◌, ◌+◌, ◌||◌, ◌∷◌,
}
use wheelbot.Store.Cycles.{Cycle, newest_first}
use wheelbot.Store.Daily.{
  Daily, DailyState, Piece, Reason, drawdown_exceeded, latched_for_session, losing_streak,
  stop_file_present, upsert,
}
use wheelbot.Common.Ratio.{Ratio, divide, ltb_ratio, times_100}
use wheelbot.Common.Int.{ltb_ℤ, pos, ℤ, ◌-ℤ◌}

pub record KillConfig : Type 0 where
  pub account : String
  pub stop_file_path : Option String
  pub daily_loss_kill_switch_pct : Ratio
  pub consecutive_losses_pause : ℕ

-- The state that the switch writes: the daily rows, and the reasons of the notifications sent.
pub record Session : Type 0 where
  pub daily : Daily
  pub sent : List Reason

pub record KillSwitchResult : Type 0 where
  pub tripped : Bool
  pub reasons : List Reason

-- What a call ends in: the broker may not answer, and an equity of zero cannot be divided by.
pub data Ended (A : Type 0) : Type 0 where
  done : A → Ended A
  broker_unavailable zero_division : Ended A

-- `word in text`
abbrev mentions : (path_word : String) → (Piece → Bool) → Reason → Bool
mentions word own r =
    any
      (λ p.
        own p || elim p [ stop_file_present path ↦ not (is_none (find? path word)) | _ ↦ false ])
      r

abbrev is_drawdown : Piece → Bool
is_drawdown drawdown_exceeded = true
is_drawdown _ = false

abbrev is_streak : Piece → Bool
is_streak (losing_streak n m) = true
is_streak _ = false

-- `"drawdown" in prior or "consecutive" in prior`
pub is_latching : Reason → Bool
is_latching prior = mentions "drawdown" is_drawdown prior || mentions "consecutive" is_streak prior

-- The number of losing cycles at the front of the list.
pub streak : List ℤ → ℕ
streak [] = 0
streak (p ∷ ps) = let rest = streak ps in if ltb_ℤ p (pos 0) then suc rest else 0

-- The final P&L of the account's closed cycles, newest first.
pub closed_pnls : (account : String) → List Cycle → List ℤ
closed_pnls account [] = []
closed_pnls account (c ∷ cs) =
    let rest = closed_pnls account cs in
    if str_eq c.account_id account && not (is_none c.ended_at)
    then elim c.final_pnl [ some p ↦ p ∷ rest | none ↦ rest ]
    else rest

-- `LIMIT max(look + 1, 5)`
pub consecutive_losses : (account : String) (look : ℕ) → List Cycle → ℕ
consecutive_losses account look cycles =
    streak (take (max (look + 1) 5) (closed_pnls account (newest_first cycles)))

-- Rule 10: the manual stop file. `files` tells which paths exist.
abbrev stop_reasons : KillConfig → (files : String → Bool) → List Reason
stop_reasons cfg files = elim cfg.stop_file_path [
  | none ↦ []
  | some path ↦ if files path then (stop_file_present path ∷ []) ∷ [] else []
]

abbrev exceeds : KillConfig → (anchor equity : ℤ) → Option Bool
exceeds cfg anchor equity = elim (divide (anchor -ℤ equity) anchor) [
  | none ↦ none
  | some loss ↦ some (ltb_ratio cfg.daily_loss_kill_switch_pct (times_100 loss))
]

-- Rule 8: the drawdown since the session's open. `equity` is what the broker answers.
pub drawdown_reasons :
    KillConfig → (anchor : Option DailyState) → (equity : Option ℤ) → Ended (List Reason)
drawdown_reasons cfg none equity = done []
drawdown_reasons cfg (some row) equity = elim row.session_open_equity [
  | none ↦ done []
  | some open_equity ↦ elim equity [
    | none ↦ broker_unavailable
    | some e ↦ elim (exceeds cfg open_equity e) [
      | none ↦ zero_division
      | some b ↦ done (if b then (drawdown_exceeded ∷ []) ∷ [] else [])
    ]
  ]
]

-- Rule 9: losing cycles in a row.
abbrev streak_reasons : KillConfig → (losses : ℕ) → List Reason
streak_reasons cfg losses =
    if leb cfg.consecutive_losses_pause losses
    then (losing_streak losses cfg.consecutive_losses_pause ∷ []) ∷ []
    else []

-- The latch: an automatic trip of this day stays.
pub latch_reasons : (anchor : Option DailyState) → List Reason → List Reason
latch_reasons anchor (r ∷ rs) = r ∷ rs
latch_reasons none [] = []
latch_reasons (some row) [] =
    let prior = get_or row.kill_switch_reason [] in
    if row.kill_switch_armed && is_latching prior then (latched_for_session ∷ prior) ∷ [] else []

-- `"; ".join(reasons)`, and whether there is any.
abbrev joined : List Reason → Reason
joined [] = []
joined (r ∷ rs) = r ++ joined rs

abbrev pub is_some_reason : List Reason → Bool
is_some_reason [] = false
is_some_reason (r ∷ rs) = true

abbrev was_armed : Option DailyState → Bool
was_armed none = false
was_armed (some row) = row.kill_switch_armed

abbrev open_equity_of : Option DailyState → Option ℤ
open_equity_of none = none
open_equity_of (some row) = row.session_open_equity

-- The row that a check writes, before it meets the old one.
abbrev written : (anchor : Option DailyState) (losses : ℕ) → List Reason → DailyState
written anchor losses reasons = record {
  session_open_equity = open_equity_of anchor;
  consecutive_losses = losses;
  kill_switch_armed = is_some_reason reasons;
  kill_switch_reason = if is_some_reason reasons then some (joined reasons) else none;
}

-- Writing the row, and the notification on the way into the armed state.
pub conclude :
    KillConfig
    → (day losses : ℕ) (anchor : Option DailyState) → List Reason
    → Session
    → Session × KillSwitchResult
conclude cfg day losses anchor reasons s =
    let tripped = is_some_reason reasons in
    let daily =
      if tripped || was_armed anchor
      then upsert cfg.account day (written anchor losses reasons) s.daily
      else s.daily in
    let sent = if tripped && not (was_armed anchor) then joined reasons ∷ s.sent else s.sent in
    (record { daily = daily; sent = sent }, record { tripped = tripped; reasons = reasons })

-- One tick's check.
pub check :
    KillConfig
    → (day : ℕ) (equity : Option ℤ) (files : String → Bool) → List Cycle
    → Session
    → Session × Ended KillSwitchResult
check cfg day equity files cycles s =
    let anchor = s.daily cfg.account day in
    elim (drawdown_reasons cfg anchor equity) [
      | broker_unavailable ↦ (s, broker_unavailable)
      | zero_division ↦ (s, zero_division)
      | done drawdown ↦
          let losses = consecutive_losses cfg.account cfg.consecutive_losses_pause cycles in
          let reasons =
            latch_reasons anchor
              (stop_reasons cfg files ++ (drawdown ++ streak_reasons cfg losses)) in
          let (s', result) = conclude cfg day losses anchor reasons s in (s', done result)
    ]

-- The row that `prime_session` makes from the one that is there.
abbrev primed : Option DailyState → (equity : ℤ) → DailyState
primed none equity = record {
  session_open_equity = some equity;
  consecutive_losses = 0;
  kill_switch_armed = false;
  kill_switch_reason = none;
}
primed (some row) equity = record row { session_open_equity = some equity }

-- Asks the broker for the equity, and writes it.
abbrev take_anchor :
    KillConfig
    → (day : ℕ) (existing : Option DailyState) (equity : Option ℤ) → Session
    → Session × Ended DailyState
take_anchor cfg day existing none s = (s, broker_unavailable)
take_anchor cfg day existing (some e) s =
    let entry = primed existing e in
    (record s { daily = upsert cfg.account day entry s.daily }, done entry)

-- Takes the session-open equity of the day, once.
pub prime_session :
    KillConfig → (day : ℕ) (equity : Option ℤ) → Session → Session × Ended DailyState
prime_session cfg day equity s = elim (s.daily cfg.account day) [
  | none ↦ take_anchor cfg day none equity s
  | some row ↦ elim row.session_open_equity [
    | some _ ↦ (s, done row)
    | none ↦ take_anchor cfg day (some row) equity s
  ]
]
