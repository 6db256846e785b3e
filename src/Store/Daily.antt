-- ===== src/Store/Daily.antt =====
-- db/repo.py, DailyStateRepo: one row for each account and day, behind the kill switch.
use wheelbot.Common.{
  if◌then◌else◌, Bool, List, Option, String, false, none, some, str_eq, ℕ, ◌&&◌, ◌==◌, ◌||◌,
}
use wheelbot.Common.Int.{ℤ}

-- The parts that a reason's text is made of: execution/kill_switch.py writes no others. The
-- figures of a drawdown are left out.
pub data Piece : Type 0 where
  stop_file_present : (path : String) → Piece
  drawdown_exceeded : Piece
  losing_streak : (losses max_losses : ℕ) → Piece
  latched_for_session : Piece

-- A text, as its parts in order.
abbrev pub Reason : Type 0
Reason = List Piece

pub record DailyState : Type 0 where
  pub session_open_equity : Option ℤ
  pub consecutive_losses : ℕ
  pub kill_switch_armed : Bool
  pub kill_switch_reason : Option Reason

abbrev pub Daily : Type 0
Daily = (account : String) (day : ℕ) → Option DailyState

-- `COALESCE(a, b)`
abbrev pub coalesce {ℓ} : {A : Type ℓ} → Option A → Option A → Option A
coalesce (some a) b = some a
coalesce none b = b

-- The row after INSERT … ON CONFLICT DO UPDATE. `MAX` of two flags is their disjunction.
abbrev pub merged : Option DailyState → DailyState → DailyState
merged none new = new
merged (some old) new = record {
  session_open_equity = coalesce new.session_open_equity old.session_open_equity;
  consecutive_losses = new.consecutive_losses;
  kill_switch_armed = old.kill_switch_armed || new.kill_switch_armed;
  kill_switch_reason = coalesce old.kill_switch_reason new.kill_switch_reason;
}

abbrev put : String → ℕ → Option DailyState → Daily → Daily
put a d r t b e = if str_eq b a && e == d then r else t b e

unfoldable pub upsert : (account : String) (day : ℕ) → DailyState → Daily → Daily
upsert a d new t = put a d (some (merged (t a d) new)) t

-- The operator's way to release the latch.
unfoldable pub clear_kill_switch_latch : (account : String) (day : ℕ) → Daily → Daily
clear_kill_switch_latch a d t = elim (t a d) [
  | none ↦ t
  | some r ↦ put a d (some (record r { kill_switch_armed = false; kill_switch_reason = none })) t
]
