-- ===== src/Store/Runtime.antt =====
-- db/repo.py, StrategyRuntimeStateRepo: one row of runtime state for each strategy.
use wheelbot.Common.{ℕ, ◌+◌, ◌*◌, ◌&&◌, Option, none, some, String, str_eq, if◌then◌else◌, is_none}

-- `DrawdownState` of risk/auto_disable.py: the literals of the column `drawdown_state`.
pub data DrawdownState : Type 0 where
  normal warning disabled : DrawdownState

-- The literals of the column `pause_state`.
pub data PauseTag : Type 0 where
  low_win_rate negative_expectancy : PauseTag

-- Why a monitor wrote the row: the figure that crossed the threshold is not kept.
pub data Cause : Type 0 where
  below_disable below_warning below_win_rate below_expectancy : Cause

pub record Row : Type 0 where
  pub disabled_at : Option ℕ
  pub disabled_until : Option ℕ
  pub disabled_reason : Option Cause
  pub drawdown_state : Option DrawdownState
  pub pause_state : Option PauseTag
  pub paused_at : Option ℕ
  pub paused_reason : Option Cause
  pub paused_reenable_eligible_at : Option ℕ

-- The table: the row of each strategy, if there is one.
abbrev pub Table : Type 0
Table = String → Option Row

abbrev pub seconds_per_day : ℕ
seconds_per_day = 86400

-- The row that an INSERT without a column starts from.
abbrev pub blank : Row
blank = record {
  disabled_at = none;
  disabled_until = none;
  disabled_reason = none;
  drawdown_state = none;
  pause_state = none;
  paused_at = none;
  paused_reason = none;
  paused_reenable_eligible_at = none;
}

abbrev pub row_or_blank : Option Row → Row
row_or_blank none = blank
row_or_blank (some r) = r

abbrev pub put : String → Option Row → Table → Table
put k r t j = if str_eq j k then r else t j

-- INSERT … ON CONFLICT DO UPDATE of the four drawdown columns: the pause columns stay.
unfoldable pub disable : String → (until : ℕ) → Cause → (now : ℕ) → Table → Table
disable k until reason now t =
    put k
      (some (record (row_or_blank (t k)) {
        disabled_at = some now;
        disabled_until = some until;
        disabled_reason = some reason;
        drawdown_state = some disabled;
      }))
      t

unfoldable pub mark_warning : String → Cause → (now : ℕ) → Table → Table
mark_warning k reason now t =
    put k
      (some (record (row_or_blank (t k)) {
        disabled_at = some now;
        disabled_until = none;
        disabled_reason = some reason;
        drawdown_state = some warning;
      }))
      t

-- UPDATE … WHERE: no row, no effect.
unfoldable pub set_drawdown_state : String → DrawdownState → Table → Table
set_drawdown_state k tag t = elim (t k) [
  | none ↦ t
  | some r ↦ put k (some (record r { drawdown_state = some tag })) t
]

-- DELETE: the drawdown columns and the pause columns go together.
unfoldable pub enable : String → Table → Table
enable k t = put k none t

-- INSERT … ON CONFLICT DO UPDATE of the four pause columns: the drawdown columns stay.
unfoldable pub mark_paused : String → Cause → (now eligible_in_days : ℕ) → PauseTag → Table → Table
mark_paused k reason now eligible_in_days state t =
    put k
      (some (record (row_or_blank (t k)) {
        pause_state = some state;
        paused_at = some now;
        paused_reason = some reason;
        paused_reenable_eligible_at = some (now + eligible_in_days * seconds_per_day);
      }))
      t

-- The DELETE that follows the UPDATE of `clear_pause`.
abbrev drop_if_empty : Row → Option Row
drop_if_empty r =
    if is_none r.disabled_until && is_none r.drawdown_state && is_none r.pause_state
    then none
    else some r

unfoldable clear_pause : String → Table → Table
clear_pause k t = elim (t k) [
  | none ↦ t
  | some r ↦
      put k
        (drop_if_empty (record r {
          pause_state = none;
          paused_at = none;
          paused_reason = none;
          paused_reenable_eligible_at = none;
        }))
        t
]

-- What the column `pause_state` holds for a strategy; no row reads as NULL.
abbrev pub pause_of : String → Table → Option PauseTag
pause_of k t = (row_or_blank (t k)).pause_state
