-- ===== src/Reconciler/Defs.antt =====
-- execution/reconciler.py: what the reconciler reads and writes.
use wheelbot.Common.{Bool, List, Option, String, [], none, some, str_eq, ℕ, ◌&&◌, ◌++◌, ◌∷◌}
use wheelbot.Models.{Order, Position, PositionState, Symbol}
use wheelbot.Common.Ratio.{Ratio}
use wheelbot.Store.Rows.{find_row, update_row}
use wheelbot.Common.Int.{ℤ}

-- core/models.py, CycleOutcome.
pub data CycleOutcome : Type 0 where
  csp_expired csp_closed_profit csp_closed_loss cc_expired cc_closed_profit : CycleOutcome
  cc_closed_loss cc_called_away spread_expired_profit spread_closed_profit : CycleOutcome
  spread_closed_loss spread_max_loss iron_condor_expired_profit : CycleOutcome
  iron_condor_closed_profit iron_condor_closed_loss pmcc_short_expired_profit : CycleOutcome
  pmcc_short_closed_profit pmcc_short_closed_loss pmcc_long_rolled pmcc_full_closed : CycleOutcome
  calendar_closed_profit calendar_closed_loss calendar_expired swing_closed : CycleOutcome
  manual_close reconciled_backfill_20260826 : CycleOutcome

-- core/models.py, WheelCycle: amounts in cents.
pub record WheelCycle : Type 0 where
  pub account_id : String
  pub symbol : Symbol
  pub strategy_id : Option String
  pub started_at : ℕ
  pub ended_at : Option ℕ
  pub initial_csp_strike : Option ℤ
  pub initial_csp_premium : Option ℤ
  pub initial_capital_at_risk : Option ℤ
  pub final_pnl : Option ℤ
  pub final_pnl_pct : Option Ratio
  pub cycle_outcome : Option CycleOutcome
  pub days_held : Option ℕ
  pub n_orders : Option ℕ

-- core/models.py, StateLog: the entries that the reconciler writes. A position is named by the
-- number of its row.
pub record StateLog : Type 0 where
  pub position_id : ℕ
  pub from_state : Option PositionState
  pub to_state : PositionState
  pub reason : String

-- The calls of core/notify.py.
pub data Notice : Type 0 where
  position_assigned position_called_away position_flagged : Symbol → Notice
  cycle_closed_loss : Symbol → (pnl : ℤ) → Notice

pub record ReconcileSummary : Type 0 where
  pub fills_processed : ℕ
  pub cancellations_processed : ℕ
  pub expirations_processed : ℕ
  pub assignments_processed : ℕ
  pub called_aways_processed : ℕ
  pub manual_interventions : ℕ
  pub cycles_closed : ℕ
  pub cycles_opened : ℕ
  pub parity_flags : ℕ

abbrev pub no_summary : ReconcileSummary
no_summary = record {
  fills_processed = 0;
  cancellations_processed = 0;
  expirations_processed = 0;
  assignments_processed = 0;
  called_aways_processed = 0;
  manual_interventions = 0;
  cycles_closed = 0;
  cycles_opened = 0;
  parity_flags = 0;
}

-- The tables, and the summary that the calls fill in.
pub record Books : Type 0 where
  pub positions : List Position
  pub orders : List Order
  pub cycles : List WheelCycle
  pub log : List StateLog
  pub sent : List Notice
  pub summary : ReconcileSummary

-- The reconciler's configuration and the time of the call, in seconds.
pub record Reconciler : Type 0 where
  pub account_id : String
  pub swing_strategy_ids : List String
  pub cycle_parity_enabled : Bool
  pub cycle_parity_min_age : ℕ
  pub now : ℕ

-- The broker's view of an order, with the quantity that the broker's answer names as filled.
pub record BrokerView : Type 0 where
  pub order : Order
  pub filled_qty : Option ℤ

abbrev pub count : (ReconcileSummary → ReconcileSummary) → Books → Books
count f b = record b { summary = f b.summary }

abbrev pub notify : Notice → Books → Books
notify n b = record b { sent = b.sent ++ n ∷ [] }

abbrev pub update_order : ℕ → (Order → Order) → Books → Books
update_order n f b = record b { orders = update_row n f b.orders }

-- `orders.update(id, cycle_id=...)`
abbrev pub tag : ℕ → Option ℕ → Books → Books
tag n none b = b
tag n (some cycle) b = update_order n (λ o. record o { cycle_id = some cycle }) b

-- The same, for an order that has no cycle yet.
abbrev pub tag_untagged : ℕ → Order → Option ℕ → Books → Books
tag_untagged n o cycle b = elim o.cycle_id [ none ↦ tag n cycle b | some _ ↦ b ]

abbrev pub is_at_symbol : (account : String) → Symbol → Option String → Position → Bool
is_at_symbol account symbol none p = str_eq p.account_id account && str_eq p.symbol symbol
is_at_symbol account symbol (some strategy) p =
    str_eq p.account_id account && (str_eq p.symbol symbol && str_eq p.strategy_id strategy)

-- `positions.get_by_symbol`, with or without a strategy, and the number of the row.
abbrev pub position_at : Reconciler → Symbol → Option String → Books → Option (ℕ × Position)
position_at r symbol strategy b = find_row (is_at_symbol r.account_id symbol strategy) b.positions

abbrev pub cycle_of : Option (ℕ × Position) → Option ℕ
cycle_of none = none
cycle_of (some (n, p)) = p.current_cycle_id
