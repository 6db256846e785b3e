-- ===== src/Reconciler/States.antt =====
-- execution/reconciler.py: the writes of a position's state, each with its entry in the log. A
-- reason keeps the words of its text without the ids and numbers in it.
use wheelbot.Common.{
  if◌then◌else◌, Bool, Option, String, [], false, get_or, none, some, true, ℕ, ◌++◌, ◌+◌, ◌∷◌,
}
use wheelbot.Reconciler.Defs.{Books, Reconciler, count, position_flagged, notify, position_at}
use wheelbot.Models.{Position, PositionState, Symbol, manual_intervention}
use wheelbot.Store.Rows.{next_id, update_row}

-- `_log_state`
abbrev pub log_state : ℕ → Option PositionState → PositionState → String → Books → Books
log_state n from to reason b = record b {
  log = b.log ++ record { position_id = n; from_state = from; to_state = to; reason = reason } ∷ [];
}

abbrev pub with_state : (to : PositionState) → String → (now : ℕ) → Position → Position
with_state to reason now p = record p {
  state = to;
  state_change_reason = some reason;
  state_changed_at = now;
}

-- An update of the row of `p` that sets its state among other columns, and the log entry.
unfoldable pub move :
    (now n : ℕ)
    → (p : Position) → (to : PositionState) → (reason : String) → (columns : Position → Position)
    → Books
    → Books
move now n p to reason columns b =
    log_state n (some p.state) to reason (record b {
      positions = update_row n (λ q. with_state to reason now (columns q)) b.positions;
    })

-- An insert of a row, and its log entry.
unfoldable pub enter : Position → (reason : String) → Books → Books
enter p reason b =
    log_state (next_id b.positions) none p.state reason
      (record b { positions = b.positions ++ p ∷ [] })

abbrev pub new_row :
    Reconciler
    → Symbol
    → (strategy : Option String) → PositionState
    → (cycle : Option ℕ) → (reason : String) → Position
new_row r symbol strategy to cycle reason = record {
  account_id = r.account_id;
  symbol = symbol;
  strategy_id = get_or strategy "monthly_wheel";
  state = to;
  shares = 0;
  cost_basis = none;
  current_cycle_id = cycle;
  state_changed_at = r.now;
  state_change_reason = some reason;
}

abbrev pub with_cycle : Option ℕ → Position → Position
with_cycle none p = p
with_cycle (some c) p = record p { current_cycle_id = some c }

-- `_set_position_state`
unfoldable pub set_position_state :
    Reconciler
    → Option (ℕ × Position)
    → Symbol
    → PositionState
    → (reason : String) → (cycle : Option ℕ) → (strategy : Option String) → Books
    → Books
set_position_state r none symbol to reason cycle strategy b =
    enter (new_row r symbol strategy to cycle reason) reason b
set_position_state r (some (n, p)) symbol to reason cycle strategy b =
    move r.now n p to reason (with_cycle cycle) b

abbrev pub is_manual : PositionState → Bool
is_manual manual_intervention = true
is_manual _ = false

abbrev pub raise_flag : Symbol → Books → Books
raise_flag symbol b =
    notify (position_flagged symbol)
      (count (λ s. record s { manual_interventions = s.manual_interventions + 1 }) b)

-- `_flag_manual_intervention`
abbrev pub flag_found :
    Reconciler
    → Symbol
    → (reason : String) → (strategy : Option String) → Option (ℕ × Position)
    → Books
    → Books
flag_found r symbol reason strategy none b =
    enter (new_row r symbol strategy manual_intervention none reason) reason (raise_flag symbol b)
flag_found r symbol reason strategy (some (n, p)) b =
    if is_manual p.state
    then b
    else move r.now n p manual_intervention reason (λ q. q) (raise_flag symbol b)

unfoldable pub flag_manual_intervention :
    Reconciler → Symbol → (reason : String) → (strategy : Option String) → Books → Books
flag_manual_intervention r symbol reason strategy b =
    flag_found r symbol reason strategy (position_at r symbol strategy b) b
