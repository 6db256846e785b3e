-- ===== src/Reconciler/Parity.antt =====
-- execution/reconciler.py, _audit_cycle_parity: the divergence that orders and shapes do not show.
use wheelbot.Common.{
  if◌then◌else◌, Bool, List, Option, String, [], any, false, is_none, leb, ltb, none, not, select,
  some, str_eq, true, ℕ, ◌&&◌, ◌+◌, ◌-◌, ◌==◌, ◌||◌, ◌∷◌,
}
use wheelbot.Reconciler.Defs.{Books, Reconciler, WheelCycle, count, position_at}
use wheelbot.Models.{
  called_away, Position, PositionState, Symbol, broker_down, cc_closed, csp_closed, idle, killed,
  manual_intervention, scanning, spread_assigned, spread_closed,
}
use wheelbot.Store.Positions.{by_symbol}
use wheelbot.Reconciler.States.{flag_manual_intervention}
use wheelbot.Reconciler.Shapes.{holds_stock, is_shares_held}

-- `_CYCLE_ABANDONED_STATES`
abbrev pub abandoned : PositionState → Bool
abandoned idle = true
abandoned scanning = true
abandoned csp_closed = true
abandoned cc_closed = true
abandoned called_away = true
abandoned spread_closed = true
abandoned spread_assigned = true
abandoned _ = false

abbrev pub is_operator_state : PositionState → Bool
is_operator_state manual_intervention = true
is_operator_state broker_down = true
is_operator_state killed = true
is_operator_state _ = false

abbrev pub parity_flag :
    Reconciler → Symbol → (reason : String) → (strategy : Option String) → Books → Books
parity_flag r symbol reason strategy b =
    flag_manual_intervention r symbol reason strategy
      (count (λ s. record s { parity_flags = s.parity_flags + 1 }) b)

abbrev pub exposed : Option (ℕ × Position) → Bool
exposed none = false
exposed (some (n, p)) = not (abandoned p.state)

-- One open cycle of part (a).
abbrev pub audit_cycle : Reconciler → WheelCycle → Books → Books
audit_cycle r c b =
    if ltb (r.now - c.started_at) r.cycle_parity_min_age
      || exposed (position_at r c.symbol c.strategy_id b)
    then b
    else parity_flag r c.symbol "orphaned cycle" c.strategy_id b

unfoldable pub audit_cycles : Reconciler → List WheelCycle → Books → Books
audit_cycles r [] b = b
audit_cycles r (c ∷ cs) b = audit_cycles r cs (audit_cycle r c b)

abbrev insert_oldest : WheelCycle → List WheelCycle → List WheelCycle
insert_oldest c [] = c ∷ []
insert_oldest c (d ∷ ds) =
    let rest = insert_oldest c ds in if leb c.started_at d.started_at then c ∷ d ∷ ds else d ∷ rest

abbrev oldest_first : List WheelCycle → List WheelCycle
oldest_first [] = []
oldest_first (c ∷ cs) = insert_oldest c (oldest_first cs)

-- `cycles.list_open`
unfoldable pub list_open : (account : String) → List WheelCycle → List WheelCycle
list_open account cs =
    select (λ c. str_eq c.account_id account && is_none c.ended_at) (oldest_first cs)

-- A row that holds stock in a state that holds none.
abbrev pub is_untracked : Position → Bool
is_untracked p = not (p.shares == 0) && not (holds_stock p.state) && not (is_operator_state p.state)

abbrev pub audit_row : Reconciler → Position → Books → Books
audit_row r p b =
    if is_untracked p then parity_flag r p.symbol "untracked stock" (some p.strategy_id) b else b

unfoldable pub audit_rows : Reconciler → List Position → Books → Books
audit_rows r [] b = b
audit_rows r (p ∷ ps) b = audit_rows r ps (audit_row r p b)

-- The shares of a symbol's rows in the table, and at the broker, where a row that is not
-- SHARES_HELD holds contracts and no stock.
unfoldable pub local_shares : Symbol → List Position → ℕ
local_shares symbol [] = 0
local_shares symbol (p ∷ ps) =
    let rest = local_shares symbol ps in if str_eq p.symbol symbol then p.shares + rest else rest

unfoldable pub broker_shares : Symbol → List Position → ℕ
broker_shares symbol [] = 0
broker_shares symbol (p ∷ ps) =
    let rest = broker_shares symbol ps in
    if str_eq p.symbol symbol && is_shares_held p.state then p.shares + rest else rest

abbrev pub audit_symbol : Reconciler → (broker local : List Position) → Symbol → Books → Books
audit_symbol r broker local symbol b =
    if local_shares symbol local == broker_shares symbol broker
    then b
    else parity_flag r symbol "share count mismatch" none b

unfoldable pub audit_symbols :
    Reconciler → (broker local : List Position) → List Symbol → Books → Books
audit_symbols r broker local [] b = b
audit_symbols r broker local (s ∷ ss) b =
    audit_symbols r broker local ss (audit_symbol r broker local s b)

-- The symbols of the table, each once.
abbrev pub has_symbol : Symbol → List Position → Bool
has_symbol symbol ps = any (λ p. str_eq p.symbol symbol) ps

unfoldable pub symbols_of : List Position → List Symbol
symbols_of [] = []
symbols_of (p ∷ ps) =
    let rest = symbols_of ps in if has_symbol p.symbol ps then rest else p.symbol ∷ rest

-- `list_all`
unfoldable pub list_all : (account : String) → List Position → List Position
list_all account ps = by_symbol (λ p. p.symbol) (select (λ p. str_eq p.account_id account) ps)

-- `_audit_cycle_parity`
unfoldable pub audit_cycle_parity : Reconciler → (broker : List Position) → Books → Books
audit_cycle_parity r broker b =
    let b' = audit_cycles r (list_open r.account_id b.cycles) b in
    let rows = list_all r.account_id b'.positions in
    if r.cycle_parity_enabled
    then audit_symbols r broker rows (symbols_of rows) (audit_rows r rows b')
    else b
