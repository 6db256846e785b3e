-- ===== src/Reconciler/Tests.antt =====
-- Runs of the reconciler: a put on F of two contracts at a strike of 10, sold at 50 cents.
use wheelbot.Reconciler.Defs.{Books, BrokerView, Reconciler, WheelCycle, cc_called_away, no_summary}
use wheelbot.Reconciler.{
  Feed, observed_partial_fill, dispatch_order_transition, locate, process_order, reconcile_once,
}
use wheelbot.Common.{List, Option, String, [], arith, none, refl, some, true, ℕ, ◌∷◌, ◌≡◌, ◌⊎◌}
use wheelbot.Models.{
  OptionType, Order, OrderStatus, Position, PositionState, buy_to_open, call, cc_open, csp_open,
  csp_pending, filled, idle, manual_intervention, pending, sell_to_open, shares_held, put,
}
use wheelbot.Reconciler.Returns.{dispatch-upsert_position}
use wheelbot.Router.Samples.{placed_order, router}
use wheelbot.RiskGate.Samples.{config, sell_put}
use wheelbot.RiskGate.Defs.{single}
use wheelbot.Router.Persist.{slot_of, upsert_position}
use wheelbot.Store.Lookup.{find, holding}
use wheelbot.Store.Positions.{get_by_symbol}
use wheelbot.RiskGate.Screens.{is_swing_id}
use wheelbot.Models.{cancelled}
use wheelbot.Reconciler.Shifts.{diff_one-Moved}
use wheelbot.Reconciler.Transitions.{Shift}
use wheelbot.Reconciler.Twice.{at_time, process_order-process_order}
use wheelbot.Reconciler.Parity.{audit_cycle_parity, list_open}
use wheelbot.Reconciler.Orphans.{audit_cycle_parity-orphan}
use wheelbot.Reconciler.Flagged.{state_at}
use wheelbot.Reconciler.Pnl.{called_away-nets, on_assignment-basis}
use wheelbot.Reconciler.Cycles.{closed, compute_cycle_pnl, csp_cycle, open_cycle}
use wheelbot.Reconciler.Shapes.{
  cycle_cc_strike, cycle_csp_quantity, on_assignment, on_called_away, synthetic,
}
use wheelbot.Reconciler.Diff.{diff_one}
use wheelbot.Store.Rows.{find_row, row, update_row}
use wheelbot.Reconciler.States.{move, set_position_state}
use wheelbot.Reconciler.Fills.{on_fill, on_wheel_fill}
use wheelbot.Common.Int.{pos, ◌*ℤ◌, ◌+ℤ◌, ◌-ℤ◌}
use wheelbot.Reconciler.Logged.{reconcile_once-IsLogged, replay, states}

abbrev recon : Reconciler
recon = record {
  account_id = "main";
  swing_strategy_ids = [];
  cycle_parity_enabled = true;
  cycle_parity_min_age = 604800;
  now = 1000000;
}

abbrev option_order : String → OptionType → (strike price : ℕ) → OrderStatus → Option ℕ → Order
option_order id t strike price status cycle = record {
  account_id = "main";
  symbol = "F";
  strategy_id = some "wheel";
  broker_order_id = some id;
  client_order_id = some id;
  order_type = sell_to_open;
  contract_symbol = none;
  strike = some (pos strike);
  expiration = none;
  option_type = some t;
  quantity = pos 2;
  limit_price = some (pos price);
  fill_price = some (pos price);
  status = status;
  placed_at = 5;
  filled_at = none;
  legs = [];
  cycle_id = cycle;
  trigger_reason = none;
  raw_request = none;
}

abbrev put_order : Order
put_order = option_order "c-1" put 1000 50 filled (some 0)

abbrev call_order : Order
call_order = option_order "c-2" call 1100 30 filled (some 0)

abbrev at_state : PositionState → Option ℕ → Position
at_state s cycle = record {
  account_id = "main";
  symbol = "F";
  strategy_id = "wheel";
  state = s;
  shares = 0;
  cost_basis = none;
  current_cycle_id = cycle;
  state_changed_at = 0;
  state_change_reason = none;
}

abbrev books : PositionState → Option ℕ → List Order → List WheelCycle → Books
books s cycle orders cycles = record {
  positions = at_state s cycle ∷ [];
  orders = orders;
  cycles = cycles;
  log = [];
  sent = [];
  summary = no_summary;
}

-- Before the fill, and after it.
abbrev placed : Books
placed = books csp_pending none (option_order "c-1" put 1000 50 pending none ∷ []) []

abbrev short_put : Books
short_put = books csp_open (some 0) (put_order ∷ []) (csp_cycle recon put_order (pos 50) ∷ [])

abbrev fill : BrokerView
fill = record { order = put_order; filled_qty = some (pos 2) }

abbrev quiet : Feed
quiet = record { positions = []; orders_since = λ t. fill ∷ [] }

-- The fill opens the cycle.
fill_opens : states (process_order recon fill placed).positions ≡ csp_open ∷ []
unfolding process_order locate find_row update_row dispatch_order_transition on_fill on_wheel_fill
    open_cycle set_position_state move ◌*ℤ◌
fill_opens = refl

reconcile_once-IsLogged_example :
    replay (reconcile_once recon none quiet placed).0.log (csp_pending ∷ [])
    ≡ states (reconcile_once recon none quiet placed).0.positions
unfolding replay
reconcile_once-IsLogged_example =
    reconcile_once-IsLogged (csp_pending ∷ []) recon none quiet placed refl

process_order-process_order_example :
    process_order (at_time 1000300 recon) fill (process_order recon fill placed)
    ≡ process_order recon fill placed
process_order-process_order_example = process_order-process_order 1000300 recon fill placed

diff_one-Moved_example :
    (states (diff_one recon 0 (at_state csp_open (some 0)) [] short_put).positions ≡ csp_open ∷ [])
    ⊎ ((to : PositionState) × Shift csp_open to
        × (states (diff_one recon 0 (at_state csp_open (some 0)) [] short_put).positions ≡ to ∷ []))
unfolding find_row update_row
diff_one-Moved_example = diff_one-Moved recon 0 (at_state csp_open (some 0)) [] short_put refl

-- A basis of 9 dollars a share, where the premium was 50 cents a share.
on_assignment-basis_example :
    (p : Position) × (row 0 (on_assignment recon 0 (at_state csp_open (some 0)) short_put).positions
      ≡ some p)
    × (p.state ≡ shares_held)
    × (p.cost_basis ≡ some (record { num = pos 90000; den = 100 }))
unfolding row ◌*ℤ◌ ◌-ℤ◌
on_assignment-basis_example =
    on_assignment-basis recon recon 0 0 (at_state csp_open (some 0)) put_order (pos 50) (pos 1000)
      short_put refl refl refl refl

-- After the assignment a call is sold at a strike of 11.
abbrev short_call : Books
short_call = record short_put {
  positions = at_state cc_open (some 0) ∷ [];
  orders = put_order ∷ synthetic recon "F" buy_to_open 0 (pos 200) (pos 1000) ∷ call_order ∷ [];
}

-- Premiums of 100 and 60 dollars, and 200 dollars on the shares.
called_away-nets_example :
    row 0 (on_called_away (at_time 2000000 recon) 0 (at_state cc_open (some 0)) short_call).cycles
    ≡ some (closed 2000000 (pos 36000) cc_called_away (csp_cycle recon put_order (pos 50)))
unfolding row cycle_csp_quantity cycle_cc_strike on_assignment move compute_cycle_pnl ◌*ℤ◌ ◌-ℤ◌ ◌+ℤ◌
called_away-nets_example =
    called_away-nets recon 2000000 0 0 (at_state csp_open (some 0)) (at_state cc_open (some 0))
      (pos 2) (pos 1100) (csp_cycle recon put_order (pos 50)) short_put short_call (call_order ∷ [])
      refl refl refl (omega arith) refl refl refl refl refl

-- The put was bought back and its cycle was left open.
abbrev orphaned : Books
orphaned = books idle none [] (record (csp_cycle recon put_order (pos 50)) { started_at = 0 } ∷ [])

audit_cycle_parity-orphan_example :
    state_at recon "F" (some "wheel") (audit_cycle_parity recon [] orphaned)
    ≡ some manual_intervention
unfolding list_open find_row ◌*ℤ◌
audit_cycle_parity-orphan_example =
    audit_cycle_parity-orphan recon [] orphaned [] []
      (record (csp_cycle recon put_order (pos 50)) { started_at = 0 }) refl refl refl refl

-- The put that the router placed on an idle row, and that the broker then cancelled.
abbrev idle_row : Position
idle_row = record (at_state idle none) {
  account_id = config.account_id;
  symbol = sell_put.symbol;
  strategy_id = sell_put.strategy_id;
}

abbrev put_cancelled : BrokerView
put_cancelled = record { order = record placed_order { status = cancelled }; filled_qty = none }

dispatch-upsert_position_example :
    let placed_in = record placed {
      positions = upsert_position router 1000 (single sell_put) placed_order (idle_row ∷ []);
    } in
    let ended_in =
      dispatch_order_transition
        (record recon { account_id = config.account_id })
        0
        placed_order
        put_cancelled
        placed_in in
    (q : Position) × (find (slot_of router (single sell_put)) ended_in.positions ≡ some q)
    × (q.state ≡ idle)
    × (holding (some q) ≡ (0, none, none))
unfolding is_swing_id observed_partial_fill get_by_symbol
dispatch-upsert_position_example =
    dispatch-upsert_position router (record recon { account_id = config.account_id }) 1000 0
      (single sell_put) placed_order placed_order put_cancelled
      (record placed { positions = idle_row ∷ [] }) refl refl
      (record { symbol = refl; strategy = refl; order_type = refl; option_type = refl }) refl refl
      refl
