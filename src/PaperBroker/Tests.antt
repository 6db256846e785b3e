-- ===== src/PaperBroker/Tests.antt =====
-- Runs of platforms/paper_broker.py: a covered wheel on a symbol at 50 and 55.
use wheelbot.PaperBroker.Steps.{Reach, here, later, step_place, step_fill, step_assign, step_cancel}
use wheelbot.Models.{Order, put, call, pending, sell_to_open, cc_open, shares_held}
use wheelbot.PaperBroker.Turns.{IsShort}
use wheelbot.PaperBroker.Wheel.{sell_and_assign, sell_and_assign-turn}
use wheelbot.PaperBroker.{Paper, after, cancel_order, find_client, place_order, stored, returned}
use wheelbot.PaperBroker.History.{Reach-final, Reach-client_order_id}
use wheelbot.PaperBroker.Retry.{Reach-place_order}
use wheelbot.Common.{[], false, none, refl, some, ◌≡◌, String, ◌∷◌}
use wheelbot.PaperBroker.Fills.{apply_fill, assign, fill_order, filled_at_price, add_shares}
use wheelbot.Common.Dict.{get, set_item, pop}
use wheelbot.Common.Int.{pos, ◌*ℤ◌, ◌+ℤ◌, ◌-ℤ◌}
use wheelbot.PaperBroker.Reads.{get_positions, option_rows, stock_rows}

abbrev blank_order : Order
blank_order = record {
  account_id = "main";
  symbol = "F";
  strategy_id = some "wheel";
  broker_order_id = none;
  client_order_id = some "c-1";
  order_type = sell_to_open;
  contract_symbol = some "F-PUT";
  strike = some (pos 50);
  expiration = some 30;
  option_type = some put;
  quantity = pos 2;
  limit_price = some (pos 1);
  fill_price = none;
  status = pending;
  placed_at = 5;
  filled_at = none;
  legs = [];
  cycle_id = none;
  trigger_reason = none;
  raw_request = none;
}

abbrev call_order : Order
call_order = record blank_order {
  client_order_id = some "c-2";
  contract_symbol = some "F-CALL";
  strike = some (pos 55);
  option_type = some call;
}

abbrev broker : Paper
broker = record {
  account_id = "PAPER-1";
  cash = pos 20000;
  stock = [];
  open_options = [];
  orders = [];
  quotes = [];
  chains = [];
  unavailable = false;
}

abbrev is_put_short : IsShort blank_order "F" "F-PUT" put (pos 50)
is_put_short = record {
  sells = refl;
  of_symbol = refl;
  of_contract = refl;
  has_name = refl;
  of_type = refl;
  at_strike = refl;
}

abbrev is_call_short : IsShort call_order "F" "F-CALL" call (pos 55)
is_call_short = record {
  sells = refl;
  of_symbol = refl;
  of_contract = refl;
  has_name = refl;
  of_type = refl;
  at_strike = refl;
}

sell_and_assign-turn_example :
    sell_and_assign "b-2" call_order "F-CALL"
      (pos 2)
      9
      (sell_and_assign "b-1" blank_order "F-PUT" (pos 1) 6 broker)
    ≡ record broker {
      cash = pos 21600;
      orders =
          ("b-1", filled_at_price (stored "b-1" blank_order) (pos 1) 6)
          ∷ ("b-2", filled_at_price (stored "b-2" call_order) (pos 2) 9)
          ∷ [];
    }
unfolding get set_item find_client ◌+ℤ◌ ◌-ℤ◌ ◌*ℤ◌
sell_and_assign-turn_example =
    sell_and_assign-turn "b-1" "b-2" blank_order call_order "F" "F-PUT" "F-CALL" (pos 50) (pos 55)
      (pos 1) (pos 2) 6 9 broker is_put_short is_call_short refl refl refl refl refl refl refl refl

abbrev placed : Paper
placed = after (place_order "b-1" blank_order broker) broker

abbrev filled_broker : Paper
filled_broker = after (fill_order "b-1" none 9 placed) placed

abbrev assigned_broker : Paper
assigned_broker = after (assign "F-PUT" filled_broker) filled_broker

abbrev from_placed : Reach placed assigned_broker
from_placed =
    later filled_broker assigned_broker (later placed filled_broker here (step_fill "b-1" none 9))
      (step_assign "F-PUT")

Reach-place_order_example :
    after (place_order "b-3" blank_order assigned_broker) assigned_broker ≡ assigned_broker
unfolding place_order find_client set_item
Reach-place_order_example =
    Reach-place_order placed assigned_broker "b-3" blank_order from_placed refl refl

abbrev cancel_again : Paper
cancel_again = after (cancel_order "b-1" filled_broker) filled_broker

Reach-final_example :
    get "b-1" cancel_again.orders ≡ some (filled_at_price (stored "b-1" blank_order) (pos 1) 9)
unfolding place_order fill_order get set_item find_client apply_fill
Reach-final_example =
    Reach-final filled_broker cancel_again "b-1"
      (filled_at_price (stored "b-1" blank_order) (pos 1) 9)
      (later filled_broker cancel_again here (step_cancel "b-1")) refl refl

from_start : Reach broker assigned_broker
unfolding get
from_start =
    later filled_broker assigned_broker
      (later placed filled_broker (later broker placed here (step_place "b-1" blank_order refl))
        (step_fill "b-1" none 9))
      (step_assign "F-PUT")

abbrev first_id : String
first_id = "b-1"

abbrev booked : Order
booked = filled_at_price (stored "b-1" blank_order) (pos 1) 9

Reach-client_order_id_example : first_id ≡ first_id
unfolding place_order fill_order assign get set_item find_client apply_fill add_shares ◌+ℤ◌ ◌*ℤ◌
Reach-client_order_id_example =
    Reach-client_order_id broker assigned_broker first_id first_id "c-1" booked booked refl
      from_start refl refl refl refl refl

-- The assigned shares, and the call that is open on them.
abbrev covered : Paper
covered = apply_fill call_order (pos 2) assigned_broker

covered_reports :
    get_positions covered
    ≡ returned covered (
        record {
          account_id = "PAPER-1";
          symbol = "F";
          state = shares_held;
          shares = pos 200;
          cost_basis = some (record { num = pos 10000; den = 200 });
          leg = none;
        }
        ∷ record {
          account_id = "PAPER-1";
          symbol = "F";
          state = cc_open;
          shares = pos 0;
          cost_basis = none;
          leg = some "F-CALL";
        }
        ∷ [])
unfolding get_positions stock_rows option_rows place_order fill_order assign get set_item pop
    find_client apply_fill add_shares ◌+ℤ◌ ◌-ℤ◌ ◌*ℤ◌
covered_reports = refl

covered_cash : covered.cash ≡ pos 10600
unfolding place_order fill_order assign get set_item pop find_client apply_fill add_shares ◌+ℤ◌ ◌-ℤ◌
    ◌*ℤ◌
covered_cash = refl
