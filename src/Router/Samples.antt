-- ===== src/Router/Samples.antt =====
-- Test data for execution/router.py: a put on a symbol at 50, and the placements of it.
use wheelbot.RiskGate.Samples.{config, market, sell_put, quiet}
use wheelbot.PaperBroker.Interface.{paper_broker}
use wheelbot.Router.Held.{placed_of, may_submit}
use wheelbot.Common.{
  if◌then◌else◌, String, [], false, none, refl, true, ℕ, ◌==◌, ◌≡◌, some, ◌+◌, ◌∷◌,
}
use wheelbot.Router.Defs.{
  Moment, OrderRouter, Section, World, router_config, client_order_id, caution, fresh_id,
}
use wheelbot.PaperBroker.{Paper, find_client, place_order, stored, cancel_order}
use wheelbot.Common.Int.{pos, ◌*ℤ◌, ◌+ℤ◌, ◌-ℤ◌}
use wheelbot.RiskGate.Defs.{
  single, effective_wheel_params, get_universe_entry, notional, strategy_entry, AnyProposal,
}
use wheelbot.Models.{Order, cancelled}
use wheelbot.Router.Admit.{admission, news_check, order_rows}
use wheelbot.Router.Submit.{attempts, build_order, request, submit_with_retry}
use wheelbot.Router.{deliver, route, submit}
use wheelbot.RiskGate.{first_failure, results_of, evaluate}
use wheelbot.Store.Orders.{get_by_client_id, update}
use wheelbot.Store.Positions.{get_by_symbol, update_state}
use wheelbot.Earnings.{in_blackout}
use wheelbot.RiskGate.Screens.{
  is_swing_id, latest_long, long_breakeven, rule_cc_strike_floor, rule_liquidity,
  rule_pmcc_short_above_breakeven, rule_regime, rule_tier2_screen,
}
use wheelbot.RiskGate.Concurrent.{list_active, rule_concurrent_cap, rule_concurrent_total}
use wheelbot.Router.Persist.{
  merge, pending_state_for, persist_order, put_state, stamped, upsert_position,
  upsert_position_pending,
}
use wheelbot.Router.Prices.{option_limit_price}
use wheelbot.Router.Stale.{replace_stale_pending}
use wheelbot.RiskGate.Capital.{rule_buying_power, rule_pmcc_position_cap, rule_position_cap}
use wheelbot.RiskGate.Events.{rule_earnings, rule_macro_blackout, short_expiration}
use wheelbot.Common.Dict.{set_item, get}
use wheelbot.MarketHours.{within_entry_window}
use wheelbot.Broker.{Broker, Reply, answer, failure, order_rejected, broker_unavailable}

abbrev no_section : Section
no_section = record {
  dry_run = none;
  retry_max_attempts = none;
  retry_initial_backoff = none;
  retry_max_backoff = none;
  stale_pending_minutes = none;
  open_slippage = none;
  close_slippage = none;
  entry_cutoff_minutes_before_close = none;
  news_check_advisory = none;
}

abbrev pub router : OrderRouter
router = record {
  cfg = router_config no_section;
  gate = config;
  digest = λ k. "0";
  decimal = λ n. if n == 5000 then "5000" else "other";
  round_up = λ n. true;
}

-- A Tuesday at 10:00.
abbrev pub at : (now : ℕ) → Moment
at now = record { weekday = 1; time = 36000; now = now; market = market true; news_checker = none }

abbrev pub broker : Paper
broker = record {
  account_id = "PAPER-1";
  cash = pos 20000;
  stock = [];
  open_options = [];
  orders = [];
  quotes = [];
  chains = [];
  unavailable = false;
}

abbrev pub world : World (ℕ × Paper)
world = record {
  broker = (0, broker);
  orders = [];
  positions = (market true).positions;
  alarms = quiet;
  sleeps = [];
}

abbrev pub draw : ℕ → String
draw n = if n == 0 then "b-0" else "b-1"

sell_put_submits : may_submit router (at 1000) (single sell_put) world ≡ true
unfolding within_entry_window evaluate results_of first_failure rule_buying_power ◌*ℤ◌ ◌-ℤ◌ ◌+ℤ◌
    notional effective_wheel_params get_universe_entry rule_position_cap rule_concurrent_cap
    list_active strategy_entry rule_concurrent_total rule_earnings short_expiration in_blackout
    rule_cc_strike_floor rule_liquidity rule_macro_blackout rule_pmcc_position_cap rule_regime
    rule_tier2_screen is_swing_id rule_pmcc_short_above_breakeven get_by_symbol latest_long
    long_breakeven news_check order_rows
sell_put_submits = refl

-- The order that the first call places: at the mid of 10 and 11 cents, rounded up.
abbrev sent_order : Order
sent_order = build_order router 1000 "wb-0" sell_put

abbrev pub placed_order : Order
placed_order = stored "b-0" sent_order

pub sell_put_placed :
    placed_of (route router (paper_broker draw 1000) (at 1000) (single sell_put) world).1
    ≡ some placed_order
unfolding within_entry_window evaluate results_of first_failure rule_buying_power ◌*ℤ◌ ◌-ℤ◌ ◌+ℤ◌
    notional effective_wheel_params get_universe_entry rule_position_cap rule_concurrent_cap
    list_active strategy_entry rule_concurrent_total rule_earnings short_expiration in_blackout
    rule_cc_strike_floor rule_liquidity rule_macro_blackout rule_pmcc_position_cap rule_regime
    rule_tier2_screen is_swing_id rule_pmcc_short_above_breakeven get_by_symbol latest_long
    long_breakeven news_check order_rows route admission submit client_order_id
    replace_stale_pending get_by_client_id deliver submit_with_retry attempts find_client
    place_order set_item stamped merge persist_order upsert_position upsert_position_pending
    put_state pending_state_for update_state option_limit_price
sell_put_placed = refl

abbrev pub put_order : AnyProposal
put_order = single sell_put

abbrev pub pb : Broker (ℕ × Paper)
pb = paper_broker draw 1000

-- On a Saturday nothing is entered.
abbrev pub saturday : Moment
saturday = record (at 1000) { weekday = 5 }

abbrev pub wary : Moment
wary = record (at 1000) { news_checker = some (λ symbol profile. some caution) }

abbrev pub three : AnyProposal
three = single (record sell_put { quantity = 3 })

pub three_submits : may_submit router wary three world ≡ true
unfolding within_entry_window evaluate results_of first_failure rule_buying_power ◌*ℤ◌ ◌-ℤ◌ ◌+ℤ◌
    notional effective_wheel_params get_universe_entry rule_position_cap rule_concurrent_cap
    list_active strategy_entry rule_concurrent_total rule_earnings short_expiration in_blackout
    rule_cc_strike_floor rule_liquidity rule_macro_blackout rule_pmcc_position_cap rule_regime
    rule_tier2_screen is_swing_id rule_pmcc_short_above_breakeven get_by_symbol latest_long
    long_breakeven news_check order_rows
three_submits = refl

-- A broker that can not be reached once, and then rejects.
abbrev pub flaky : ℕ → ℕ × Reply Order
flaky n = if n == 0 then (1, failure broker_unavailable) else (n + 1, failure order_rejected)

abbrev pub placed_world : World (ℕ × Paper)
placed_world = (route router pb (at 1000) put_order world).0

-- A world in which the put's order has been pending since second 1000.
abbrev pub waiting : World (ℕ × Paper)
waiting = record world {
  broker = (1, record broker { orders = ("b-0", placed_order) ∷ [] });
  orders = placed_order ∷ [];
}

abbrev pub second_order : Order
second_order = stored "b-1" (build_order router 5000 "wb-0-r5000" sell_put)

pub waiting_submits : may_submit router (at 5000) put_order waiting ≡ true
unfolding within_entry_window evaluate results_of first_failure rule_buying_power ◌*ℤ◌ ◌-ℤ◌ ◌+ℤ◌
    notional effective_wheel_params get_universe_entry rule_position_cap rule_concurrent_cap
    list_active strategy_entry rule_concurrent_total rule_earnings short_expiration in_blackout
    rule_cc_strike_floor rule_liquidity rule_macro_blackout rule_pmcc_position_cap rule_regime
    rule_tier2_screen is_swing_id rule_pmcc_short_above_breakeven get_by_symbol latest_long
    long_breakeven news_check order_rows
waiting_submits = refl

pub waiting_replaced :
    placed_of (route router (paper_broker draw 5000) (at 5000) put_order waiting).1
    ≡ some second_order
unfolding within_entry_window evaluate results_of first_failure rule_buying_power ◌*ℤ◌ ◌-ℤ◌ ◌+ℤ◌
    notional effective_wheel_params get_universe_entry rule_position_cap rule_concurrent_cap
    list_active strategy_entry rule_concurrent_total rule_earnings short_expiration in_blackout
    rule_cc_strike_floor rule_liquidity rule_macro_blackout rule_pmcc_position_cap rule_regime
    rule_tier2_screen is_swing_id rule_pmcc_short_above_breakeven get_by_symbol latest_long
    long_breakeven news_check order_rows route admission submit client_order_id
    replace_stale_pending get_by_client_id deliver submit_with_retry attempts find_client
    place_order set_item stamped merge persist_order upsert_position upsert_position_pending
    put_state pending_state_for update_state option_limit_price fresh_id cancel_order get update
waiting_replaced = refl

abbrev pub after_cancel : ℕ × Paper
after_cancel =
    (2, record broker { orders = ("b-0", record placed_order { status = cancelled }) ∷ [] })

-- The same after a first replacement, in second 4999, whose order is still pending.
abbrev pub pending_order : Order
pending_order = stored "b-0" (build_order router 4999 "wb-0-rother" sell_put)

abbrev pub replaced_world : World (ℕ × Paper)
replaced_world = record world {
  broker = (1, record broker { orders = ("b-0", pending_order) ∷ [] });
  orders =
      record placed_order { broker_order_id = some "b"; status = cancelled } ∷ pending_order ∷ [];
}

pub replaced_submits : may_submit router (at 5000) put_order replaced_world ≡ true
unfolding within_entry_window evaluate results_of first_failure rule_buying_power ◌*ℤ◌ ◌-ℤ◌ ◌+ℤ◌
    notional effective_wheel_params get_universe_entry rule_position_cap rule_concurrent_cap
    list_active strategy_entry rule_concurrent_total rule_earnings short_expiration in_blackout
    rule_cc_strike_floor rule_liquidity rule_macro_blackout rule_pmcc_position_cap rule_regime
    rule_tier2_screen is_swing_id rule_pmcc_short_above_breakeven get_by_symbol latest_long
    long_breakeven news_check order_rows
replaced_submits = refl

pub replaced_answered :
    (submit_with_retry
      (request (paper_broker draw 5000) router 5000 "wb-0-r5000" put_order)
      router.cfg
      replaced_world.broker).reply
    ≡ answer second_order
unfolding submit_with_retry attempts find_client place_order option_limit_price ◌+ℤ◌
replaced_answered = refl
