-- ===== src/Router/Tests.antt =====
-- Runs of execution/router.py on platforms/paper_broker.py.
use wheelbot.Router.Samples.{
  router, at, world, draw, placed_order, sell_put_placed, put_order, pb, saturday, wary, three,
  three_submits, flaky, placed_world, waiting, second_order, waiting_submits, waiting_replaced,
  after_cancel, pending_order, replaced_world, replaced_submits, replaced_answered,
}
use wheelbot.PaperBroker.Interface.{paper_broker, paper_broker-IsNaming}
use wheelbot.Router.Held.{placed_of, after_checks, route-halved, route_held}
use wheelbot.Common.{[], false, none, refl, ℕ, ◌≡◌, some, All, arith, length, suc, ◌*◌, ◌+◌, ◌≤◌}
use wheelbot.Router.Defs.{client_order_id, caution, fresh_id}
use wheelbot.PaperBroker.{find_client, cancel_order}
use wheelbot.Common.Int.{pos, ◌+ℤ◌}
use wheelbot.Models.{Order, cancelled}
use wheelbot.Router.Admit.{news_check, halved, quantity_of}
use wheelbot.Router.Submit.{submit_with_retry}
use wheelbot.Router.{route, submit}
use wheelbot.Store.Orders.{get_by_client_id}
use wheelbot.Store.Positions.{get_by_symbol}
use wheelbot.Router.Persist.{merge, stamped, upsert_position, slot_of}
use wheelbot.Router.Prices.{option_limit_price, no_cross}
use wheelbot.Router.Stale.{cancel_stale_pending_opens}
use wheelbot.Common.Dict.{set_item, get}
use wheelbot.MarketHours.{within_entry_window}
use wheelbot.Broker.{failure, order_rejected}
use wheelbot.Router.Ticks.{IsNear, IsTick, option_limit_price-IsTick}
use wheelbot.Router.Rows.{upsert_position-holding}
use wheelbot.Router.Retries.{again, Tried, Tried-submit_with_retry, last, submit_with_retry-Tried}
use wheelbot.Store.Lookup.{find, holding}
use wheelbot.Router.Twice.{id_of, submitted}
use wheelbot.Router.Agreement.{route-agrees}
use wheelbot.Router.Sweep.{cancel_stale_pending_opens-is_live}
use wheelbot.PaperBroker.Cancel.{is_live}
use wheelbot.Router.Replaced.{route_doubles, route_stale}

route_held_example :
    ((route router pb saturday put_order world).0 ≡ after_checks router saturday put_order world)
    × (placed_of (route router pb saturday put_order world).1 ≡ none)
unfolding within_entry_window
route_held_example = route_held router pb saturday put_order world refl

route-halved_example :
    (route router pb wary three world
      ≡ submit router pb wary (halved three) (some caution) (after_checks router wary three world))
    × (1 ≤ quantity_of (halved three))
    × (2 * quantity_of (halved three) ≤ quantity_of three)
    × (quantity_of three ≤ 2 * quantity_of (halved three) + 1)
unfolding news_check
route-halved_example = route-halved router pb wary three world three_submits refl refl

submit_with_retry-Tried_example :
    let r = submit_with_retry flaky router.cfg 0 in
    (k : ℕ) × (k ≤ 5)
    × Tried flaky 0 k r.broker r.reply
    × (suc (length r.sleeps) ≡ k)
    × All (λ p. p ≤ 60000) r.sleeps
submit_with_retry-Tried_example = submit_with_retry-Tried flaky router.cfg 0 (omega arith)

Tried-submit_with_retry_example :
    ((submit_with_retry flaky router.cfg 0).broker ≡ 2)
    × ((submit_with_retry flaky router.cfg 0).reply ≡ failure order_rejected)
Tried-submit_with_retry_example =
    Tried-submit_with_retry flaky router.cfg 0 2 2 (failure order_rejected)
      (again 0 2 1 (failure order_rejected) refl (last 1)) refl (omega arith)

route-agrees_example :
    (o : Order) × (placed_world.broker.1.orders ≡ set_item "b-0" o [])
    × (get_by_client_id (id_of router (at 1000) put_order) placed_world.orders
        ≡ some (stamped (submitted router (at 1000) put_order) o))
    × ((stamped (submitted router (at 1000) put_order) o).broker_order_id ≡ some "b-0")
unfolding get_by_client_id find_client client_order_id
route-agrees_example =
    route-agrees draw router (at 1000) put_order world placed_order refl refl sell_put_placed

upsert_position-holding_example :
    holding
      (find (slot_of router put_order) (upsert_position router 1000 put_order placed_order []))
    ≡ (0, none, none)
unfolding get_by_symbol
upsert_position-holding_example =
    upsert_position-holding router 1000 put_order placed_order [] (slot_of router put_order)

option_limit_price-IsTick_example :
    (n : ℕ) × (option_limit_price router.round_up (some (pos 299)) (some (pos 302)) no_cross
      ≡ some (pos n))
    × IsTick n
    × IsNear 601 n
unfolding ◌+ℤ◌
option_limit_price-IsTick_example =
    option_limit_price-IsTick router.round_up (pos 299) (pos 302) no_cross (omega arith)

route_stale_example :
    let orders = (route router (paper_broker draw 5000) (at 5000) put_order waiting).0.orders in
    (get_by_client_id (id_of router (at 5000) put_order) orders
      ≡ some (record placed_order { status = cancelled }))
    × (get_by_client_id (fresh_id router (id_of router (at 5000) put_order) 5000) orders
        ≡ some second_order)
    × (get_by_client_id "x" orders ≡ none)
unfolding get_by_client_id client_order_id fresh_id cancel_order get set_item news_check
route_stale_example =
    route_stale router (paper_broker draw 5000) (at 5000) put_order waiting placed_order
      second_order after_cancel "x" (paper_broker-IsNaming draw 5000) waiting_submits refl refl refl
      refl refl waiting_replaced refl refl

route_doubles_example :
    let orders =
      (route router (paper_broker draw 5000) (at 5000) put_order replaced_world).0.orders in
    (placed_of (route router (paper_broker draw 5000) (at 5000) put_order replaced_world).1
      ≡ some second_order)
    × (get_by_client_id (fresh_id router (id_of router (at 5000) put_order) 4999) orders
        ≡ some pending_order)
    × (get_by_client_id (fresh_id router (id_of router (at 5000) put_order) 5000) orders
        ≡ some second_order)
unfolding get_by_client_id client_order_id fresh_id news_check stamped merge
route_doubles_example =
    route_doubles router (paper_broker draw 5000) (at 5000) put_order replaced_world
      (record placed_order { broker_order_id = some "b"; status = cancelled }) pending_order
      second_order 4999 (paper_broker-IsNaming draw 5000) replaced_submits refl refl refl refl refl
      replaced_answered

cancel_stale_pending_opens-is_live_example :
    is_live "b-0"
      (cancel_stale_pending_opens router (paper_broker draw 5000) 5000 waiting).0.broker.1.orders
    ≡ false
unfolding get
cancel_stale_pending_opens-is_live_example =
    cancel_stale_pending_opens-is_live draw router 5000 waiting "b-0" refl
