-- ===== src/Router.antt =====
-- execution/router.py, `OrderRouter.place` and `place_multi_leg`: `route` is both, by the kind of the
-- proposal.
pub mod Prices
pub mod Defs
pub mod Admit
pub mod Submit
pub mod Stale
pub mod Persist
pub mod Retries
pub mod Ticks
pub mod Held
pub mod Rows
pub mod Delivered
pub mod Twice
pub mod Replaced
pub mod Agreement
pub mod Sweep
pub mod Samples
mod Tests
use wheelbot.Common.{
  if◌then◌else◌, Bool, List, Option, String, [], false, none, not, some, true, ℕ, ◌&&◌, ◌++◌, ◌/◌,
  ◌==◌, ◌∷◌,
}
use wheelbot.Models.{MultiLegProposal, Order, Position, Proposal, is_put}
use wheelbot.Macro.{Alarms}
use wheelbot.MarketHours.{within_entry_window}
use wheelbot.Broker.{Broker, Reply, answer, failure}
use wheelbot.RiskGate.{evaluate}
use wheelbot.RiskGate.Defs.{
  AnyProposal, GateConfig, Market, OrderRow, Rule, is_sell_to_open, multi, order_type_of, single,
}
use wheelbot.Router.Defs.{
  Decision, Moment, OrderRouter, Outcome, RouteResult, World, block, caution, client_order_id,
  errored, is_open_type, nothing_placed, routed,
}
use wheelbot.Router.Submit.{Attempts, is_multi_open, request, submit_with_retry}
use wheelbot.Router.Stale.{Action, go_on, replace_by, replace_stale_pending, skip_it}
use wheelbot.Router.Persist.{persist_order, stamped, upsert_position}
use wheelbot.KillSwitch.{check}
use wheelbot.Router.Admit.{adjusted, named, Admission, admission, stopped, admitted}
use wheelbot.RiskGate.Samples.{market}

abbrev placed_result : AnyProposal → Option Decision → Order → RouteResult
placed_result p d o = record (nothing_placed p) {
  placed = some o;
  news_decision = d;
  quantity_adjusted = adjusted p d;
}

module _ {S : Type 0} where
  -- The database writes: the order first, and the state of the position second.
  abbrev pub record_order : OrderRouter → (now : ℕ) → AnyProposal → Order → World S → World S
  record_order r now p o w = record w {
    orders = persist_order o w.orders;
    positions = upsert_position r now p o w.positions;
  }

  -- After the attempts. An exception leaves the tables.
  abbrev pub conclude :
      OrderRouter
      → (now : ℕ) → AnyProposal
      → Option Decision
      → Reply Order
      → World S
      → World S × Outcome
  conclude r now p d (failure e) w = (w, errored e)
  conclude r now p d (answer o) w =
      (record_order r now p (stamped p o) w, routed (placed_result p d (stamped p o)))

  abbrev pub sent : Attempts S → World S → World S
  sent a w = record w { broker = a.broker; sleeps = w.sleeps ++ a.sleeps }

  unfoldable pub deliver :
      OrderRouter
      → Broker S
      → (now : ℕ) → AnyProposal
      → Option Decision
      → (client_id : String) → World S
      → World S × Outcome
  deliver r broker now p d c w =
      let a = submit_with_retry (request broker r now c p) r.cfg w.broker in
      conclude r now p d a.reply (sent a w)

  abbrev pub by_action :
      OrderRouter
      → Broker S
      → (now : ℕ) → AnyProposal
      → Option Decision
      → (client_id : String) → World S × Action
      → World S × Outcome
  by_action r broker now p d c (w, skip_it) = (
    w,
    routed
        (record (nothing_placed p) { skipped_duplicate_pending = true; news_decision = named p d }),
  )
  by_action r broker now p d c (w, go_on) = deliver r broker now p d c w
  by_action r broker now p d c (w, replace_by new_id) = deliver r broker now p d new_id w

  -- The submission of an admitted proposal.
  unfoldable pub submit :
      OrderRouter → Broker S → Moment → AnyProposal → Option Decision → World S → World S × Outcome
  submit r broker t p d w =
      let c = client_order_id r p t.market.today in
      by_action r broker t.now p d c (replace_stale_pending r broker c t.now w)

  abbrev by_admission :
      OrderRouter → Broker S → Moment → World S → Alarms × Admission → World S × Outcome
  by_admission r broker t w (alarms, stopped result) = (record w { alarms = alarms }, routed result)
  by_admission r broker t w (alarms, admitted p d) =
      submit r broker t p d (record w { alarms = alarms })

  -- `place` and `place_multi_leg`
  unfoldable pub route : OrderRouter → Broker S → Moment → AnyProposal → World S → World S × Outcome
  route r broker t p w = by_admission r broker t w (admission r t p w)

  unfoldable place : OrderRouter → Broker S → Moment → Proposal → World S → World S × Outcome
  place r broker t p w = route r broker t (single p) w

  unfoldable place_multi_leg :
      OrderRouter → Broker S → Moment → MultiLegProposal → World S → World S × Outcome
  place_multi_leg r broker t q w = route r broker t (multi q) w
