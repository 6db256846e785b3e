-- ===== src/Router/Agreement.antt =====
-- execution/router.py on platforms/paper_broker.py: the table of orders and the broker after a
-- placement.
use wheelbot.PaperBroker.Interface.{
  adapt, IsStored, paper_broker, paper_broker-IsNaming, place_multi_leg_order-IsStored,
  place_order-IsStored,
}
use wheelbot.PaperBroker as PaperBroker
use wheelbot.Router.Held.{placed_of}
use wheelbot.RiskGate.Defs.{AnyProposal, multi, single}
use wheelbot.Router.Defs.{Moment, OrderRouter, World}
use wheelbot.Common.{Option, String, ap, arith, none, refl, some, suc, sym, true, zero, ℕ, ◌∙◌, ◌≡◌}
use wheelbot.Models.{Order}
use wheelbot.PaperBroker.{
  Paper, Result, place_multi_leg_order, place_order, prior, raised, returned,
}
use wheelbot.Broker.{Reply, answer}
use wheelbot.Router.Retries.{Tried, attempts-Tried, attempts-none, is_down, last, again}
use wheelbot.Router.Submit.{attempts, build_order, build_package, request, submit_with_retry}
use wheelbot.Store.Orders.{get_by_client_id}
use wheelbot.Router.Twice.{id_of, route-get_by_client_id, route_placed, submitted}
use wheelbot.Router.Admit.{named}
use wheelbot.Router.{route}
use wheelbot.Common.Dict.{set_item}
use wheelbot.Router.Persist.{stamped}
use wheelbot.Router.Delivered.{stamped-parts}

module _ {S : Type 0} (send : S → S × Reply Order) where
  -- A broker that an unavailable call leaves answers as at first.
  Tried-send :
      (k : ℕ) (s s' : S) (a : Reply Order)
      → ((x : S) → is_down (send x).1 ≡ true → (send x).0 ≡ x)
      → Tried send s k s' a
      → (s' ≡ (send s).0) × (a ≡ (send s).1)
  Tried-send k s s' a still (last _) = (refl, refl)
  Tried-send k s s' a still (again _ _ j _ down t) =
      let (e, f) = Tried-send j (send s).0 s' a still t in
      let same = still s (ap is_down down) in
      (e ∙ ap (λ x. (send x).0) same, f ∙ ap (λ x. (send x).1) same)

  attempts-send :
      (limit left backoff : ℕ) (s : S) (o : Order)
      → ((x : S) → is_down (send x).1 ≡ true → (send x).0 ≡ x)
      → (attempts send limit left backoff s).reply ≡ answer o
      → ((attempts send limit left backoff s).broker ≡ (send s).0) × ((send s).1 ≡ answer o)
  attempts-send limit zero backoff s o still h =
      let never = ap (λ x. x.reply) (attempts-none send limit backoff s) in ground arith
  attempts-send limit (suc n) backoff s o still h =
      let (k, _, run, _) = attempts-Tried send limit n backoff s in
      let (e, f) = Tried-send k s _ _ still run in (e, sym f ∙ h)

adapt-still : (s : ℕ × Paper) (x : Result Order) → is_down (adapt s x).1 ≡ true → (adapt s x).0 ≡ s
adapt-still s (raised e) h = refl
adapt-still s (returned b o) h = ground arith

adapt-stored :
    (draw : ℕ → String) (c : Option String) (s : ℕ × Paper) (x : Result Order) (o : Order)
    → IsStored draw c s x
    → (adapt s x).1 ≡ answer o
    → (o.broker_order_id ≡ some (draw s.0))
      × ((adapt s x).0.1.orders ≡ set_item (draw s.0) o s.1.orders)
adapt-stored draw c s (raised e) o i h = ground arith
adapt-stored draw c s (returned b x) o (i, j, k) h =
    let same : x ≡ o = ground arith in
    (
      ap (λ y. y.broker_order_id) (sym same) ∙ i,
      j ∙ ap (λ y. set_item (draw s.0) y s.1.orders) same,
    )

module _ (draw : ℕ → String) (r : OrderRouter) (now : ℕ) (c : String) where
  abbrev sends : AnyProposal → ℕ × Paper → (ℕ × Paper) × Reply Order
  sends p = request (paper_broker draw now) r now c p

  sends-still : (p : AnyProposal) (s : ℕ × Paper) → is_down (sends p s).1 ≡ true → (sends p s).0 ≡ s
  sends-still (single p) s h =
      adapt-still s (PaperBroker.place_order (draw s.0) (build_order r now c p) s.1) h
  sends-still (multi q) s h =
      adapt-still s (PaperBroker.place_multi_leg_order (draw s.0) now (build_package r c q) s.1) h

  sends-stored :
      (p : AnyProposal) (s : ℕ × Paper) (o : Order)
      → prior (some c) s.1.orders ≡ none
      → (sends p s).1 ≡ answer o
      → (o.broker_order_id ≡ some (draw s.0))
        × ((sends p s).0.1.orders ≡ set_item (draw s.0) o s.1.orders)
  sends-stored (single p) s o new h =
      adapt-stored draw (some c) s _ o (place_order-IsStored draw (build_order r now c p) s new) h
  sends-stored (multi q) s o new h =
      adapt-stored draw (some c) s _ o
        (place_multi_leg_order-IsStored draw now (build_package r c q) s new) h

-- An order that is placed through the simulated broker, under an id that neither the broker nor the
-- table of orders had: the broker has exactly one order more, under the id that it drew; the table
-- has a row under the client's id that names the broker's; and but for the raw request, which the
-- router stamps, the row is the broker's order.
pub route-agrees :
    (draw : ℕ → String) (r : OrderRouter) (t : Moment) (p : AnyProposal) (w : World (ℕ × Paper))
    (o : Order)
    → get_by_client_id (id_of r t p) w.orders ≡ none
    → prior (some (id_of r t p)) w.broker.1.orders ≡ none
    → placed_of (route r (paper_broker draw t.now) t p w).1 ≡ some o
    → let w' = (route r (paper_broker draw t.now) t p w).0 in
      let id = draw w.broker.0 in
      (o' : Order) × (w'.broker.1.orders ≡ set_item id o' w.broker.1.orders)
      × (get_by_client_id (id_of r t p) w'.orders ≡ some (stamped (submitted r t p) o'))
      × ((stamped (submitted r t p) o').broker_order_id ≡ some id)
unfolding submit_with_retry
route-agrees draw r t p w o e new h =
    let broker = paper_broker draw t.now in
    let (o', q, same, ends) = route_placed r broker t p w o e h in
    let (at_first, answered) =
      attempts-send (sends draw r t.now (id_of r t p) (submitted r t p)) r.cfg.retry_max_backoff
        r.cfg.retry_max_attempts r.cfg.retry_initial_backoff w.broker o'
        (sends-still draw r t.now (id_of r t p) (submitted r t p)) q in
    let (named, orders) =
      sends-stored draw r t.now (id_of r t p) (submitted r t p) w.broker o' new answered in
    (
      o',
      ap (λ x. x.broker.1.orders) ends ∙ ap (λ x. x.1.orders) at_first ∙ orders,
      route-get_by_client_id r broker t p w o (paper_broker-IsNaming draw t.now) e h ∙ ap some same,
      (stamped-parts (submitted r t p) o').2 ∙ named,
    )
