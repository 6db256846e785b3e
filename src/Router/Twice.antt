-- ===== src/Router/Twice.antt =====
-- execution/router.py: a proposal that comes again while its order is pending.
use mathlib.Core.Path.{subst}
use wheelbot.Router.Held.{placed_of, after_checks, may_submit, route-submit, route_held, sized}
use wheelbot.RiskGate.Defs.{AnyProposal}
use wheelbot.Common.{
  Bool-cases, List, Option, String, [], ap, arith, eq_refl, inl, inr, none, refl, some, sym, true,
  ◌++◌, ◌∙◌, ◌∷◌, ◌≡◌, ℕ, false, str_eq,
}
use wheelbot.Broker.{IsNaming, Names, Broker}
use wheelbot.Router.Defs.{Decision, Moment, OrderRouter, World, client_order_id}
use wheelbot.Router.Delivered.{IsDelivered, deliver_placed, stamped-parts, submit_with_retry-Names}
use wheelbot.Models.{Order}
use wheelbot.Router.{deliver, route, submit, by_action}
use wheelbot.Store.Orders.{get_by_client_id, has_client}
use wheelbot.Store.Lookup.{get_by_client_id-append, get_by_client_id-append_other, has_client-eq}
use wheelbot.Router.Stale.{is_fresh, replace_stale_pending, go_on, skip_it}
use wheelbot.PaperBroker.{is_open, is_text}
use wheelbot.Router.Admit.{news_check}
use wheelbot.Router.Persist.{persist_order, store_under}

-- The proposal as it is submitted, and the client's id that it is submitted under.
abbrev pub submitted : OrderRouter → Moment → AnyProposal → AnyProposal
submitted r t p = sized r (news_check t p) p

abbrev pub id_of : OrderRouter → Moment → AnyProposal → String
id_of r t p = client_order_id r (submitted r t p) t.market.today

store_under-new :
    (c : String) (o : Order) (os : List Order)
    → get_by_client_id c os ≡ none
    → store_under c o os ≡ os ++ o ∷ []
store_under-new c o os e = rw (e, store_under) refl

persist_order-new :
    (c : String) (o : Order) (os : List Order)
    → o.client_order_id ≡ some c
    → get_by_client_id c os ≡ none
    → persist_order o os ≡ os ++ o ∷ []
unfolding persist_order
persist_order-new c o os h e = elim (Bool-cases (is_text (some c))) [
  | inl b ↦ simp (h, b, persist_order) (store_under-new c o os e)
  | inr b ↦ simp (h, b, persist_order)
]

named-has_client : (c : String) (o : Order) → o.client_order_id ≡ some c → has_client c o ≡ true
named-has_client c o h = rw h (eq_refl c)

get_by_client_id-persist_order :
    (c : String) (o : Order) (os : List Order)
    → o.client_order_id ≡ some c
    → get_by_client_id c os ≡ none
    → get_by_client_id c (persist_order o os) ≡ some o
get_by_client_id-persist_order c o os h e =
    rw (persist_order-new c o os h e) (get_by_client_id-append c o os e (named-has_client c o h))

get_by_client_id-persist_order_other :
    (c d : String) (o : Order) (os : List Order)
    → o.client_order_id ≡ some c
    → get_by_client_id c os ≡ none
    → str_eq c d ≡ false
    → get_by_client_id d (persist_order o os) ≡ get_by_client_id d os
get_by_client_id-persist_order_other c d o os h e n =
    let other : has_client d o ≡ false = has_client-eq c d o (named-has_client c o h) ∙ n in
    rw (persist_order-new c o os h e) (get_by_client_id-append_other d o os other)

module _ {S : Type 0} where
  replace_stale_pending-none :
      (r : OrderRouter) (broker : Broker S) (c : String) (now : ℕ) (w : World S)
      → get_by_client_id c w.orders ≡ none
      → replace_stale_pending r broker c now w ≡ (w, go_on)
  unfolding replace_stale_pending
  replace_stale_pending-none r broker c now w e = rw (e, replace_stale_pending) refl

  replace_stale_pending-fresh :
      (r : OrderRouter) (broker : Broker S) (c : String) (now : ℕ) (w : World S) (x : Order)
      → get_by_client_id c w.orders ≡ some x
      → is_open x.status ≡ true
      → is_fresh r.cfg now x ≡ true
      → replace_stale_pending r broker c now w ≡ (w, skip_it)
  unfolding replace_stale_pending
  replace_stale_pending-fresh r broker c now w x e o f = rw (e, o, f, replace_stale_pending) refl

  -- Under an id without a row the submission goes on.
  pub submit-go_on :
      (r : OrderRouter) (broker : Broker S) (t : Moment) (p : AnyProposal) (d : Option Decision)
      (w : World S)
      → get_by_client_id (client_order_id r p t.market.today) w.orders ≡ none
      → submit r broker t p d w ≡ deliver r broker t.now p d (client_order_id r p t.market.today) w
  unfolding submit
  submit-go_on r broker t p d w e =
      let c = client_order_id r p t.market.today in
      ap (by_action r broker t.now p d c) (replace_stale_pending-none r broker c t.now w e)

  submit-skip_it :
      (r : OrderRouter) (broker : Broker S) (t : Moment) (p : AnyProposal) (d : Option Decision)
      (w : World S) (x : Order)
      → get_by_client_id (client_order_id r p t.market.today) w.orders ≡ some x
      → is_open x.status ≡ true
      → is_fresh r.cfg t.now x ≡ true
      → ((submit r broker t p d w).0 ≡ w) × (placed_of (submit r broker t p d w).1 ≡ none)
  unfolding submit
  submit-skip_it r broker t p d w x e o f =
      let c = client_order_id r p t.market.today in
      let q =
        ap (by_action r broker t.now p d c)
          (replace_stale_pending-fresh r broker c t.now w x e o f) in
      (ap (λ y. y.0) q, ap (λ y. placed_of y.1) q)

  -- While the row under the proposal's id is pending or partly filled, and not yet stale, the call
  -- places nothing and leaves the broker and both tables, whatever the checks say.
  pub route_pending :
      (r : OrderRouter) (broker : Broker S) (t : Moment) (p : AnyProposal) (w : World S) (x : Order)
      → get_by_client_id (id_of r t p) w.orders ≡ some x
      → is_open x.status ≡ true
      → is_fresh r.cfg t.now x ≡ true
      → ((route r broker t p w).0 ≡ after_checks r t p w)
        × (placed_of (route r broker t p w).1 ≡ none)
  route_pending r broker t p w x e o f = elim (Bool-cases (may_submit r t p w)) [
    | inr h ↦ route_held r broker t p w h
    | inl h ↦ rw (route-submit r broker t p w h) (
        submit-skip_it r broker t (submitted r t p) (news_check t p) (after_checks r t p w) x e o f)
  ]

  pub route_placed :
      (r : OrderRouter) (broker : Broker S) (t : Moment) (p : AnyProposal) (w : World S) (o : Order)
      → get_by_client_id (id_of r t p) w.orders ≡ none
      → placed_of (route r broker t p w).1 ≡ some o
      → IsDelivered broker r t.now
          (submitted r t p)
          (id_of r t p)
          (after_checks r t p w)
          o
          (route r broker t p w).0
  route_placed r broker t p w o e h = elim (Bool-cases (may_submit r t p w)) [
    | inr n ↦ let (_, nothing) = route_held r broker t p w n in ground arith
    | inl y ↦
        let go =
          route-submit r broker t p w y
          ∙ submit-go_on r broker t (submitted r t p) (news_check t p) (after_checks r t p w) e in
        rw go (
          deliver_placed broker r t.now (submitted r t p) (news_check t p) (id_of r t p)
            (after_checks r t p w) o (ap (λ x. placed_of x.1) (sym go) ∙ h))
  ]

  -- A submission under an id without a row has written the order under it, and left the other rows.
  pub IsDelivered-found :
      (broker : Broker S) (r : OrderRouter) (now : ℕ) (p : AnyProposal) (c : String)
      (w w' : World S) (o : Order)
      → IsNaming broker
      → get_by_client_id c w.orders ≡ none
      → IsDelivered broker r now p c w o w'
      → (get_by_client_id c w'.orders ≡ some o)
        × ((d : String)
            → str_eq c d ≡ false
            → get_by_client_id d w'.orders ≡ get_by_client_id d w.orders)
  IsDelivered-found broker r now p c w w' o law e (o', q, same, ends) =
      let names : o'.client_order_id ≡ some c =
        subst (Names (some c)) q (submit_with_retry-Names broker r now c p w.broker law) in
      let named : o.client_order_id ≡ some c =
        ap (λ x. x.client_order_id) same ∙ (stamped-parts p o').0 ∙ names in
      (
        ap (λ x. get_by_client_id c x.orders) ends
            ∙ get_by_client_id-persist_order c o w.orders named e,
        λ d n.
            ap (λ x. get_by_client_id d x.orders) ends
            ∙ get_by_client_id-persist_order_other c d o w.orders named e n,
      )

  -- An order placed under a new id is in the table under that id, as the call returned it.
  pub route-get_by_client_id :
      (r : OrderRouter) (broker : Broker S) (t : Moment) (p : AnyProposal) (w : World S) (o : Order)
      → IsNaming broker
      → get_by_client_id (id_of r t p) w.orders ≡ none
      → placed_of (route r broker t p w).1 ≡ some o
      → get_by_client_id (id_of r t p) (route r broker t p w).0.orders ≡ some o
  route-get_by_client_id r broker t p w o law e h =
      (IsDelivered-found broker r t.now (submitted r t p) (id_of r t p) (after_checks r t p w)
        (route r broker t p w).0 o law e (route_placed r broker t p w o e h)).0
