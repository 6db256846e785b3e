-- ===== src/Router/Replaced.antt =====
-- execution/router.py: the replacement of an order under the proposal's id, and the order that a
-- second replacement puts beside the first.
use text.Mathlib.TextPositions.{len-append}
use Prim.Native.String.{◌++◌ as text_append, len}
use text.Mathlib.TextLemmas.{append_cancel_left}
use wheelbot.Broker.{IsNaming, Broker, answer}
use wheelbot.Models.{Order, cancelled}
use wheelbot.Router.Defs.{OrderRouter, World, fresh_id, Decision, Moment, client_order_id}
use wheelbot.Common.{
  String, arith, eq_iff, false, refl, some, str_eq, true, ℕ, ◌≡◌, ap, ◌∙◌, ◌≢◌, Option, none, sym,
}
use wheelbot.Router.Stale.{
  cancel_at_broker, cancel_row, is_fresh, replace_by, replace_stale_pending,
}
use wheelbot.Store.Orders.{get_by_client_id, update}
use wheelbot.PaperBroker.{is_open}
use wheelbot.RiskGate.Defs.{AnyProposal}
use wheelbot.Router.Delivered.{IsDelivered, deliver_answered, deliver_placed}
use wheelbot.Router.Submit.{request, submit_with_retry}
use wheelbot.Router.Persist.{stamped}
use wheelbot.Router.Twice.{IsDelivered-found, id_of, submitted}
use wheelbot.Router.Held.{after_checks, may_submit, placed_of, route-submit}
use wheelbot.Router.{by_action, deliver, route, submit}
use wheelbot.Router.Admit.{news_check}
use wheelbot.Store.Lookup.{get_by_client_id-update, get_by_client_id-update_other}

-- A text with a suffix is another text.
grown : (c d : String) → c ≢ text_append c (text_append "-r" d)
grown c d e =
    let size = ap len e ∙ len-append c (text_append "-r" d) in
    let suffix = len-append "-r" d in omega (arith, size, suffix)

fresh_id-other : (r : OrderRouter) (c : String) (now : ℕ) → str_eq c (fresh_id r c now) ≡ false
unfolding fresh_id
fresh_id-other r c now = ground (
  arith,
  eq_iff c (fresh_id r c now),
  len-append c (text_append "-r" (r.decimal now)),
  len-append "-r" (r.decimal now),
)

suffixes :
    (c a b : String)
    → text_append c (text_append "-r" a) ≡ text_append c (text_append "-r" b)
    → a ≡ b
suffixes c a b e = append_cancel_left "-r" a b (append_cancel_left c _ _ e)

-- The ids of two seconds whose decimal texts differ.
fresh_id-fresh_id :
    (r : OrderRouter) (c : String) (a b : ℕ)
    → str_eq (r.decimal a) (r.decimal b) ≡ false
    → str_eq (fresh_id r c a) (fresh_id r c b) ≡ false
unfolding fresh_id
fresh_id-fresh_id r c a b h = ground (
  arith,
  eq_iff (fresh_id r c a) (fresh_id r c b),
  eq_iff (r.decimal a) (r.decimal b),
  suffixes c (r.decimal a) (r.decimal b),
)

str_eq-sym : (a b : String) → str_eq a b ≡ false → str_eq b a ≡ false
str_eq-sym a b h = ground (arith, eq_iff a b, eq_iff b a)

module _ {S : Type 0} where
  replace_stale_pending-terminal :
      (r : OrderRouter) (broker : Broker S) (c : String) (now : ℕ) (w : World S) (x : Order)
      → get_by_client_id c w.orders ≡ some x
      → is_open x.status ≡ false
      → replace_stale_pending r broker c now w ≡ (w, replace_by (fresh_id r c now))
  unfolding replace_stale_pending
  replace_stale_pending-terminal r broker c now w x e o = rw (e, o, replace_stale_pending) refl

  replace_stale_pending-stale :
      (r : OrderRouter) (broker : Broker S) (c : String) (now : ℕ) (w : World S) (x : Order) (s : S)
      → get_by_client_id c w.orders ≡ some x
      → is_open x.status ≡ true
      → is_fresh r.cfg now x ≡ false
      → cancel_at_broker broker x w.broker ≡ (s, answer tt)
      → replace_stale_pending r broker c now w ≡ (
        record w { broker = s; orders = update c cancel_row w.orders },
        replace_by (fresh_id r c now),
      )
  unfolding replace_stale_pending
  replace_stale_pending-stale r broker c now w x s e o f k =
      rw (e, o, f, k, replace_stale_pending) refl

  submit-replace :
      (r : OrderRouter) (broker : Broker S) (t : Moment) (p : AnyProposal) (d : Option Decision)
      (w w₁ : World S) (new_id : String)
      → replace_stale_pending r broker (client_order_id r p t.market.today) t.now w
        ≡ (w₁, replace_by new_id)
      → submit r broker t p d w ≡ deliver r broker t.now p d new_id w₁
  unfolding submit
  submit-replace r broker t p d w w₁ new_id e =
      ap (by_action r broker t.now p d (client_order_id r p t.market.today)) e

  -- What a replacement does when all checks hold.
  route-replace :
      (r : OrderRouter) (broker : Broker S) (t : Moment) (p : AnyProposal) (w w₁ : World S)
      → may_submit r t p w ≡ true
      → replace_stale_pending r broker (id_of r t p) t.now (after_checks r t p w)
        ≡ (w₁, replace_by (fresh_id r (id_of r t p) t.now))
      → route r broker t p w
        ≡ deliver r broker t.now
            (submitted r t p)
            (news_check t p)
            (fresh_id r (id_of r t p) t.now)
            w₁
  route-replace r broker t p w w₁ y e =
      route-submit r broker t p w y
      ∙ submit-replace r broker t (submitted r t p) (news_check t p) (after_checks r t p w) w₁
          (fresh_id r (id_of r t p) t.now) e

  -- A submission that ends in a placement under a new id.
  replaced_placed :
      (r : OrderRouter) (broker : Broker S) (t : Moment) (p : AnyProposal) (w w₁ : World S)
      (o : Order)
      → may_submit r t p w ≡ true
      → replace_stale_pending r broker (id_of r t p) t.now (after_checks r t p w)
        ≡ (w₁, replace_by (fresh_id r (id_of r t p) t.now))
      → placed_of (route r broker t p w).1 ≡ some o
      → IsDelivered broker r t.now
          (submitted r t p)
          (fresh_id r (id_of r t p) t.now)
          w₁
          o
          (route r broker t p w).0
  replaced_placed r broker t p w w₁ o y e h =
      let q = fresh_id r (id_of r t p) t.now in
      let go = route-replace r broker t p w w₁ y e in
      rw go (
        deliver_placed broker r t.now (submitted r t p) (news_check t p) q w₁ o
          (ap (λ x. placed_of x.1) (sym go) ∙ h))

  -- A proposal whose order has been open for too long, and which is placed again once the broker has
  -- cancelled that order: the old row is cancelled, and the new order has a row of its own under a
  -- fresh id. A row under any other id stays.
  pub route_stale :
      (r : OrderRouter) (broker : Broker S) (t : Moment) (p : AnyProposal) (w : World S)
      (x o : Order) (s : S) (d : String)
      → IsNaming broker
      → may_submit r t p w ≡ true
      → get_by_client_id (id_of r t p) w.orders ≡ some x
      → is_open x.status ≡ true
      → is_fresh r.cfg t.now x ≡ false
      → cancel_at_broker broker x w.broker ≡ (s, answer tt)
      → get_by_client_id (fresh_id r (id_of r t p) t.now) w.orders ≡ none
      → placed_of (route r broker t p w).1 ≡ some o
      → str_eq (id_of r t p) d ≡ false
      → str_eq (fresh_id r (id_of r t p) t.now) d ≡ false
      → let orders = (route r broker t p w).0.orders in
        (get_by_client_id (id_of r t p) orders ≡ some (record x { status = cancelled }))
        × (get_by_client_id (fresh_id r (id_of r t p) t.now) orders ≡ some o)
        × (get_by_client_id d orders ≡ get_by_client_id d w.orders)
  route_stale r broker t p w x o s d law y e live_row gone cancels unused h n n' =
      let c = id_of r t p in
      let c' = fresh_id r c t.now in
      let w₁ : World S = record (after_checks r t p w) {
        broker = s;
        orders = update c cancel_row w.orders;
      } in
      let new : str_eq c c' ≡ false = fresh_id-other r c t.now in
      let keeps : (k : String)
          → str_eq c k ≡ false
          → get_by_client_id k (update c cancel_row w.orders) ≡ get_by_client_id k w.orders =
        λ k. get_by_client_id-update_other cancel_row (λ a. refl) c k w.orders in
      let (at_new, kept) =
        IsDelivered-found broker r t.now (submitted r t p) c' w₁ (route r broker t p w).0 o law
          (keeps c' new ∙ unused)
          (replaced_placed r broker t p w w₁ o y
            (replace_stale_pending-stale r broker c t.now (after_checks r t p w) x s e live_row gone
              cancels)
            h) in
      (
        kept c (str_eq-sym c c' new)
            ∙ get_by_client_id-update cancel_row (λ a. refl) c x w.orders e,
        at_new,
        kept d n' ∙ keeps d n,
      )

  -- The order that a replacement has placed is not found again. A proposal whose own row is
  -- terminal, and which a replacement of an earlier second has placed before, is placed once more
  -- when it comes again at a second with another text, passes the checks, and the broker accepts the
  -- request: the row of the earlier order stays as it is, pending or not, and the new order stands
  -- beside it.
  pub route_doubles :
      (r : OrderRouter) (broker : Broker S) (t : Moment) (p : AnyProposal) (w : World S)
      (x replacement o : Order) (earlier : ℕ)
      → IsNaming broker
      → may_submit r t p w ≡ true
      → get_by_client_id (id_of r t p) w.orders ≡ some x
      → is_open x.status ≡ false
      → get_by_client_id (fresh_id r (id_of r t p) earlier) w.orders ≡ some replacement
      → str_eq (r.decimal t.now) (r.decimal earlier) ≡ false
      → get_by_client_id (fresh_id r (id_of r t p) t.now) w.orders ≡ none
      → (submit_with_retry
          (request broker r t.now (fresh_id r (id_of r t p) t.now) (submitted r t p))
          r.cfg
          w.broker).reply
        ≡ answer o
      → let orders = (route r broker t p w).0.orders in
        (placed_of (route r broker t p w).1 ≡ some (stamped (submitted r t p) o))
        × (get_by_client_id (fresh_id r (id_of r t p) earlier) orders ≡ some replacement)
        × (get_by_client_id (fresh_id r (id_of r t p) t.now) orders
            ≡ some (stamped (submitted r t p) o))
  route_doubles r broker t p w x replacement o earlier law y e is_over found another unused h =
      let c = id_of r t p in
      let q = submitted r t p in
      let w₀ = after_checks r t p w in
      let replaces = replace_stale_pending-terminal r broker c t.now w₀ x e is_over in
      let placed : placed_of (route r broker t p w).1 ≡ some (stamped q o) =
        ap (λ y. placed_of y.1) (route-replace r broker t p w w₀ y replaces)
        ∙ deliver_answered broker r t.now q (news_check t p) (fresh_id r c t.now) w₀ o h in
      let (at_new, kept) =
        IsDelivered-found broker r t.now q (fresh_id r c t.now) w₀ (route r broker t p w).0
          (stamped q o) law unused
          (replaced_placed r broker t p w w₀ (stamped q o) y replaces placed) in
      (
        placed,
        kept (fresh_id r c earlier) (fresh_id-fresh_id r c t.now earlier another) ∙ found,
        at_new,
      )
