-- ===== src/Reconciler/Twice.antt =====
-- execution/reconciler.py, _process_orders: the second look at an order changes nothing.
use wheelbot.Reconciler.Defs.{
  Books, Reconciler, is_at_symbol, position_at, BrokerView, update_order,
}
use wheelbot.Common.{
  Bool-cases, Option, String, ap, eq_refl, false, inl, inr, none, refl, some, true, ℕ, ◌≡◌,
  if◌then◌else◌, Bool, List, arith, eq_iff, get_or, map, sym, ◌∙◌, is_none, ◌&&◌,
}
use wheelbot.Models.{
  Position, Symbol, manual_intervention, Order, OrderStatus, cancelled, filled, partial, pending,
  rejected,
}
use wheelbot.Reconciler.States.{
  enter, flag_found, flag_manual_intervention, is_manual, move, new_row, raise_flag, with_state,
}
use wheelbot.Store.Numbers.{find_row-append, find_row-holds, find_row-update, via}
use wheelbot.Store.Rows.{update_row}
use wheelbot.Reconciler.Once.{
  by_ids, by_ids-map, by_ids-update, untagged, HasOrders, HasOrders-IsKept, or_row_self,
}
use wheelbot.Reconciler.{
  first_of, has_broker_id, locate, nonempty, process_located, refreshed, dispatch_order_transition,
  dispatch_status, process_order,
}
use wheelbot.Reconciler.Kept.{dispatch-kept}
use wheelbot.PaperBroker.{is_open}
use wheelbot.Router.Admit.{named}

-- The reconciler at another time.
abbrev pub at_time : ℕ → Reconciler → Reconciler
at_time t r = record r { now = t }

-- The flag is raised once: a row that is flagged is left, and a row that was just flagged too.
flag_row_once :
    (t : ℕ) (r : Reconciler) (symbol : Symbol) (reason : String) (n : ℕ) (p : Position) (b : Books)
    (manual : Bool)
    → position_at r symbol none b ≡ some (n, p)
    → is_manual p.state ≡ manual
    → let now_flagged = move r.now n p manual_intervention reason (λ q. q) (raise_flag symbol b) in
      let c = if manual then b else now_flagged in
      flag_found (at_time t r) symbol reason none (position_at r symbol none c) c ≡ c
unfolding move
flag_row_once t r symbol reason n p b true e h =
    ap (λ x. flag_found (at_time t r) symbol reason none x b) e
    ∙ ap
        (λ z. if z then b else move t n p manual_intervention reason (λ q. q) (raise_flag symbol b))
        h
flag_row_once t r symbol reason n p b false e h =
    ap
      (λ x.
        flag_found (at_time t r) symbol reason none x
          (move r.now n p manual_intervention reason (λ q. q) (raise_flag symbol b)))
      (find_row-update (is_at_symbol r.account_id symbol none)
        (with_state manual_intervention reason r.now) n p b.positions e
        (find_row-holds (is_at_symbol r.account_id symbol none) n p b.positions e))

flag-flag_found :
    (t : ℕ) (r : Reconciler) (symbol : Symbol) (reason : String) (x : Option (ℕ × Position))
    (b : Books)
    → position_at r symbol none b ≡ x
    → flag_manual_intervention
        (at_time t r)
        symbol
        reason
        none
        (flag_found r symbol reason none x b)
      ≡ flag_found r symbol reason none x b
unfolding flag_manual_intervention enter move
flag-flag_found t r symbol reason none b e =
    ap
      (λ x. flag_found (at_time t r) symbol reason none x (
        enter (new_row r symbol none manual_intervention none reason) reason (raise_flag symbol b)))
      (find_row-append (is_at_symbol r.account_id symbol none)
        (new_row r symbol none manual_intervention none reason) b.positions e
        (rw (eq_refl r.account_id, eq_refl symbol) refl))
flag-flag_found t r symbol reason (some (n, p)) b e =
    flag_row_once t r symbol reason n p b (is_manual p.state) e refl

flag_found-orders :
    (r : Reconciler) (symbol : Symbol) (reason : String) (x : Option (ℕ × Position)) (b : Books)
    → (flag_found r symbol reason none x b).orders ≡ b.orders
unfolding enter move
flag_found-orders r symbol reason none b = refl
flag_found-orders r symbol reason (some (n, p)) b = elim (Bool-cases (is_manual p.state)) [
  | inl e ↦ rw (e, flag_found) refl
  | inr e ↦ rw (e, flag_found) refl
]

-- An order that no row stands for.
unknown_twice :
    (t : ℕ) (r : Reconciler) (v : BrokerView) (b : Books)
    → locate v.order b.orders ≡ none
    → let c = process_located r v none b in
      process_located (at_time t r) v (locate v.order c.orders) c ≡ c
unfolding flag_manual_intervention
unknown_twice t r v b e =
    let reason : String = "unknown order at broker" in
    let x = position_at r v.order.symbol none b in
    let c = flag_found r v.order.symbol reason none x b in
    ap (λ y. process_located (at_time t r) v y c)
      (ap (λ os. locate v.order os) (flag_found-orders r v.order.symbol reason x b) ∙ e)
    ∙ flag-flag_found t r v.order.symbol reason x b refl

broker-set :
    (k : Option String) (c : String) (o : Order)
    → k ≡ some c
    → has_broker_id c (record o { broker_order_id = first_of k o.broker_order_id }) ≡ true
broker-set none c o e = ground arith
broker-set (some d) c o e = ground (arith, eq_iff d c)

-- The row that is found has the broker's columns after the refresh.
locate-refreshed :
    (view : Order) (n : ℕ) (x : Order) (os : List Order)
    → locate view os ≡ some (n, x)
    → locate view (update_row n (refreshed view) os) ≡ some (n, refreshed view x)
unfolding locate
locate-refreshed view n x os e =
    by_ids-update (refreshed view) (nonempty view.broker_order_id) (λ c o. refl)
      (λ c o h. broker-set (nonempty view.broker_order_id) c o h) (nonempty view.client_order_id) n
      x os e

via-some :
    (x : Option (ℕ × Order)) (n : ℕ) (o : Order)
    → via untagged x ≡ some (n, untagged o)
    → (l : Order) × (x ≡ some (n, l)) × (untagged l ≡ untagged o)
via-some none n o e = ground arith
via-some (some (m, l)) n o e =
    let same : untagged l ≡ untagged o =
      ap (λ (y : Option (ℕ × Order)). (get_or y (n, untagged o)).1) e in
    let place : m ≡ n = ap (λ (y : Option (ℕ × Order)). (get_or y (n, untagged o)).0) e in
    (l, ap (λ k. some (k, l)) place, same)

-- Whatever the handlers did, the row is there, with the same columns but its cycle.
locate-same :
    (view : Order) (n : ℕ) (x : Order) (os ps : List Order)
    → locate view os ≡ some (n, x)
    → map untagged ps ≡ map untagged os
    → (l : Order) × (locate view ps ≡ some (n, l)) × (untagged l ≡ untagged x)
unfolding locate
locate-same view n x os ps e h =
    let client = nonempty view.client_order_id in
    let broker = nonempty view.broker_order_id in
    via-some (by_ids client broker ps) n x (
      sym (by_ids-map client broker ps)
      ∙ ap (λ qs. by_ids client broker qs) h
      ∙ by_ids-map client broker os
      ∙ ap (λ y. via untagged y) e)

first_of_twice {ℓ} : {A : Type ℓ} (a b : Option A) → first_of a (first_of a b) ≡ first_of a b
first_of_twice none b = refl
first_of_twice (some a) b = refl

settled {ℓ} : {A : Type ℓ} (a b c : Option A) → c ≡ first_of a b → first_of a c ≡ c
settled a b c e = ap (λ o. first_of a o) e ∙ first_of_twice a b ∙ sym e

-- A row that was refreshed is not changed by a second refresh.
refreshed_same :
    (view x l : Order) → untagged l ≡ untagged (refreshed view x) → refreshed view l ≡ l
refreshed_same view x l h =
    let broker =
      settled (nonempty view.broker_order_id) x.broker_order_id l.broker_order_id
        (ap (λ o. o.broker_order_id) h) in
    let status : view.status ≡ l.status = sym (ap (λ o. o.status) h) in
    let price = settled view.fill_price x.fill_price l.fill_price (ap (λ o. o.fill_price) h) in
    let time = settled view.filled_at x.filled_at l.filled_at (ap (λ o. o.filled_at) h) in
    λ i. record l {
      broker_order_id = broker i;
      status = status i;
      fill_price = price i;
      filled_at = time i;
    }

-- A status is either open or calls for nothing more.
no_dispatch :
    (s : OrderStatus) (r : Reconciler) (n : ℕ) (o : Order) (v : BrokerView) (b : Books)
    → (if is_open s then dispatch_status s r n o v b else b) ≡ b
no_dispatch pending r n o v b = refl
no_dispatch filled r n o v b = refl
no_dispatch partial r n o v b = refl
no_dispatch cancelled r n o v b = refl
no_dispatch rejected r n o v b = refl

locate_self :
    (view : Order) (f : Order → Order) (n : ℕ) (x : Order) (os : List Order)
    → locate view os ≡ some (n, x)
    → f x ≡ x
    → update_row n f os ≡ os
unfolding locate
locate_self view f n x os e h =
    or_row_self (nonempty view.client_order_id) (nonempty view.broker_order_id) f n x os _ refl e h

-- The second look at a row that has the broker's columns.
second_look :
    (r : Reconciler) (v : BrokerView) (n : ℕ) (l : Order) (b : Books)
    → locate v.order b.orders ≡ some (n, l)
    → refreshed v.order l ≡ l
    → process_located r v (locate v.order b.orders) b ≡ b
unfolding dispatch_order_transition
second_look r v n l b e h =
    ap (λ x. process_located r v x b) e
    ∙ ap (λ os. dispatch_order_transition r n l v (record b { orders = os }))
        (locate_self v.order (refreshed v.order) n l b.orders e h)
    ∙ ap (λ s. if is_open s then dispatch_status v.order.status r n l v b else b)
        (sym (ap (λ o. o.status) h))
    ∙ no_dispatch v.order.status r n l v b

located_twice :
    (t : ℕ) (r : Reconciler) (v : BrokerView) (x : Option (ℕ × Order)) (b : Books)
    → locate v.order b.orders ≡ x
    → let c = process_located r v x b in
      process_located (at_time t r) v (locate v.order c.orders) c ≡ c
located_twice t r v none b e = unknown_twice t r v b e
located_twice t r v (some (n, x)) b e =
    let b0 = update_order n (refreshed v.order) b in
    let c = dispatch_order_transition r n x v b0 in
    let kept : HasOrders (map untagged b0.orders) c =
      dispatch-kept (HasOrders-IsKept (map untagged b0.orders)) r n x v b0 refl in
    let (l, there, same) =
      locate-same v.order n (refreshed v.order x) b0.orders c.orders
        (locate-refreshed v.order n x b.orders e) kept in
    second_look (at_time t r) v n l c there (refreshed_same v.order x l same)

-- An order is processed once: when the broker shows it again as it showed it before, at any later
-- time with nothing in between, the books stay as the first look left them. No fill opens a second
-- cycle, no cancellation restores a state twice, and an order that no row stands for is flagged
-- once.
pub process_order-process_order :
    (t : ℕ) (r : Reconciler) (v : BrokerView) (b : Books)
    → process_order (at_time t r) v (process_order r v b) ≡ process_order r v b
unfolding process_order
process_order-process_order t r v b =
    elim (Bool-cases (is_none v.order.client_order_id && is_none v.order.broker_order_id)) [
      | inl nameless ↦ rw nameless refl
      | inr named ↦ rw named (located_twice t r v (locate v.order b.orders) b refl)
    ]
