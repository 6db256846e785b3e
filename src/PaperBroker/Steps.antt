-- ===== src/PaperBroker/Steps.antt =====
-- platforms/paper_broker.py: the broker's states that its operations lead to.
use wheelbot.Common.{
  List, Option, String, [], arith, false, none, refl, some, true, ℕ, ◌∷◌, ◌≡◌, Bool-cases,
  Option-cases, inl, inr, ◌∙◌, length, ◌==◌, Bool,
}
use wheelbot.Broker.{Package}
use wheelbot.PaperBroker.{
  Paper, cancel_order, is_open, place_multi_leg_order, place_order, prior, after, package_order,
  stored, seed_chain, seed_quote, set_unavailable,
}
use wheelbot.Models.{
  Order, OrderLeg, Symbol, OrderType, buy_to_close, buy_to_open, multi_leg_close, multi_leg_open,
  sell_to_close, sell_to_open, cancelled, OptionContract, Quote,
}
use wheelbot.PaperBroker.Fills.{
  add_shares, apply_fill, apply_legs, assign, expire, fill_multi_leg, fill_order, remove_shares,
  apply_leg, contract_of, deliver, is_put_order, leg_id, lot, on_option, on_stock, synthetic,
  filled_at_price, is_package,
}
use wheelbot.Common.Dict.{get, set_item}
use wheelbot.Common.Int.{ℤ, leb_ℤ, pos}

-- One operation. A new order's id is drawn fresh.
pub data Step (b : Paper) : Paper → Type 0 where
  step_place :
      (id : String) (o : Order) → get id b.orders ≡ none → Step b (after (place_order id o b) b)
  step_package :
      (id : String) (now : ℕ) (g : Package)
      → get id b.orders ≡ none
      → Step b (after (place_multi_leg_order id now g b) b)
  step_cancel : (id : String) → Step b (after (cancel_order id b) b)
  step_fill :
      (id : String) (price : Option ℤ) (now : ℕ) → Step b (after (fill_order id price now b) b)
  step_fill_package :
      (id : String) (price : Option ℤ) (now : ℕ) → Step b (after (fill_multi_leg id price now b) b)
  step_assign : (occ : String) → Step b (after (assign occ b) b)
  step_expire : (occ : String) → Step b (expire occ b)
  step_quote : (symbol : Symbol) (q : Quote) → Step b (seed_quote symbol q b)
  step_chain :
      (underlying : Symbol) (cs : List OptionContract) → Step b (seed_chain underlying cs b)
  step_unavailable : (value : Bool) → Step b (set_unavailable value b)

-- Any number of operations.
pub data Reach (b : Paper) : Paper → Type 0 where
  here : Reach b b
  later : (c d : Paper) → Reach b c → Step c d → Reach b d

-- What an operation does to the orders: it leaves them, adds one under a fresh id, or takes an
-- open one to a status that is final.
pub data Change (os : List (String × Order)) : List (String × Order) → Type 0 where
  unchanged : Change os os
  added :
      (id : String) (o : Order)
      → get id os ≡ none
      → prior o.client_order_id os ≡ none
      → Change os (set_item id o os)
  finished :
      (id : String) (o o' : Order)
      → get id os ≡ some o
      → is_open o.status ≡ true
      → o'.client_order_id ≡ o.client_order_id
      → is_open o'.status ≡ false
      → Change os (set_item id o' os)

-- Shares, cash and open options move without the orders.
add_shares-orders : (s : Symbol) (n p : ℤ) (b : Paper) → (add_shares s n p b).orders ≡ b.orders
unfolding add_shares
add_shares-orders s n p b = ground arith

remove_shares-orders : (s : Symbol) (n : ℤ) (b : Paper) → (remove_shares s n b).orders ≡ b.orders
unfolding remove_shares
remove_shares-orders s n b = ground arith

on_option-orders :
    (t : OrderType) (o : Order) (c : String) (p : ℤ) (b : Paper)
    → (on_option t o c p b).orders ≡ b.orders
on_option-orders t o c p b = ground arith

on_stock-orders :
    (t : OrderType) (o : Order) (p : ℤ) (b : Paper) → (on_stock t o p b).orders ≡ b.orders
on_stock-orders buy_to_open o p b = add_shares-orders o.symbol o.quantity p _
on_stock-orders sell_to_close o p b = remove_shares-orders o.symbol o.quantity _
on_stock-orders sell_to_open o p b = refl
on_stock-orders buy_to_close o p b = refl
on_stock-orders multi_leg_open o p b = refl
on_stock-orders multi_leg_close o p b = refl

apply_fill-orders : (o : Order) (p : ℤ) (b : Paper) → (apply_fill o p b).orders ≡ b.orders
unfolding apply_fill
apply_fill-orders o p b = elim (Option-cases (contract_of o)) [
  | inl e ↦ rw (e, apply_fill) (on_stock-orders o.order_type o p b)
  | inr (c, e) ↦ rw (e, apply_fill) (on_option-orders o.order_type o c p b)
]

apply_leg-orders :
    (t : OrderType) (c : String) (s : Order) (b : Paper) → (apply_leg t c s b).orders ≡ b.orders
apply_leg-orders t c s b = ground arith

apply_legs-orders :
    (id : String) (o : Order) (now : ℕ) (ls : List OrderLeg) (b : Paper)
    → (apply_legs id o now ls b).orders ≡ b.orders
unfolding apply_legs
apply_legs-orders id o now [] b = refl
apply_legs-orders id o now (l ∷ ls) b =
    apply_legs-orders id o now ls _
    ∙ apply_leg-orders l.action l.contract_symbol (synthetic (leg_id id l) o l now) b

deliver-orders : (o : Order) (k : ℤ) (b : Paper) → (deliver o k b).orders ≡ b.orders
deliver-orders o k b = elim (Bool-cases (is_put_order o)) [
  | inl e ↦ rw e (add_shares-orders o.symbol (lot o) k _)
  | inr e ↦ rw e (remove_shares-orders o.symbol (lot o) _)
]

place-Change :
    (id : String) (o : Order) (b : Paper)
    → get id b.orders ≡ none
    → Change b.orders (after (place_order id o b) b).orders
unfolding place_order
place-Change id o b fresh = elim (Bool-cases b.unavailable) [
  | inl e ↦ rw e unchanged
  | inr e ↦ elim (Option-cases (prior o.client_order_id b.orders)) [
    | inr (r, q) ↦ rw (e, q) unchanged
    | inl q ↦ elim (Bool-cases (leb_ℤ o.quantity (pos 0))) [
      | inl z ↦ rw (e, q, z) unchanged
      | inr z ↦ rw (e, q, z) (added id (stored id o) fresh q)
    ]
  ]
]

package-Change :
    (id : String) (now : ℕ) (g : Package) (b : Paper)
    → get id b.orders ≡ none
    → Change b.orders (after (place_multi_leg_order id now g b) b).orders
unfolding place_multi_leg_order
package-Change id now g b fresh = elim (Bool-cases b.unavailable) [
  | inl e ↦ rw e unchanged
  | inr e ↦ elim (Bool-cases (length g.legs == 0)) [
    | inl l ↦ rw (e, l) unchanged
    | inr l ↦ elim (Bool-cases (leb_ℤ g.quantity (pos 0))) [
      | inl z ↦ rw (e, l, z) unchanged
      | inr z ↦ elim (Option-cases (prior g.client_order_id b.orders)) [
        | inl q ↦ rw (e, l, z, q) (added id (package_order id now g) fresh q)
        | inr (r, q) ↦ rw (e, l, z, q) unchanged
      ]
    ]
  ]
]

cancel-Change : (id : String) (b : Paper) → Change b.orders (after (cancel_order id b) b).orders
unfolding cancel_order
cancel-Change id b = elim (Bool-cases b.unavailable) [
  | inl e ↦ rw e unchanged
  | inr e ↦ elim (Option-cases (get id b.orders)) [
    | inl q ↦ rw (e, q) unchanged
    | inr (o, q) ↦ elim (Bool-cases (is_open o.status)) [
      | inr z ↦ rw (e, q, z) unchanged
      | inl z ↦ rw (e, q, z) (finished id o (record o { status = cancelled }) q z refl refl)
    ]
  ]
]

-- A filled order takes the place of the open one.
fill-Change :
    (id : String) (o : Order) (p : ℤ) (now : ℕ) (b : Paper) (os : List (String × Order))
    → os ≡ b.orders
    → get id b.orders ≡ some o
    → is_open o.status ≡ true
    → Change b.orders (set_item id (filled_at_price o p now) os)
fill-Change id o p now b os e q z = rw e (finished id o (filled_at_price o p now) q z refl refl)

fill_order-Change :
    (id : String) (price : Option ℤ) (now : ℕ) (b : Paper)
    → Change b.orders (after (fill_order id price now b) b).orders
unfolding fill_order
fill_order-Change id price now b = elim (Option-cases (get id b.orders)) [
  | inl q ↦ rw (q, fill_order) unchanged
  | inr (o, q) ↦ elim (Bool-cases (is_open o.status)) [
    | inr z ↦ rw (q, z, fill_order) unchanged
    | inl z ↦ rw (q, z, fill_order) (fill-Change id o _ now b _ (apply_fill-orders o _ b) q z)
  ]
]

fill_multi_leg-Change :
    (id : String) (price : Option ℤ) (now : ℕ) (b : Paper)
    → Change b.orders (after (fill_multi_leg id price now b) b).orders
unfolding fill_multi_leg
fill_multi_leg-Change id price now b = elim (Option-cases (get id b.orders)) [
  | inl q ↦ rw (q, fill_multi_leg) unchanged
  | inr (o, q) ↦ elim (Bool-cases (is_package o.order_type)) [
    | inr k ↦ rw (q, k, fill_multi_leg) unchanged
    | inl k ↦ elim (Bool-cases (is_open o.status)) [
      | inr z ↦ rw (q, k, z, fill_multi_leg) unchanged
      | inl z ↦
          rw (q, k, z, fill_multi_leg)
            (fill-Change id o _ now b _ (apply_legs-orders id o now o.legs _) q z)
    ]
  ]
]

assign-Change : (occ : String) (b : Paper) → Change b.orders (after (assign occ b) b).orders
unfolding assign
assign-Change occ b = elim (Option-cases (get occ b.open_options)) [
  | inl q ↦ rw (q, assign) unchanged
  | inr (o, q) ↦ elim (Option-cases o.strike) [
    | inl z ↦ rw (q, z, assign) unchanged
    | inr (k, z) ↦ rw (q, z, deliver-orders o k b, assign) unchanged
  ]
]

-- Every operation is one of the three changes.
pub Step-Change : (b c : Paper) → Step b c → Change b.orders c.orders
unfolding expire seed_quote seed_chain set_unavailable
Step-Change b c (step_place id o fresh) = place-Change id o b fresh
Step-Change b c (step_package id now g fresh) = package-Change id now g b fresh
Step-Change b c (step_cancel id) = cancel-Change id b
Step-Change b c (step_fill id price now) = fill_order-Change id price now b
Step-Change b c (step_fill_package id price now) = fill_multi_leg-Change id price now b
Step-Change b c (step_assign occ) = assign-Change occ b
Step-Change b c (step_expire occ) = unchanged
Step-Change b c (step_quote symbol q) = unchanged
Step-Change b c (step_chain underlying cs) = unchanged
Step-Change b c (step_unavailable value) = unchanged
