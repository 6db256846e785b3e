-- ===== src/PaperBroker/Wheel.antt =====
-- platforms/paper_broker.py: a whole turn of the wheel, from the placing of its orders on.
use wheelbot.Models.{Order, OptionType, Symbol, call, put}
use wheelbot.PaperBroker.{Paper, after, is_open, place_order, returned, prior, stored}
use wheelbot.Common.{List, ℕ, String, false, none, some, true, ◌≡◌, ap, refl, sym, ◌∙◌, arith}
use wheelbot.PaperBroker.Fills.{apply_fill, assign, lot, fill_order, filled_at_price}
use wheelbot.Common.Dict.{get, set_item, get-set_item}
use wheelbot.Common.Int.{leb_ℤ, pos, ℤ, ◌*ℤ◌, ◌+ℤ◌, ◌-ℤ◌, ltb_ℤ}
use wheelbot.PaperBroker.Turns.{
  IsShort, bought, fill_and_assign, fill_and_assign-turn, lot_live, put_half, sold,
}

-- An order is placed under an id that the broker draws, filled at a price, and its contract is
-- assigned.
abbrev pub sell_and_assign :
    (id : String) → Order → (contract : String) → (price : ℤ) (now : ℕ) → Paper → Paper
sell_and_assign id o c p now b =
    let placed = after (place_order id o b) b in
    let sold_at = after (fill_order id (some p) now placed) placed in
    after (assign c sold_at) sold_at

-- The broker's orders after the sale: the new order, filled.
abbrev pub sold_orders :
    (id : String) → Order → (price : ℤ) (now : ℕ) → List (String × Order) → List (String × Order)
sold_orders id o p now os =
    set_item id (filled_at_price (stored id o) p now) (set_item id (stored id o) os)

place_order-stored :
    (id : String) (o : Order) (b : Paper)
    → b.unavailable ≡ false
    → prior o.client_order_id b.orders ≡ none
    → leb_ℤ o.quantity (pos 0) ≡ false
    → place_order id o b
      ≡ returned (record b { orders = set_item id (stored id o) b.orders }) (stored id o)
unfolding place_order
place_order-stored id o b up new more = simp (up, new, more)

fill_order-stored :
    (id : String) (o : Order) (p : ℤ) (now : ℕ) (b : Paper)
    → get id b.orders ≡ some o
    → is_open o.status ≡ true
    → fill_order id (some p) now b
      ≡ returned
          (record (apply_fill o p b) {
            orders = set_item id (filled_at_price o p now) (apply_fill o p b).orders;
          })
          (filled_at_price o p now)
unfolding fill_order
fill_order-stored id o p now b there open_now = simp (there, open_now, fill_order)

stored-IsShort :
    (id : String) (o : Order) (s : Symbol) (c : String) (t : OptionType) (k : ℤ)
    → IsShort o s c t k
    → IsShort (stored id o) s c t k
stored-IsShort id o s c t k h = record {
  sells = h.sells;
  of_symbol = h.of_symbol;
  of_contract = h.of_contract;
  has_name = h.has_name;
  of_type = h.of_type;
  at_strike = h.at_strike;
}

-- A sale that the broker accepts is its fill, with the filled order in the table of orders.
sell_and_assign-filled :
    (id : String) (o : Order) (s : Symbol) (c : String) (t : OptionType) (k p : ℤ) (now : ℕ)
    (b : Paper)
    → IsShort o s c t k
    → b.unavailable ≡ false
    → prior o.client_order_id b.orders ≡ none
    → leb_ℤ o.quantity (pos 0) ≡ false
    → sell_and_assign id o c p now b
      ≡ fill_and_assign (stored id o) c p (record b { orders = sold_orders id o p now b.orders })
sell_and_assign-filled id o s c t k p now b h up new more =
    let placed : Paper = record b { orders = set_item id (stored id o) b.orders } in
    let short = stored-IsShort id o s c t k h in
    ap
      (λ r.
        let x = after r b in let y = after (fill_order id (some p) now x) x in after (assign c y) y)
      (place_order-stored id o b up new more)
    ∙ ap (λ y. after (assign c y) y)
        (ap (λ r. after r placed)
            (fill_order-stored id (stored id o) p now placed
              (get-set_item id (stored id o) b.orders) refl)
          ∙ ap {A = Paper}
              (λ x. record x {
                orders = set_item id (filled_at_price (stored id o) p now) x.orders;
              })
              (sold (stored id o) s c t k p placed short)
          ∙ sym (
              sold (stored id o) s c t k p (record b { orders = sold_orders id o p now b.orders })
                short))

not_short : (q : ℤ) → ltb_ℤ (pos 0) q ≡ true → leb_ℤ q (pos 0) ≡ false
not_short q h = ground arith

-- A whole turn of the wheel: a put is placed, filled and assigned, then a call for the same shares
-- is placed, filled and assigned. The broker is available, no order is stored under either order's
-- client id when it is placed, their common number of contracts is positive, neither contract is
-- open, and no shares of the symbol are held. The turn leaves the broker as it was but for the two filled orders in its table of orders, and for the
-- cash, which gains both premiums and the call's strike and loses the put's strike, on the lot.
pub sell_and_assign-turn :
    (id id' : String) (o o' : Order) (s : Symbol) (c c' : String) (k k' p p' : ℤ) (now now' : ℕ)
    (b : Paper)
    → IsShort o s c put k
    → IsShort o' s c' call k'
    → o'.quantity ≡ o.quantity
    → ltb_ℤ (pos 0) o.quantity ≡ true
    → b.unavailable ≡ false
    → prior o.client_order_id b.orders ≡ none
    → prior o'.client_order_id (sold_orders id o p now b.orders) ≡ none
    → get c b.open_options ≡ none
    → get c' b.open_options ≡ none
    → get s b.stock ≡ none
    → sell_and_assign id' o' c' p' now' (sell_and_assign id o c p now b) ≡ record b {
      cash = (((b.cash +ℤ p *ℤ lot o) -ℤ k *ℤ lot o) +ℤ p' *ℤ lot o) +ℤ k' *ℤ lot o;
      orders = sold_orders id' o' p' now' (sold_orders id o p now b.orders);
    }
sell_and_assign-turn id id' o o' s c c' k k' p p' now now' b h h' same_lot positive up new new'
      no_put no_call empty =
    let first = stored-IsShort id o s c put k h in
    let second = stored-IsShort id' o' s c' call k' h' in
    let with : List (String × Order) → Paper = λ os. record b { orders = os } in
    let os = sold_orders id o p now b.orders in
    let os' = sold_orders id' o' p' now' os in
    let half : (xs : List (String × Order))
        → fill_and_assign (stored id o) c p (with xs) ≡ record (with xs) {
          cash = (b.cash +ℤ p *ℤ lot o) -ℤ k *ℤ lot o;
          stock = set_item s (bought (stored id o) k) b.stock;
        } =
      λ xs.
        put_half (stored id o) s c k p (with xs) first no_put empty
          (lot_live o.quantity positive) in
    ap (sell_and_assign id' o' c' p' now') (
      sell_and_assign-filled id o s c put k p now b h up new (not_short o.quantity positive)
      ∙ half os)
    ∙ sell_and_assign-filled id' o' s c' call k' p' now' _ h' up new'
        (ap (λ q. leb_ℤ q (pos 0)) same_lot ∙ not_short o.quantity positive)
    ∙ ap (fill_and_assign (stored id' o') c' p') (sym (half os'))
    ∙ fill_and_assign-turn (stored id o) (stored id' o') s c c' k k' p p' (with os') first second
        same_lot positive no_put no_call empty
