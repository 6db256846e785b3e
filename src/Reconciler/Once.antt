-- ===== src/Reconciler/Once.antt =====
-- execution/reconciler.py, _process_orders: an order that the broker shows again.
use wheelbot.Reconciler.Defs.{Books}
use wheelbot.Common.{
  Bool, List, Option, String, [], ap, arith, map, none, refl, some, suc, true, zero, ℕ, ◌∙◌, ◌∷◌,
  ◌≡◌,
}
use wheelbot.Reconciler.Kept.{IsKept}
use wheelbot.Models.{Order}
use wheelbot.Reconciler.States.{enter, move}
use wheelbot.Store.Rows.{find_row, update_row}
use wheelbot.Store.Numbers.{
  find_row-holds, find_row-map, find_row-update, find_row-update_none, update_row_self, via,
}
use wheelbot.Reconciler.{has_broker_id, or_row, row_of}
use wheelbot.Store.Orders.{has_client}

-- An order without its cycle, the only column of an order that a handler writes.
abbrev pub untagged : Order → Order
untagged o = record o { cycle_id = none }

abbrev pub HasOrders : List Order → Books → Type 0
HasOrders os b = map untagged b.orders ≡ os

untagged-update :
    (n c : ℕ) (os : List Order)
    → map untagged (update_row n (λ o. record o { cycle_id = some c }) os) ≡ map untagged os
unfolding update_row
untagged-update n c [] = refl
untagged-update zero c (o ∷ os) = refl
untagged-update (suc n) c (o ∷ os) = ap (λ ps. untagged o ∷ ps) (untagged-update n c os)

pub HasOrders-IsKept : (os : List Order) → IsKept (HasOrders os)
unfolding move enter
HasOrders-IsKept os = record {
  counts = λ s b h. h;
  notifies = λ n b h. h;
  tags = λ n c b h. untagged-update n c b.orders ∙ h;
  cycles = λ cs b h. h;
  clears = λ n b h. h;
  moves = λ now n p to reason c b h. h;
  enters = λ p reason b h. h;
}

-- The two lookups of an order, over the ids that are texts.
abbrev pub by_ids : (client broker : Option String) → List Order → Option (ℕ × Order)
by_ids client broker os = or_row (row_of has_client client os) (row_of has_broker_id broker os)

row_of-map :
    (has : String → Order → Bool) (k : Option String) (os : List Order)
    → ((c : String) (o : Order) → has c (untagged o) ≡ has c o)
    → row_of has k (map untagged os) ≡ via untagged (row_of has k os)
row_of-map has none os h = refl
row_of-map has (some c) os h = find_row-map untagged (has c) (has c) os (h c)

or_row-via :
    (x y : Option (ℕ × Order))
    → or_row (via untagged x) (via untagged y) ≡ via untagged (or_row x y)
or_row-via none y = refl
or_row-via (some (n, o)) y = refl

pub by_ids-map :
    (client broker : Option String) (os : List Order)
    → by_ids client broker (map untagged os) ≡ via untagged (by_ids client broker os)
by_ids-map client broker os =
    ap (λ x. or_row x (row_of has_broker_id broker (map untagged os)))
      (row_of-map has_client client os (λ c o. refl))
    ∙ ap (λ y. or_row (via untagged (row_of has_client client os)) y)
        (row_of-map has_broker_id broker os (λ c o. refl))
    ∙ or_row-via (row_of has_client client os) (row_of has_broker_id broker os)

-- A change of the row that is found, which leaves the client's id and has the broker's.
module _ (f : Order → Order) (broker : Option String)
    (client_same : (c : String) (o : Order) → has_client c (f o) ≡ has_client c o)
    (broker_set : (c : String) (o : Order) → broker ≡ some c → has_broker_id c (f o) ≡ true) where
  by_broker-update :
      (k : Option String) (n : ℕ) (x : Order) (os : List Order)
      → broker ≡ k
      → row_of has_broker_id k os ≡ some (n, x)
      → row_of has_broker_id k (update_row n f os) ≡ some (n, f x)
  by_broker-update none n x os b e = ground arith
  by_broker-update (some c) n x os b e =
      find_row-update (has_broker_id c) f n x os e (broker_set c x b)

  found-update :
      (c : String) (w : Option (ℕ × Order)) (n : ℕ) (x : Order) (os : List Order)
      → find_row (has_client c) os ≡ w
      → or_row w (row_of has_broker_id broker os) ≡ some (n, x)
      → or_row
          (find_row (has_client c) (update_row n f os))
          (row_of has_broker_id broker (update_row n f os))
        ≡ some (n, f x)
  found-update c none n x os e h =
      ap (λ z. or_row z (row_of has_broker_id broker (update_row n f os)))
        (find_row-update_none (has_client c) f n os (client_same c) e)
      ∙ by_broker-update broker n x os refl h
  found-update c (some y) n x os e h =
      ap (λ z. or_row z (row_of has_broker_id broker (update_row n f os)))
        (find_row-update (has_client c) f n x os (e ∙ h)
          (client_same c x ∙ find_row-holds (has_client c) n x os (e ∙ h)))

  pub by_ids-update :
      (client : Option String) (n : ℕ) (x : Order) (os : List Order)
      → by_ids client broker os ≡ some (n, x)
      → by_ids client broker (update_row n f os) ≡ some (n, f x)
  by_ids-update none n x os e = by_broker-update broker n x os refl e
  by_ids-update (some c) n x os e = found-update c (find_row (has_client c) os) n x os refl e

-- A change that leaves the row that is found as it is.
row_of_self :
    (has : String → Order → Bool) (k : Option String) (f : Order → Order) (n : ℕ) (x : Order)
    (os : List Order)
    → row_of has k os ≡ some (n, x)
    → f x ≡ x
    → update_row n f os ≡ os
row_of_self has none f n x os e h = ground arith
row_of_self has (some c) f n x os e h = update_row_self (has c) f n x os e h

pub or_row_self :
    (client broker : Option String) (f : Order → Order) (n : ℕ) (x : Order) (os : List Order)
    (w : Option (ℕ × Order))
    → row_of has_client client os ≡ w
    → or_row w (row_of has_broker_id broker os) ≡ some (n, x)
    → f x ≡ x
    → update_row n f os ≡ os
or_row_self client broker f n x os none e h k = row_of_self has_broker_id broker f n x os h k
or_row_self client broker f n x os (some y) e h k = row_of_self has_client client f n x os (e ∙ h) k
