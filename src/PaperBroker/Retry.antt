-- ===== src/PaperBroker/Retry.antt =====
-- platforms/paper_broker.py: an order that is placed again under its client's id.
use wheelbot.Common.{
  Bool-cases, List, Option, Option-cases, String, [], arith, false, inl, inr, is_none, none, refl,
  some, true, ◌∙◌, ◌∷◌, ◌≡◌, ap, eq_iff, eq_refl, str_eq, sym,
}
use wheelbot.PaperBroker.Steps.{Change, Reach, Step-Change, here, later, unchanged, added, finished}
use wheelbot.Broker.{broker_unavailable, order_rejected}
use wheelbot.Models.{Order}
use wheelbot.PaperBroker.{
  Paper, after, find_client, is_text, place_order, returned, same_text, stored, Result, raised,
}
use wheelbot.Common.Dict.{get, set_item}
use wheelbot.Common.Int.{leb_ℤ, pos}

-- Adding an order under a fresh id keeps what a client's id finds, and adds itself.
found_added :
    (k : String) (n : Order) (c : Option String) (os : List (String × Order))
    → get k os ≡ none
    → is_none (find_client c os) ≡ false
    → is_none (find_client c (set_item k n os)) ≡ false
unfolding find_client get set_item
found_added k n c [] fresh h = ground arith
found_added k n c ((j, a) ∷ os) fresh h = ground (arith, found_added k n c os)

found_new :
    (k : String) (n : Order) (c : Option String) (os : List (String × Order))
    → get k os ≡ none
    → find_client c os ≡ none
    → same_text n.client_order_id c ≡ true
    → find_client c (set_item k n os) ≡ some n
unfolding find_client get set_item
found_new k n c [] fresh h s = rw s refl
found_new k n c ((j, a) ∷ os) fresh h s = ground (arith, found_new k n c os)

found_head :
    (j : String) (c : Option String) (os : List (String × Order)) (n a : Order)
    → n.client_order_id ≡ a.client_order_id
    → is_none (find_client c ((j, n) ∷ os)) ≡ is_none (find_client c ((j, a) ∷ os))
unfolding find_client
found_head j c os n a kept =
    let agree : same_text n.client_order_id c ≡ same_text a.client_order_id c =
      ap (λ x. same_text x c) kept in
    elim (Bool-cases (same_text a.client_order_id c)) [
      | inl e ↦ simp (agree ∙ e, e)
      | inr e ↦ simp (agree ∙ e, e)
    ]

found_kept :
    (k : String) (o n : Order) (c : Option String) (os : List (String × Order))
    → get k os ≡ some o
    → n.client_order_id ≡ o.client_order_id
    → is_none (find_client c (set_item k n os)) ≡ is_none (find_client c os)
unfolding find_client get set_item
found_kept k o n c [] g kept = ground arith
found_kept k o n c ((j, a) ∷ os) g kept = elim (Bool-cases (str_eq j k)) [
  | inl e ↦
      let held : a ≡ o = ground (arith, eq_iff j k) in
      rw e (found_head j c os n a (kept ∙ ap (λ x. x.client_order_id) (sym held)))
  | inr e ↦ ground (arith, eq_iff j k, found_kept k o n c os)
]

same_text_refl : (x : Option String) → is_text x ≡ true → same_text x x ≡ true
same_text_refl none t = ground arith
same_text_refl (some a) t = ground (arith, eq_refl a)

Change-found :
    (os os' : List (String × Order)) (c : Option String)
    → Change os os'
    → is_none (find_client c os) ≡ false
    → is_none (find_client c os') ≡ false
Change-found os os' c unchanged h = h
Change-found os os' c (added k n fresh new) h = found_added k n c os fresh h
Change-found os os' c (finished k o n g started kept ended) h = found_kept k o n c os g kept ∙ h

Reach-found :
    (b d : Paper) (c : Option String)
    → Reach b d
    → is_none (find_client c b.orders) ≡ false
    → is_none (find_client c d.orders) ≡ false
Reach-found b d c here h = h
Reach-found b d c (later e _ r s) h =
    Change-found e.orders d.orders c (Step-Change e d s) (Reach-found b e c r h)

-- The four ways in which a call that carries a client's id ends.
module _ (id : String) (o : Order) (b : Paper) where
  place-down : b.unavailable ≡ true → place_order id o b ≡ raised broker_unavailable
  unfolding place_order
  place-down e = simp e

  place-prior :
      (r : Order)
      → b.unavailable ≡ false
      → is_text o.client_order_id ≡ true
      → find_client o.client_order_id b.orders ≡ some r
      → place_order id o b ≡ returned b r
  unfolding place_order
  place-prior r e t q = simp (e, t, q)

  place-rejected :
      b.unavailable ≡ false
      → is_text o.client_order_id ≡ true
      → find_client o.client_order_id b.orders ≡ none
      → leb_ℤ o.quantity (pos 0) ≡ true
      → place_order id o b ≡ raised order_rejected
  unfolding place_order
  place-rejected e t q z = simp (e, t, q, z)

  place-stored :
      b.unavailable ≡ false
      → is_text o.client_order_id ≡ true
      → find_client o.client_order_id b.orders ≡ none
      → leb_ℤ o.quantity (pos 0) ≡ false
      → place_order id o b
        ≡ returned (record b { orders = set_item id (stored id o) b.orders }) (stored id o)
  unfolding place_order
  place-stored e t q z = simp (e, t, q, z)

-- Once a client's id is on an order, an order placed under it changes nothing, whatever operations
-- lie between, and whatever else the new order asks for.
pub Reach-place_order :
    (b d : Paper) (id : String) (o : Order)
    → Reach b d
    → is_text o.client_order_id ≡ true
    → is_none (find_client o.client_order_id b.orders) ≡ false
    → after (place_order id o d) d ≡ d
Reach-place_order b d id o r t h = elim (Bool-cases d.unavailable) [
  | inl e ↦ ap (λ x. after x d) (place-down id o d e)
  | inr e ↦ elim (Option-cases (find_client o.client_order_id d.orders)) [
    | inl q ↦ ground (arith, Reach-found b d o.client_order_id r h)
    | inr (p, q) ↦ ap (λ x. after x d) (place-prior id o d p e t q)
  ]
]

-- A call that is made again, from the state that the first one left.
again :
    (id id' : String) (o : Order) (b : Paper) (x : Result Order)
    → place_order id o b ≡ x
    → place_order id' o (after x b) ≡ x
    → place_order id' o (after (place_order id o b) b) ≡ place_order id o b
again id id' o b x e f = ap (λ y. place_order id' o (after y b)) e ∙ f ∙ sym e

-- A call that carries a client's id, made again at once, has the outcome of the first: the unchanged
-- order or the unchanged exception, and the unchanged state of the broker.
place_order-place_order :
    (id id' : String) (o : Order) (b : Paper)
    → get id b.orders ≡ none
    → is_text o.client_order_id ≡ true
    → place_order id' o (after (place_order id o b) b) ≡ place_order id o b
place_order-place_order id id' o b fresh t = elim (Bool-cases b.unavailable) [
  | inl e ↦ again id id' o b _ (place-down id o b e) (place-down id' o b e)
  | inr e ↦ elim (Option-cases (find_client o.client_order_id b.orders)) [
    | inr (r, q) ↦ again id id' o b _ (place-prior id o b r e t q) (place-prior id' o b r e t q)
    | inl q ↦ elim (Bool-cases (leb_ℤ o.quantity (pos 0))) [
      | inl z ↦ again id id' o b _ (place-rejected id o b e t q z) (place-rejected id' o b e t q z)
      | inr z ↦ again id id' o b _ (place-stored id o b e t q z) (
          place-prior id' o _ (stored id o) e t
            (found_new id (stored id o) _ b.orders fresh q (same_text_refl o.client_order_id t)))
    ]
  ]
]
