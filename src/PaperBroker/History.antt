-- ===== src/PaperBroker/History.antt =====
-- platforms/paper_broker.py: what stays true of the orders over any number of operations.
use wheelbot.PaperBroker.Steps.{Change, Reach, Step-Change, here, later, unchanged, added, finished}
use wheelbot.Common.{
  List, String, [], arith, eq_iff, false, none, some, str_eq, true, ◌∙◌, ◌∷◌, ◌≡◌, ◌≢◌, Bool-cases,
  Option, ap, inl, inr, refl, sym, ◌⊎◌,
}
use wheelbot.Models.{Order}
use wheelbot.PaperBroker.{Paper, find_client, is_open, is_text, prior, same_text}
use wheelbot.Common.Dict.{get, get-set_item_other, get-set_item, set_item}

distinct :
    (k l : String) (os : List (String × Order)) (o : Order)
    → get k os ≡ none
    → get l os ≡ some o
    → str_eq k l ≡ false
distinct k l os o h j = ground (arith, eq_iff k l)

-- A final order stays as it is.
Change-final :
    (os os' : List (String × Order)) (id : String) (o : Order)
    → Change os os'
    → get id os ≡ some o
    → is_open o.status ≡ false
    → get id os' ≡ some o
Change-final os os' id o unchanged h z = h
Change-final os os' id o (added k n fresh new) h z =
    get-set_item_other k id n os (distinct k id os o fresh h) ∙ h
Change-final os os' id o (finished k a a' g started kept ended) h z =
    elim (Bool-cases (str_eq k id)) [
      | inl e ↦ ground (arith, eq_iff k id)
      | inr e ↦ get-set_item_other k id a' os e ∙ h
    ]

-- An order that has been filled, cancelled or rejected is never changed again, price and time
-- included, whatever operations follow.
pub Reach-final :
    (b c : Paper) (id : String) (o : Order)
    → Reach b c
    → get id b.orders ≡ some o
    → is_open o.status ≡ false
    → get id c.orders ≡ some o
Reach-final b c id o here h z = h
Reach-final b c id o (later d _ r s) h z =
    Change-final d.orders c.orders id o (Step-Change d c s) (Reach-final b d id o r h z) z

-- No two orders carry one client's id.
IsUnique : List (String × Order) → Type 0
IsUnique os =
    (i j c : String) (a b : Order)
    → get i os ≡ some a
    → get j os ≡ some b
    → a.client_order_id ≡ some c
    → b.client_order_id ≡ some c
    → is_text (some c) ≡ true
    → i ≡ j

same_text-some : (x : Option String) (c : String) → x ≡ some c → same_text x (some c) ≡ true
same_text-some none c e = ground arith
same_text-some (some a) c e = ground (arith, eq_iff a c)

-- A client's id that finds no order is on none.
find_client-none :
    (i c : String) (os : List (String × Order)) (o : Order)
    → find_client (some c) os ≡ none
    → get i os ≡ some o
    → o.client_order_id ≢ some c
unfolding find_client get
find_client-none i c [] o h g e = ground arith
find_client-none i c ((k, a) ∷ os) o h g e =
    ground (arith, eq_iff k i, same_text-some a.client_order_id c, find_client-none i c os o)

prior-none :
    (i c : String) (os : List (String × Order)) (o : Order) (given : Option String)
    → prior given os ≡ none
    → given ≡ some c
    → is_text (some c) ≡ true
    → get i os ≡ some o
    → o.client_order_id ≢ some c
prior-none i c os o given h e t g =
    let found : find_client (some c) os ≡ none = (sym (rw (e, t) refl) ∙ h) in
    find_client-none i c os o found g

-- An order under a key, after one order has been set, is that order or was there.
either :
    (k i : String) (n a : Order) (os : List (String × Order))
    → get i (set_item k n os) ≡ some a
    → ((k ≡ i) × (n ≡ a)) ⊎ (get i os ≡ some a)
either k i n a os h = elim (Bool-cases (str_eq k i)) [
  | inl e ↦ inl (ground (arith, eq_iff k i), ground (arith, eq_iff k i, get-set_item k n os))
  | inr e ↦ inr (sym (get-set_item_other k i n os e) ∙ h)
]

added-IsUnique :
    (os : List (String × Order)) (k : String) (n : Order)
    → prior n.client_order_id os ≡ none
    → IsUnique os
    → IsUnique (set_item k n os)
unfolding IsUnique
added-IsUnique os k n new u i j c a b gi gj ca cb t = elim (either k i n a os gi) [
  | inl (ki, na) ↦ elim (either k j n b os gj) [
    | inl (kj, nb) ↦ sym ki ∙ kj
    | inr old ↦ absurd (prior-none j c os b n.client_order_id new (rw na ca) t old cb)
  ]
  | inr old ↦ elim (either k j n b os gj) [
    | inl (kj, nb) ↦ absurd (prior-none i c os a n.client_order_id new (rw nb cb) t old ca)
    | inr old' ↦ u i j c a b old old' ca cb t
  ]
]

-- Every order was there before, with the unchanged client's id.
was_there :
    (k i : String) (o n a : Order) (os : List (String × Order))
    → get k os ≡ some o
    → n.client_order_id ≡ o.client_order_id
    → get i (set_item k n os) ≡ some a
    → (a0 : Order) × (get i os ≡ some a0) × (a.client_order_id ≡ a0.client_order_id)
was_there k i o n a os g kept h = elim (either k i n a os h) [
  | inl (ki, na) ↦ (o, ap (λ x. get x os) (sym ki) ∙ g, ap (λ x. x.client_order_id) (sym na) ∙ kept)
  | inr old ↦ (a, old, refl)
]

finished-IsUnique :
    (os : List (String × Order)) (k : String) (o n : Order)
    → get k os ≡ some o
    → n.client_order_id ≡ o.client_order_id
    → IsUnique os
    → IsUnique (set_item k n os)
unfolding IsUnique
finished-IsUnique os k o n g kept u i j c a b gi gj ca cb t =
    let (a0, oi, ea) = was_there k i o n a os g kept gi in
    let (b0, oj, eb) = was_there k j o n b os g kept gj in
    u i j c a0 b0 oi oj (sym ea ∙ ca) (sym eb ∙ cb) t

Change-IsUnique : (os os' : List (String × Order)) → Change os os' → IsUnique os → IsUnique os'
Change-IsUnique os os' unchanged u = u
Change-IsUnique os os' (added k n fresh new) u = added-IsUnique os k n new u
Change-IsUnique os os' (finished k o n g started kept ended) u = finished-IsUnique os k o n g kept u

Reach-IsUnique : (b c : Paper) → Reach b c → IsUnique b.orders → IsUnique c.orders
Reach-IsUnique b c here u = u
Reach-IsUnique b c (later d _ r s) u =
    Change-IsUnique d.orders c.orders (Step-Change d c s) (Reach-IsUnique b d r u)

-- From a broker without orders, no operations lead to two orders, under different ids, that carry
-- one client's id.
pub Reach-client_order_id :
    (b d : Paper) (i j c : String) (x y : Order)
    → b.orders ≡ []
    → Reach b d
    → get i d.orders ≡ some x
    → get j d.orders ≡ some y
    → x.client_order_id ≡ some c
    → y.client_order_id ≡ some c
    → is_text (some c) ≡ true
    → i ≡ j
unfolding IsUnique get
Reach-client_order_id b d i j c x y empty r =
    Reach-IsUnique b d r (rw empty (λ i j c a b gi. ground arith)) i j c x y
