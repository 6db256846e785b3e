-- ===== src/PaperBroker/Cancel.antt =====
-- platforms/paper_broker.py, cancel_order: which orders a cancellation closes.
use wheelbot.Common.{
  Bool, Bool-cases, List, Option, Option-cases, String, ap, arith, eq_iff, false, inl, inr, none,
  not, some, str_eq, ◌&&◌, ◌∙◌, ◌≡◌, sym, true,
}
use wheelbot.Models.{Order, cancelled}
use wheelbot.PaperBroker.{Paper, after, cancel_order, is_open}
use wheelbot.Common.Dict.{get, get-set_item_other, set_item, get-set_item}

abbrev live_order : Option Order → Bool
live_order none = false
live_order (some o) = is_open o.status

-- Whether the broker's order of the id is pending or partly filled.
abbrev pub is_live : (id : String) → List (String × Order) → Bool
is_live id os = live_order (get id os)

pub and_true : (b : Bool) → (b && true) ≡ b
and_true b = ground arith

and_false : (b : Bool) → (b && false) ≡ false
and_false b = ground arith

live-cancelled :
    (id k : String) (o : Order) (os : List (String × Order))
    → is_live k (set_item id (record o { status = cancelled }) os)
      ≡ (is_live k os && not (str_eq id k))
live-cancelled id k o os =
    let o' : Order = record o { status = cancelled } in
    elim (Bool-cases (str_eq id k)) [
      | inl e ↦
          let same : id ≡ k = ground (arith, eq_iff id k) in
          ap live_order (ap (λ j. get j (set_item id o' os)) (sym same) ∙ get-set_item id o' os)
          ∙ sym (ap (λ b. is_live k os && not b) e ∙ and_false (is_live k os))
      | inr e ↦
          ap live_order (get-set_item_other id k o' os e)
          ∙ sym (ap (λ b. is_live k os && not b) e ∙ and_true (is_live k os))
    ]

live-closed :
    (id k : String) (os : List (String × Order))
    → is_live id os ≡ false
    → is_live k os ≡ (is_live k os && not (str_eq id k))
live-closed id k os h = elim (Bool-cases (str_eq id k)) [
  | inl e ↦ ground (arith, eq_iff id k)
  | inr e ↦ ground arith
]

-- A cancellation that reaches the broker closes the order of its id, and no other.
pub cancel_order-is_live :
    (id k : String) (b : Paper)
    → b.unavailable ≡ false
    → is_live k (after (cancel_order id b) b).orders ≡ (is_live k b.orders && not (str_eq id k))
unfolding cancel_order
cancel_order-is_live id k b up = elim (Option-cases (get id b.orders)) [
  | inl e ↦ simp (up, e, cancel_order) (live-closed id k b.orders (ap live_order e))
  | inr (o, e) ↦ elim (Bool-cases (is_open o.status)) [
    | inl z ↦ simp (up, e, z, cancel_order) (live-cancelled id k o b.orders)
    | inr z ↦ simp (up, e, z, cancel_order) (live-closed id k b.orders (ap live_order e ∙ z))
  ]
]

pub cancel_order-unavailable :
    (id : String) (b : Paper) → (after (cancel_order id b) b).unavailable ≡ b.unavailable
unfolding cancel_order
cancel_order-unavailable id b = ground arith
