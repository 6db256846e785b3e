-- ===== src/PaperBroker/Interface.antt =====
-- platforms/paper_broker.py behind the interface of core/broker.py: a state is the broker's, with the
-- number of ids that it has drawn.
use wheelbot.Broker.{IsNaming, Names, Broker, Package, Reply, answer, failure}
use wheelbot.Models.{Order}
use wheelbot.PaperBroker.{Result, raised, returned, Paper, prior, find_client, same_text}
use wheelbot.PaperBroker as PaperBroker
use wheelbot.Common.{
  Bool-cases, Option, String, inl, inr, none, refl, some, suc, ℕ, ◌≡◌, List, [], arith, length,
  true, ◌==◌, ◌∷◌, Option-cases, ap, eq_iff, sym, ◌∙◌,
}
use wheelbot.Common.Dict.{set_item}
use wheelbot.Common.Int.{leb_ℤ, pos}

-- An operation that raises draws nothing.
abbrev pub adapt : {A : Type 0} → ℕ × Paper → Result A → (ℕ × Paper) × Reply A
adapt s (raised e) = (s, failure e)
adapt s (returned b a) = ((suc s.0, b), answer a)

-- `PaperBroker`, at a second, with the ids that it draws.
abbrev pub paper_broker : (draw : ℕ → String) (now : ℕ) → Broker (ℕ × Paper)
paper_broker draw now = record {
  place_order = λ o s. adapt s (PaperBroker.place_order (draw s.0) o s.1);
  place_multi_leg_order = λ g s. adapt s (PaperBroker.place_multi_leg_order (draw s.0) now g s.1);
  cancel_order = λ id s. adapt s (PaperBroker.cancel_order id s.1);
}

-- What a placement that is answered has stored, where the id is new to the broker.
abbrev pub IsStored :
    (draw : ℕ → String) → (client : Option String) → ℕ × Paper → Result Order → Type 0
IsStored draw c s (raised e) = Unit
IsStored draw c s (returned b o) =
    (o.broker_order_id ≡ some (draw s.0))
    × (b.orders ≡ set_item (draw s.0) o s.1.orders)
    × (o.client_order_id ≡ c)

pub place_order-IsStored :
    (draw : ℕ → String) (o : Order) (s : ℕ × Paper)
    → prior o.client_order_id s.1.orders ≡ none
    → IsStored draw o.client_order_id s (PaperBroker.place_order (draw s.0) o s.1)
unfolding PaperBroker.place_order
place_order-IsStored draw o (n, b) new = elim (Bool-cases b.unavailable) [
  | inl e ↦ rw (e, PaperBroker.place_order) tt
  | inr e ↦ elim (Bool-cases (leb_ℤ o.quantity (pos 0))) [
    | inl z ↦ rw (e, new, z, PaperBroker.place_order) tt
    | inr z ↦ simp (e, new, z, PaperBroker.place_order) (refl, refl, refl)
  ]
]

pub place_multi_leg_order-IsStored :
    (draw : ℕ → String) (now : ℕ) (g : Package) (s : ℕ × Paper)
    → prior g.client_order_id s.1.orders ≡ none
    → IsStored draw g.client_order_id s (PaperBroker.place_multi_leg_order (draw s.0) now g s.1)
unfolding PaperBroker.place_multi_leg_order
place_multi_leg_order-IsStored draw now g (n, b) new = elim (Bool-cases b.unavailable) [
  | inl e ↦ rw (e, PaperBroker.place_multi_leg_order) tt
  | inr e ↦ elim (Bool-cases (length g.legs == 0)) [
    | inl l ↦ rw (e, l, PaperBroker.place_multi_leg_order) tt
    | inr l ↦ elim (Bool-cases (leb_ℤ g.quantity (pos 0))) [
      | inl z ↦ rw (e, l, z, PaperBroker.place_multi_leg_order) tt
      | inr z ↦ simp (e, l, z, new, PaperBroker.place_multi_leg_order) (refl, refl, refl)
    ]
  ]
]

-- The prior order of a client's id carries it.
same_text-same : (a b : Option String) → same_text a b ≡ true → a ≡ b
same_text-same none none h = refl
same_text-same none (some b) h = ground arith
same_text-same (some a) none h = ground arith
same_text-same (some a) (some b) h = ap some (ground (arith, eq_iff a b))

find_client-names :
    (c : Option String) (os : List (String × Order)) (o : Order)
    → find_client c os ≡ some o
    → o.client_order_id ≡ c
unfolding find_client
find_client-names c [] o h = ground arith
find_client-names c ((k, x) ∷ os) o h = elim (Bool-cases (same_text x.client_order_id c)) [
  | inl e ↦
      let same : x ≡ o = ground arith in
      ap (λ y. y.client_order_id) (sym same) ∙ same_text-same x.client_order_id c e
  | inr e ↦ find_client-names c os o (ground arith)
]

prior-names :
    (c : Option String) (os : List (String × Order)) (o : Order)
    → prior c os ≡ some o
    → o.client_order_id ≡ c
prior-names c os o h = find_client-names c os o (ground arith)

module _ (n : ℕ) (b : Paper) where
  place_order-Names :
      (id : String) (o : Order)
      → Names o.client_order_id (adapt (n, b) (PaperBroker.place_order id o b)).1
  unfolding PaperBroker.place_order
  place_order-Names id o = elim (Bool-cases b.unavailable) [
    | inl e ↦ simp (e, PaperBroker.place_order) tt
    | inr e ↦ elim (Option-cases (prior o.client_order_id b.orders)) [
      | inr (r, q) ↦
          simp (e, q, PaperBroker.place_order) (prior-names o.client_order_id b.orders r q)
      | inl q ↦ elim (Bool-cases (leb_ℤ o.quantity (pos 0))) [
        | inl z ↦ simp (e, q, z, PaperBroker.place_order) tt
        | inr z ↦ simp (e, q, z, PaperBroker.place_order) refl
      ]
    ]
  ]

  place_multi_leg_order-Names :
      (id : String) (now : ℕ) (g : Package)
      → Names g.client_order_id (adapt (n, b) (PaperBroker.place_multi_leg_order id now g b)).1
  unfolding PaperBroker.place_multi_leg_order
  place_multi_leg_order-Names id now g = elim (Bool-cases b.unavailable) [
    | inl e ↦ simp (e, PaperBroker.place_multi_leg_order) tt
    | inr e ↦ elim (Bool-cases (length g.legs == 0)) [
      | inl l ↦ simp (e, l, PaperBroker.place_multi_leg_order) tt
      | inr l ↦ elim (Bool-cases (leb_ℤ g.quantity (pos 0))) [
        | inl z ↦ simp (e, l, z, PaperBroker.place_multi_leg_order) tt
        | inr z ↦ elim (Option-cases (prior g.client_order_id b.orders)) [
          | inl q ↦ simp (e, l, z, q, PaperBroker.place_multi_leg_order) refl
          | inr (r, q) ↦
              simp (e, l, z, q, PaperBroker.place_multi_leg_order)
                (prior-names g.client_order_id b.orders r q)
        ]
      ]
    ]
  ]

-- The simulated broker keeps the contract on the client's ids.
pub paper_broker-IsNaming : (draw : ℕ → String) (now : ℕ) → IsNaming (paper_broker draw now)
paper_broker-IsNaming draw now = record {
  names_order = λ o s. place_order-Names s.0 s.1 (draw s.0) o;
  names_package = λ g s. place_multi_leg_order-Names s.0 s.1 (draw s.0) now g;
}
