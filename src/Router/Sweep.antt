-- ===== src/Router/Sweep.antt =====
-- execution/router.py, `cancel_stale_pending_opens`, on platforms/paper_broker.py.
use mathlib.Core.Path.{ap₂}
use wheelbot.PaperBroker.Interface.{adapt, paper_broker}
use wheelbot.Common.{
  Bool, List, Option, String, [], any, ap, arith, false, none, not, refl, select, some, str_eq, ℕ,
  ◌&&◌, ◌||◌, ◌∙◌, ◌∷◌, ◌≡◌, Bool-cases, Option-cases, inl, inr, sym, true, get_or, leb, ◌*◌, ◌+◌,
}
use wheelbot.Models.{
  Order, OrderStatus, OrderType, buy_to_open, multi_leg_open, pending, sell_to_open,
}
use wheelbot.PaperBroker.{Paper, after, cancel_order, is_open, Result, raised, returned}
use wheelbot.Router.Defs.{RouterConfig, OrderRouter, World}
use wheelbot.Store.Orders.{insert_oldest, oldest_first, list_pending}
use wheelbot.Router.Stale.{is_stale_open, sweep, cancel_stale_pending_opens}
use wheelbot.PaperBroker.Cancel.{is_live, and_true, cancel_order-is_live, cancel_order-unavailable}
use wheelbot.RiskGate.Concurrent.{live}
use wheelbot.Router.Prices.{target}
use wheelbot.Router.Samples.{draw}

abbrev names_id : (id : String) → Option String → Bool
names_id id none = false
names_id id (some k) = str_eq k id

abbrev is_just_pending : OrderStatus → Bool
is_just_pending pending = true
is_just_pending _ = false

abbrev is_opening : OrderType → Bool
is_opening sell_to_open = true
is_opening buy_to_open = true
is_opening multi_leg_open = true
is_opening _ = false

-- A row of the account that names the broker's id: a PENDING order that opens, of the threshold's
-- age or more.
abbrev is_target : RouterConfig → (now : ℕ) → (account id : String) → Order → Bool
is_target cfg now account id o =
    str_eq o.account_id account
    && names_id id o.broker_order_id
    && is_just_pending o.status
    && is_opening o.order_type
    && leb (o.placed_at + 60 * cfg.stale_pending_minutes) now

target-stale :
    (cfg : RouterConfig) (now : ℕ) (account id : String) (o : Order)
    → ((str_eq o.account_id account && is_open o.status)
        && (is_stale_open cfg now o && names_id id o.broker_order_id))
      ≡ is_target cfg now account id o
target-stale cfg now account id o = elim (Option-cases o.broker_order_id) [
  | inl e ↦ ground arith
  | inr (k, e) ↦ ground arith
]

any-insert_oldest :
    (f : Order → Bool) (o : Order) (os : List Order)
    → any f (insert_oldest o os) ≡ (f o || any f os)
any-insert_oldest f o [] = refl
any-insert_oldest f o (x ∷ os) = ground (arith, any-insert_oldest f o os)

any-oldest_first : (f : Order → Bool) (os : List Order) → any f (oldest_first os) ≡ any f os
unfolding oldest_first
any-oldest_first f [] = refl
any-oldest_first f (o ∷ os) =
    any-insert_oldest f o (oldest_first os) ∙ ap (λ b. f o || b) (any-oldest_first f os)

any-select :
    {A : Type 0} (f g : A → Bool) (xs : List A) → any f (select g xs) ≡ any (λ x. g x && f x) xs
any-select f g [] = refl
any-select f g (x ∷ xs) = ground (arith, any-select f g xs)

any-each : {A : Type 0} (f g : A → Bool) (xs : List A) → ((x : A) → f x ≡ g x) → any f xs ≡ any g xs
any-each f g [] h = refl
any-each f g (x ∷ xs) h = ap₂ ◌||◌ (h x) (any-each f g xs h)

any-list_pending :
    (cfg : RouterConfig) (now : ℕ) (account id : String) (os : List Order)
    → any (λ o. is_stale_open cfg now o && names_id id o.broker_order_id) (list_pending account os)
      ≡ any (is_target cfg now account id) os
unfolding list_pending
any-list_pending cfg now account id os =
    any-select (λ o. is_stale_open cfg now o && names_id id o.broker_order_id)
      (λ o. str_eq o.account_id account && is_open o.status) (oldest_first os)
    ∙ any-oldest_first _ os
    ∙ any-each _ (is_target cfg now account id) os (target-stale cfg now account id)

adapt-after : {A : Type 0} (s : ℕ × Paper) (x : Result A) → (adapt s x).0.1 ≡ after x s.1
adapt-after s (raised e) = refl
adapt-after s (returned b a) = refl

without :
    (live target rest : Bool) → ((live && not target) && not rest) ≡ (live && not (target || rest))
without live target rest = ground arith

module _ (draw : ℕ → String) (cfg : RouterConfig) (now : ℕ) where
  sweep-taken :
      (o : Order) (os : List Order) (s : ℕ × Paper) (id : String)
      → is_stale_open cfg now o ≡ true
      → o.broker_order_id ≡ some id
      → (sweep (paper_broker draw now) cfg now (o ∷ os) s).0
        ≡ (sweep (paper_broker draw now) cfg now os (adapt s (cancel_order id s.1)).0).0
  unfolding sweep
  sweep-taken o os s id e q =
      let taken : (sweep (paper_broker draw now) cfg now (o ∷ os) s).0
          ≡ (sweep (paper_broker draw now) cfg now os
              (adapt s (cancel_order (get_or o.broker_order_id "") s.1)).0).0 =
        rw e refl in
      taken
      ∙ ap
          (λ m.
            (sweep (paper_broker draw now) cfg now os
              (adapt s (cancel_order (get_or m "") s.1)).0).0)
          q

  sweep-left :
      (o : Order) (os : List Order) (s : ℕ × Paper)
      → is_stale_open cfg now o ≡ false
      → sweep (paper_broker draw now) cfg now (o ∷ os) s
        ≡ sweep (paper_broker draw now) cfg now os s
  unfolding sweep
  sweep-left o os s e = rw e refl

  abbrev aims : String → Order → Bool
  aims id o = is_stale_open cfg now o && names_id id o.broker_order_id

  -- The sweep of a broker that can be reached.
  sweep-live :
      (id : String) (os : List Order) (s : ℕ × Paper)
      → s.1.unavailable ≡ false
      → is_live id (sweep (paper_broker draw now) cfg now os s).0.1.orders
        ≡ (is_live id s.1.orders && not (any (aims id) os))
  unfolding sweep
  sweep-live id [] s up = sym (and_true (is_live id s.1.orders))
  sweep-live id (o ∷ os) s up = elim (Bool-cases (is_stale_open cfg now o)) [
    | inr e ↦
        ap (λ x. is_live id x.0.1.orders) (sweep-left o os s e)
        ∙ sweep-live id os s up
        ∙ ap
            (λ b.
              is_live id s.1.orders
              && not ((b && names_id id o.broker_order_id) || any (aims id) os))
            (sym e)
    | inl e ↦ elim (Option-cases o.broker_order_id) [
      | inl q ↦ ground arith
      | inr (k, q) ↦
          let s' = (adapt s (cancel_order k s.1)).0 in
          let same : s'.1 ≡ after (cancel_order k s.1) s.1 = adapt-after s (cancel_order k s.1) in
          let up' : s'.1.unavailable ≡ false =
            ap (λ b. b.unavailable) same ∙ cancel_order-unavailable k s.1 ∙ up in
          let closed : is_live id s'.1.orders ≡ (is_live id s.1.orders && not (str_eq k id)) =
            ap (λ b. is_live id b.orders) same ∙ cancel_order-is_live k id s.1 up in
          let aimed : aims id o ≡ str_eq k id =
            ap (λ b. b && names_id id o.broker_order_id) e ∙ ap (names_id id) q in
          ap (λ x. is_live id x.1.orders) (sweep-taken o os s k e q)
          ∙ sweep-live id os s' up'
          ∙ ap (λ b. b && not (any (aims id) os)) closed
          ∙ without (is_live id s.1.orders) (str_eq k id) (any (aims id) os)
          ∙ ap (λ b. is_live id s.1.orders && not (b || any (aims id) os)) (sym aimed)
    ]
  ]

-- The sweep, at a broker that can be reached: an order of the broker is live after it just when it
-- was before and no row of the account names it that is a PENDING opening order of the threshold's
-- age or more. So closes, partly filled orders and younger orders stay live, and no stale entry
-- does.
pub cancel_stale_pending_opens-is_live :
    (draw : ℕ → String) (r : OrderRouter) (now : ℕ) (w : World (ℕ × Paper)) (id : String)
    → w.broker.1.unavailable ≡ false
    → is_live id (cancel_stale_pending_opens r (paper_broker draw now) now w).0.broker.1.orders ≡ (
        is_live id w.broker.1.orders
        && not (any (is_target r.cfg now r.gate.account_id id) w.orders))
unfolding cancel_stale_pending_opens
cancel_stale_pending_opens-is_live draw r now w id up =
    sweep-live draw r.cfg now id (list_pending r.gate.account_id w.orders) w.broker up
    ∙ ap (λ b. is_live id w.broker.1.orders && not b)
        (any-list_pending r.cfg now r.gate.account_id id w.orders)
