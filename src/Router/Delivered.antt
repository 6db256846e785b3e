-- ===== src/Router/Delivered.antt =====
-- execution/router.py: what a submission that placed an order has written.
use wheelbot.Router.{conclude, deliver, record_order, sent}
use wheelbot.Router.Held.{placed_of}
use wheelbot.RiskGate.Defs.{AnyProposal, multi, single}
use wheelbot.Broker.{Broker, Reply, answer, failure, IsNaming, Names}
use wheelbot.Router.Defs.{Decision, OrderRouter, World}
use wheelbot.Common.{Option, String, arith, some, ℕ, ◌≡◌, ap, refl, suc, sym, zero}
use wheelbot.Models.{Order}
use wheelbot.Router.Retries.{Tried, last, again, attempts-Tried, attempts-none}
use wheelbot.Router.Submit.{build_order, build_package, request, submit_with_retry, attempts}
use wheelbot.Store.{send}
use wheelbot.Router.Persist.{stamped}

-- The stamp leaves all but the raw request.
pub stamped-parts :
    (p : AnyProposal) (o : Order)
    → ((stamped p o).client_order_id ≡ o.client_order_id)
      × ((stamped p o).status ≡ o.status)
      × ((stamped p o).broker_order_id ≡ o.broker_order_id)
      × ((stamped p o).placed_at ≡ o.placed_at)
      × ((stamped p o).quantity ≡ o.quantity)
      × ((stamped p o).limit_price ≡ o.limit_price)
unfolding stamped
stamped-parts (single p) o = ground arith
stamped-parts (multi q) o = ground arith

module _ {S : Type 0} where
  -- What holds of every reply holds of the last.
  Tried-reply :
      (send : S → S × Reply Order) (P : Reply Order → Type 0) (k : ℕ) (s s' : S) (a : Reply Order)
      → ((x : S) → P (send x).1)
      → Tried send s k s' a
      → P a
  Tried-reply send P k s s' a h (last _) = h s
  Tried-reply send P k s s' a h (again _ _ j _ down t) = Tried-reply send P j _ s' a h t

  pub request-Names :
      (broker : Broker S) (r : OrderRouter) (now : ℕ) (c : String) (p : AnyProposal) (s : S)
      → IsNaming broker
      → Names (some c) (request broker r now c p s).1
  request-Names broker r now c (single p) s law = law.names_order (build_order r now c p) s
  request-Names broker r now c (multi q) s law = law.names_package (build_package r c q) s

  attempts-Names :
      (send : S → S × Reply Order) (limit left backoff : ℕ) (c : Option String) (s : S)
      → ((x : S) → Names c (send x).1)
      → Names c (attempts send limit left backoff s).reply
  attempts-Names send limit zero backoff c s h = rw (attempts-none send limit backoff s) tt
  attempts-Names send limit (suc n) backoff c s h =
      let (k, _, run, _) = attempts-Tried send limit n backoff s in
      Tried-reply send (Names c) k s _ _ h run

  pub submit_with_retry-Names :
      (broker : Broker S) (r : OrderRouter) (now : ℕ) (c : String) (p : AnyProposal) (s : S)
      → IsNaming broker
      → Names (some c) (submit_with_retry (request broker r now c p) r.cfg s).reply
  unfolding submit_with_retry
  submit_with_retry-Names broker r now c p s law =
      attempts-Names (request broker r now c p) r.cfg.retry_max_backoff r.cfg.retry_max_attempts
        r.cfg.retry_initial_backoff (some c) s (λ x. request-Names broker r now c p x law)

  -- What a submission that has placed an order has done.
  abbrev pub IsDelivered :
      Broker S → OrderRouter → (now : ℕ) → AnyProposal → String → World S → Order → World S → Type 0
  IsDelivered broker r now p c w o w' =
      let a = submit_with_retry (request broker r now c p) r.cfg w.broker in
      (o' : Order) × (a.reply ≡ answer o')
      × (o ≡ stamped p o')
      × (w' ≡ record_order r now p o (sent a w))

  conclude_placed :
      (r : OrderRouter) (now : ℕ) (p : AnyProposal) (d : Option Decision) (a : Reply Order)
      (w : World S) (o : Order)
      → placed_of (conclude r now p d a w).1 ≡ some o
      → (o' : Order) × (a ≡ answer o')
        × (o ≡ stamped p o')
        × ((conclude r now p d a w).0 ≡ record_order r now p o w)
  conclude_placed r now p d (failure e) w o h = ground arith
  conclude_placed r now p d (answer o') w o h =
      let same : stamped p o' ≡ o = ground arith in
      (o', refl, sym same, ap (λ x. record_order r now p x w) same)

  -- A submission that the broker answers with an order has placed it.
  pub deliver_answered :
      (broker : Broker S) (r : OrderRouter) (now : ℕ) (p : AnyProposal) (d : Option Decision)
      (c : String) (w : World S) (o : Order)
      → (submit_with_retry (request broker r now c p) r.cfg w.broker).reply ≡ answer o
      → placed_of (deliver r broker now p d c w).1 ≡ some (stamped p o)
  unfolding deliver
  deliver_answered broker r now p d c w o e =
      let a = submit_with_retry (request broker r now c p) r.cfg w.broker in
      ap (λ x. placed_of (conclude r now p d x (sent a w)).1) e

  pub deliver_placed :
      (broker : Broker S) (r : OrderRouter) (now : ℕ) (p : AnyProposal) (d : Option Decision)
      (c : String) (w : World S) (o : Order)
      → placed_of (deliver r broker now p d c w).1 ≡ some o
      → IsDelivered broker r now p c w o (deliver r broker now p d c w).0
  unfolding deliver
  deliver_placed broker r now p d c w o h =
      let a = submit_with_retry (request broker r now c p) r.cfg w.broker in
      conclude_placed r now p d a.reply (sent a w) o h
