-- ===== src/Router/Submit.antt =====
-- execution/router.py: an order is built and sent, again while the broker is unavailable.
use wheelbot.Common.{
  if◌then◌else◌, Bool, List, String, [], false, none, some, true, ℕ, leb, ◌*◌, ◌∷◌, suc, zero,
}
use wheelbot.Common.Int.{ℤ, pos, ◌-ℤ◌, negsuc}
use wheelbot.Models.{MultiLegProposal, Order, OrderType, Proposal, multi_leg_open, pending}
use wheelbot.Broker.{Broker, Package, Reply, broker_unavailable, failure}
use wheelbot.RiskGate.Defs.{AnyProposal, multi, single}
use wheelbot.Router.Defs.{OrderRouter, RouterConfig}
use wheelbot.Router.Prices.{cross_of, option_limit_price, nearest}
use wheelbot.Store.{send}

-- `_build_order`
abbrev pub build_order : OrderRouter → (now : ℕ) → (client_order_id : String) → Proposal → Order
build_order r now c p = record {
  account_id = r.gate.account_id;
  symbol = p.symbol;
  strategy_id = some p.strategy_id;
  broker_order_id = none;
  client_order_id = some c;
  order_type = p.order_type;
  contract_symbol = some p.contract.occ_symbol;
  strike = some p.contract.strike;
  expiration = some p.contract.expiration;
  option_type = some p.contract.option_type;
  quantity = pos p.quantity;
  limit_price = option_limit_price r.round_up p.contract.bid p.contract.ask (cross_of p.order_type);
  fill_price = none;
  status = pending;
  placed_at = now;
  filled_at = none;
  legs = [];
  cycle_id = none;
  trigger_reason = p.trigger_reason;
  raw_request = p.raw_request;
}

abbrev pub is_multi_open : OrderType → Bool
is_multi_open multi_leg_open = true
is_multi_open _ = false

-- `round(..., 2)` of an amount in half cents, which may be negative.
abbrev rounded : (round_up : ℕ → Bool) → ℤ → ℤ
rounded round_up (pos n) = pos (nearest 1 (round_up n) n)
rounded round_up (negsuc n) = pos 0 -ℤ pos (nearest 1 (round_up (suc n)) (suc n))

-- The limit of a package: its credit in half cents, less the slippage, rounded to the cent.
abbrev package_limit : OrderRouter → MultiLegProposal → ℤ
package_limit r q =
    if is_multi_open q.order_type
    then rounded r.round_up (q.net_credit_per_spread -ℤ pos (2 * r.cfg.open_slippage))
    else rounded r.round_up (q.net_credit_per_spread -ℤ pos (2 * r.cfg.close_slippage))

abbrev pub build_package : OrderRouter → (client_order_id : String) → MultiLegProposal → Package
build_package r c q = record {
  underlying = q.symbol;
  legs = q.legs;
  quantity = pos q.quantity;
  limit_price = some (package_limit r q);
  client_order_id = some c;
  strategy_id = some q.strategy_id;
  account_id = r.gate.account_id;
}

-- The loop's results: the broker's state, the pauses, and the order or the exception.
pub record Attempts (S : Type 0) : Type 0 where
  pub broker : S
  pub sleeps : List ℕ
  pub reply : Reply Order

abbrev pub min : ℕ → ℕ → ℕ
min a b = if leb a b then a else b

module _ {S : Type 0} where
  -- The call on the broker.
  abbrev pub request :
      Broker S
      → OrderRouter
      → (now : ℕ) → (client_order_id : String) → AnyProposal
      → S
      → S × Reply Order
  request broker r now c (single p) = broker.place_order (build_order r now c p)
  request broker r now c (multi q) = broker.place_multi_leg_order (build_package r c q)

  abbrev pub ended : S × Reply Order → Attempts S
  ended (s, a) = record { broker = s; sleeps = []; reply = a }

  -- After an attempt with `left` more to go, `rest` being what these give: only an unavailable
  -- broker is tried again.
  abbrev pub settle : (left pause : ℕ) → S × Reply Order → (rest : Attempts S) → Attempts S
  settle (suc n) pause (s, failure broker_unavailable) rest = record rest {
    sleeps = pause ∷ rest.sleeps;
  }
  settle left pause (s, a) rest = ended (s, a)

  -- The attempts that are left; without any, `exhausted retries`.
  unfoldable pub attempts : (S → S × Reply Order) → (max_backoff left backoff : ℕ) → S → Attempts S
  attempts send max_backoff zero backoff s = ended (s, failure broker_unavailable)
  attempts send max_backoff (suc n) backoff s =
      let a = send s in
      settle n (min backoff max_backoff) a
        (attempts send max_backoff n (min (backoff * 2) max_backoff) a.0)

  -- `_submit_with_retry`, and the loop of `place_multi_leg`.
  unfoldable pub submit_with_retry : (S → S × Reply Order) → RouterConfig → S → Attempts S
  submit_with_retry send cfg =
      attempts send cfg.retry_max_backoff cfg.retry_max_attempts cfg.retry_initial_backoff
