-- ===== src/Broker.antt =====
-- core/broker.py: the interface of a broker, its errors, and what its callers give it.
use wheelbot.Common.{Option, String, List, ◌≡◌}
use wheelbot.Common.Int.{ℤ}
use wheelbot.Models.{Order, OrderLeg, Symbol}

-- The exceptions that the operations raise: those of core/broker.py, and three of Python's.
pub data BrokerError : Type 0 where
  broker_unavailable order_rejected value_error key_error assertion_error : BrokerError

-- What the caller of `place_multi_leg_order` gives.
pub record Package : Type 0 where
  pub underlying : Symbol
  pub legs : List OrderLeg
  pub quantity : ℤ
  pub limit_price : Option ℤ
  pub client_order_id : Option String
  pub strategy_id : Option String
  pub account_id : String

-- What a call on the broker gives.
pub data Reply (A : Type 0) : Type 0 where
  answer : A → Reply A
  failure : BrokerError → Reply A

-- The operations that the router calls, over the broker's states.
pub record Broker (S : Type 0) : Type 0 where
  pub place_order : Order → S → S × Reply Order
  pub place_multi_leg_order : Package → S → S × Reply Order
  pub cancel_order : (broker_order_id : String) → S → S × Reply Unit

-- The broker's answer carries the client's id.
abbrev pub Names : Option String → Reply Order → Type 0
Names c (answer o) = o.client_order_id ≡ c
Names c (failure e) = Unit

-- A broker's contract on placements: an order that it gives back carries the client's id of the
-- request.
pub record IsNaming {S : Type 0} (broker : Broker S) : Type 0 where
  pub names_order : (o : Order) (s : S) → Names o.client_order_id (broker.place_order o s).1
  pub names_package :
      (g : Package) (s : S) → Names g.client_order_id (broker.place_multi_leg_order g s).1
