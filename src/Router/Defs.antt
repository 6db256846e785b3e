-- ===== src/Router/Defs.antt =====
-- execution/router.py: the router's configuration and results, and the ids of its orders.
use Prim.Native.String.{◌++◌ as text_append}
use wheelbot.Common.{Bool, List, Option, String, false, get_or, map, none, true, ℕ}
use wheelbot.Models.{
  Day, Order, OrderLeg, OrderType, Position, Symbol, buy_to_open, multi_leg_open, sell_to_open,
}
use wheelbot.Macro.{Alarms}
use wheelbot.Broker.{BrokerError}
use wheelbot.RiskGate.Defs.{AnyProposal, GateConfig, Market, Rule, multi, single}

-- `RouterConfig`. The retry's times are in milliseconds and the slippages in cents.
pub record RouterConfig : Type 0 where
  pub dry_run : Bool
  pub retry_max_attempts : ℕ
  pub retry_initial_backoff : ℕ
  pub retry_max_backoff : ℕ
  pub stale_pending_minutes : ℕ
  pub open_slippage : ℕ
  pub close_slippage : ℕ
  pub entry_cutoff_minutes_before_close : ℕ
  pub news_check_advisory : Bool

-- The sections `execution` and `intelligence` of the configuration.
pub record Section : Type 0 where
  pub dry_run : Option Bool
  pub retry_max_attempts : Option ℕ
  pub retry_initial_backoff : Option ℕ
  pub retry_max_backoff : Option ℕ
  pub stale_pending_minutes : Option ℕ
  pub open_slippage : Option ℕ
  pub close_slippage : Option ℕ
  pub entry_cutoff_minutes_before_close : Option ℕ
  pub news_check_advisory : Option Bool

-- `_router_config`
abbrev pub router_config : Section → RouterConfig
router_config s = record {
  dry_run = get_or s.dry_run false;
  retry_max_attempts = get_or s.retry_max_attempts 5;
  retry_initial_backoff = get_or s.retry_initial_backoff 1000;
  retry_max_backoff = get_or s.retry_max_backoff 60000;
  stale_pending_minutes = get_or s.stale_pending_minutes 15;
  open_slippage = get_or s.open_slippage 5;
  close_slippage = get_or s.close_slippage 5;
  entry_cutoff_minutes_before_close = get_or s.entry_cutoff_minutes_before_close 15;
  news_check_advisory = get_or s.news_check_advisory false;
}

-- The answer of the news checker; another text is `proceed`.
pub data Decision : Type 0 where
  proceed caution block : Decision

-- What the hash of an order's id is taken of.
pub data Key : Type 0 where
  single_key :
      (strategy : String) → Symbol → (occ : String) → OrderType → (quantity : ℕ) → Day → Key
  package_key :
      (strategy : String) → Symbol → List (String × OrderType × ℕ) → (quantity : ℕ) → Day → Key

-- `OrderRouter`. The last three fields stand for the libraries' functions: the first 16 digits of
-- the key's hash, a number's decimal text, and the side to which a float midway is rounded.
pub record OrderRouter : Type 0 where
  pub cfg : RouterConfig
  pub gate : GateConfig
  pub digest : Key → String
  pub decimal : ℕ → String
  pub round_up : ℕ → Bool

-- A call: the weekday and the second of the day in New York, and the second in UTC; what the gate
-- reads; and what the news checker answers to this call, if there is one. The checker asks a language
-- model anew on every call, so its answers to two calls may differ.
pub record Moment : Type 0 where
  pub weekday : ℕ
  pub time : ℕ
  pub now : ℕ
  pub market : Market
  pub news_checker : Option (Symbol → (profile : Option String) → Option Decision)

-- The state that the router works on: the broker, the tables, the limits of the calendar's alerts,
-- and the pauses that it has made.
pub record World (S : Type 0) : Type 0 where
  pub broker : S
  pub orders : List Order
  pub positions : List Position
  pub alarms : Alarms
  pub sleeps : List ℕ

-- `RouteResult`, without its texts. `risk_failed` is that a rule is named.
pub record RouteResult : Type 0 where
  pub proposal : AnyProposal
  pub placed : Option Order
  pub risk_failure_rule : Option Rule
  pub dry_run : Bool
  pub news_decision : Option Decision
  pub quantity_adjusted : Option ℕ
  pub skipped_duplicate_pending : Bool
  pub skipped_outside_entry_window : Bool

-- The defaults of the dataclass.
abbrev pub nothing_placed : AnyProposal → RouteResult
nothing_placed p = record {
  proposal = p;
  placed = none;
  risk_failure_rule = none;
  dry_run = false;
  news_decision = none;
  quantity_adjusted = none;
  skipped_duplicate_pending = false;
  skipped_outside_entry_window = false;
}

-- A call returns a result, or an exception of the broker leaves it.
pub data Outcome : Type 0 where
  routed : RouteResult → Outcome
  errored : BrokerError → Outcome

-- `_OPEN_ORDER_TYPES`
abbrev pub is_open_type : OrderType → Bool
is_open_type sell_to_open = true
is_open_type buy_to_open = true
is_open_type multi_leg_open = true
is_open_type _ = false

abbrev leg_part : OrderLeg → String × OrderType × ℕ
leg_part l = (l.contract_symbol, l.action, l.ratio_qty)

abbrev key_of : AnyProposal → Day → Key
key_of (single p) today =
    single_key p.strategy_id p.symbol p.contract.occ_symbol p.order_type p.quantity today
key_of (multi p) today = package_key p.strategy_id p.symbol (map leg_part p.legs) p.quantity today

-- `_client_order_id` and `_multi_leg_client_order_id`
unfoldable pub client_order_id : OrderRouter → AnyProposal → Day → String
client_order_id r p today = text_append "wb-" (r.digest (key_of p today))

-- `f"{client_id}-r{int(now.timestamp())}"`
unfoldable pub fresh_id : OrderRouter → (client_id : String) → (now : ℕ) → String
fresh_id r c now = text_append c (text_append "-r" (r.decimal now))
