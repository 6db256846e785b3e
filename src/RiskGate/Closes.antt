-- ===== src/RiskGate/Closes.antt =====
-- What the gate of risk/limits.py does to an order that closes a position it holds.
use wheelbot.RiskGate.Defs.{
  AnyProposal, GateConfig, WheelParams, skip, strategy_of, symbol_of, Market, Rule,
  effective_wheel_params, is_close, is_fail, liquidity, multi, regime, single, is_buy_to_open,
  is_close_type, is_sell_to_open,
}
use wheelbot.Common.{
  Bool, List, [], any, arith, not, refl, select, str_eq, true, ◌&&◌, ◌∷◌, ◌≡◌, Bool-cases,
  Option-cases, inl, inr, none, some, if◌then◌else◌, Option, ℕ, false,
}
use wheelbot.Models.{
  Position, is_idle, is_spread_closed, MultiLegProposal, Proposal, multi_leg_close, OrderType,
  is_put,
}
use wheelbot.RiskGate.Concurrent.{list_active, rule_concurrent_cap, rule_concurrent_total, live}
use wheelbot.Macro.{Alarms}
use wheelbot.RiskGate.{evaluate, first_failure, results_of}
use wheelbot.RiskGate.Capital.{rule_buying_power, rule_position_cap, rule_pmcc_position_cap}
use wheelbot.RiskGate.Events.{rule_earnings, rule_macro_blackout}
use wheelbot.RiskGate.Screens.{
  rule_liquidity, rule_regime, rule_regime_multi_leg, rule_tier2_screen, rule_cc_strike_floor,
  rule_pmcc_short_above_breakeven,
}

-- The position of the proposal's symbol and strategy, in the account and live.
unfoldable pub is_held : AnyProposal → GateConfig → Position → Bool
is_held p cfg q =
    str_eq q.account_id cfg.account_id
    && str_eq q.symbol (symbol_of p)
    && str_eq q.strategy_id (strategy_of p)
    && not (is_idle q.state)
    && not (is_spread_closed q.state)

-- A list keeps, through two filters, an element that satisfies both.
any-select_twice {ℓ} :
    {A : Type ℓ} (f p q h : A → Bool) (xs : List A)
    → ((x : A) → h x ≡ true → (q x ≡ true) × (p x ≡ true) × (f x ≡ true))
    → any h xs ≡ true
    → any f (select p (select q xs)) ≡ true
any-select_twice f p q h [] imp e = e
any-select_twice f p q h (x ∷ xs) imp e = elim (Bool-cases (h x)) [
  | inl here ↦ let (a, b, c) = imp x here in rw (a, b, c) refl
  | inr there ↦ ground (arith, any-select_twice f p q h xs imp)
]

manages_own :
    (p : AnyProposal) (cfg : GateConfig) (ps : List Position)
    → any (is_held p cfg) ps ≡ true
    → any
        (λ q. str_eq q.symbol (symbol_of p))
        (live (list_active cfg.account_id (some (strategy_of p)) ps))
      ≡ true
unfolding list_active is_held
manages_own p cfg ps held = any-select_twice _ _ _ (is_held p cfg) ps (λ q e. ground arith) held

manages_total :
    (p : AnyProposal) (cfg : GateConfig) (ps : List Position)
    → any (is_held p cfg) ps ≡ true
    → any
        (λ q. str_eq q.symbol (symbol_of p) && str_eq q.strategy_id (strategy_of p))
        (live (list_active cfg.account_id none ps))
      ≡ true
unfolding list_active is_held
manages_total p cfg ps held = any-select_twice _ _ _ (is_held p cfg) ps (λ q e. ground arith) held

own_lem :
    (p : AnyProposal) (cfg : GateConfig) (params : WheelParams) (ps : List Position)
    → any (is_held p cfg) ps ≡ true
    → rule_concurrent_cap p cfg params ps ≡ skip
unfolding rule_concurrent_cap
own_lem p cfg params ps held = rw (manages_own p cfg ps held) refl

total_lem :
    (p : AnyProposal) (cfg : GateConfig) (ps : List Position)
    → any (is_held p cfg) ps ≡ true
    → rule_concurrent_total p cfg ps ≡ skip
unfolding rule_concurrent_total
total_lem p cfg ps held = elim (Option-cases cfg.max_concurrent_total) [
  | inl e ↦ rw e refl
  | inr (cap, e) ↦ rw (e, manages_total p cfg ps held) refl
]

-- The rules on capital and dates do not look at a close.
module _ (p : AnyProposal) (cfg : GateConfig) (m : Market) (close : is_close p ≡ true) where
  buying_close : (params : WheelParams) → rule_buying_power p m.account params ≡ skip
  unfolding rule_buying_power
  buying_close params = rw close refl

  capital_close : (params : WheelParams) → rule_position_cap p m.account params ≡ skip
  unfolding rule_position_cap
  capital_close params = rw close refl

  earnings_close : (params : WheelParams) → rule_earnings p cfg params m ≡ skip
  unfolding rule_earnings
  earnings_close params = rw close refl

  screen_close : is_fail (rule_tier2_screen p cfg m) ≡ false
  unfolding rule_tier2_screen
  screen_close = elim (Bool-cases cfg.llm_screener_enabled) [
    | inl e ↦ rw (e, close) refl
    | inr e ↦ rw e refl
  ]

  macro_close : (clock : ℕ) (a : Alarms) → rule_macro_blackout p cfg m clock a ≡ (a, skip)
  unfolding rule_macro_blackout
  macro_close clock a = rw close refl

floor_holds : (p : Proposal) → rule_cc_strike_floor p ≡ skip
unfolding rule_cc_strike_floor
floor_holds p = elim (Bool-cases (is_put p.contract.option_type)) [
  | inl e ↦ rw e refl
  | inr e ↦ rw e refl
]

-- An order that does not open has nothing to do with the rules on a PMCC's entries.
not_long : (t : OrderType) → is_close_type t ≡ true → is_buy_to_open t ≡ false
not_long t close = ground arith

not_short : (t : OrderType) → is_close_type t ≡ true → is_sell_to_open t ≡ false
not_short t close = ground arith

pmcc_cap_close :
    (p : Proposal) (cfg : GateConfig)
    → is_close (single p) ≡ true
    → rule_pmcc_position_cap p cfg.strategies ≡ skip
unfolding rule_pmcc_position_cap
pmcc_cap_close p cfg close = elim (Bool-cases (str_eq p.strategy_id "pmcc")) [
  | inl e ↦ rw (e, not_long p.order_type close) refl
  | inr e ↦ rw e refl
]

pmcc_short_close :
    (p : Proposal) (cfg : GateConfig) (m : Market)
    → is_close (single p) ≡ true
    → rule_pmcc_short_above_breakeven p cfg m ≡ skip
unfolding rule_pmcc_short_above_breakeven
pmcc_short_close p cfg m close = elim (Bool-cases (str_eq p.strategy_id "pmcc")) [
  | inl e ↦ rw (e, not_short p.order_type close) refl
  | inr e ↦ rw e refl
]

regime_close :
    (q : MultiLegProposal) (cfg : GateConfig) (m : Market)
    → q.order_type ≡ multi_leg_close
    → rule_regime_multi_leg q cfg m ≡ skip
unfolding rule_regime_multi_leg
regime_close q cfg m close = rw close refl

abbrev pub stopped_by : Bool → Rule → Option Rule → Option Rule
stopped_by b r rest = if b then some r else rest

-- A package that closes a spread that is held passes the gate, whatever the market.
pub evaluate-multi_leg_close :
    (q : MultiLegProposal) (cfg : GateConfig) (m : Market) (clock : ℕ) (a : Alarms)
    → q.order_type ≡ multi_leg_close
    → any (is_held (multi q) cfg) m.positions ≡ true
    → (evaluate (multi q) cfg m clock a).1 ≡ none
unfolding evaluate results_of first_failure
evaluate-multi_leg_close q cfg m clock a close held =
    let p = multi q in
    let params = effective_wheel_params q.symbol cfg in
    let c : is_close p ≡ true = rw close refl in
    rw
      (
        buying_close p cfg m c params,
        capital_close p cfg m c params,
        earnings_close p cfg m c params,
        screen_close p cfg m c,
        macro_close p cfg m c clock a,
        own_lem p cfg params m.positions held,
        total_lem p cfg m.positions held,
        regime_close q cfg m close,
      )
      refl

-- An order that closes a single position that is held can be stopped by two rules only: the
-- contract's liquidity, and the regime.
evaluate-close :
    (p : Proposal) (cfg : GateConfig) (m : Market) (clock : ℕ) (a : Alarms)
    → is_close (single p) ≡ true
    → any (is_held (single p) cfg) m.positions ≡ true
    → (evaluate (single p) cfg m clock a).1
      ≡ stopped_by
          (is_fail (rule_liquidity p (effective_wheel_params p.symbol cfg)))
          liquidity
          (stopped_by (is_fail (rule_regime p cfg m)) regime none)
unfolding evaluate results_of first_failure
evaluate-close q cfg m clock a c held =
    let p = single q in
    let params = effective_wheel_params q.symbol cfg in
    rw
      (
        buying_close p cfg m c params,
        capital_close p cfg m c params,
        earnings_close p cfg m c params,
        screen_close p cfg m c,
        macro_close p cfg m c clock a,
        own_lem p cfg params m.positions held,
        total_lem p cfg m.positions held,
        floor_holds q,
        pmcc_cap_close q cfg c,
        pmcc_short_close q cfg m c,
      )
      refl
