-- ===== src/RiskGate/Screens.antt =====
-- risk/limits.py, the rules on the market and the contract: 5, 6, 7, 8 and the PMCC breakeven.
use wheelbot.Common.{
  if◌then◌else◌, Bool, List, Option, String, [], any, false, get_or, ltb, none, not, some, str_eq,
  true, ℕ, ◌&&◌, ◌*◌, ◌+◌, ◌==◌, ◌||◌, ◌∷◌,
}
use wheelbot.RiskGate.Defs.{
  AnyProposal, Candidate, GateConfig, Market, OrderRow, RegimeRow, Status, StrategyEntry,
  WheelParams, fail, get_universe_entry, is_buy_to_open, is_close, is_sell_to_open, multi, pass_if,
  single, skip, swing, symbol_of,
}
use wheelbot.Models.{
  Day, Direction, MultiLegProposal, OrderType, Proposal, Symbol, bear_call, buy_to_close, filled,
  is_put, multi_leg_close,
}
use wheelbot.Common.Ratio.{Ratio, ltb_ratio, whole}
use wheelbot.Common.Int.{leb_ℤ, ltb_ℤ, neg_part, pos, pos_part, ℤ, ◌*ℤ◌, ◌+ℤ◌, ◌-ℤ◌}
use wheelbot.Store.Positions.{get_by_symbol}

-- Enforced where the contract is selected: the gate only records that it is not checked here.
unfoldable pub rule_cc_strike_floor : Proposal → Status
rule_cc_strike_floor p = if is_put p.contract.option_type then skip else skip

-- `((ask - bid) / mid) * 100 > spread_max`, with twice the mid as the divisor.
abbrev too_wide : (bid ask : ℤ) → Ratio → Bool
too_wide b a spread_max =
    ltb_ℤ (spread_max.num *ℤ (b +ℤ a)) ((a -ℤ b) *ℤ pos (200 * spread_max.den))

unfoldable pub rule_liquidity : Proposal → WheelParams → Status
rule_liquidity p params = elim p.contract.bid [
  | none ↦ fail
  | some b ↦ elim p.contract.ask [
    | none ↦ fail
    | some a ↦
        if leb_ℤ a (pos 0)
        then fail
        else if leb_ℤ (b +ℤ a) (pos 0)
        then fail
        else pass_if (
            not (
              ltb (get_or p.contract.open_interest 0) (get_or params.open_interest_min 0)
              || (ltb (get_or p.contract.volume 0) (get_or params.volume_min 0)
                  || too_wide b a (get_or params.bid_ask_spread_max_pct (whole (pos 100))))))
  ]
]

-- A column of the latest regime row: no row is no answer, and NULL allows.
abbrev flag : Option RegimeRow → (RegimeRow → Option Bool) → Status
flag none column = skip
flag (some row) column = pass_if (get_or (column row) true)

abbrev is_swing_entry : StrategyEntry → Bool
is_swing_entry s = elim s.type [ swing ↦ true | _ ↦ false ]

-- `strategy_id in self._swing_ids`
unfoldable pub is_swing_id : String → List StrategyEntry → Bool
is_swing_id id ss = any (λ s. str_eq s.id id && is_swing_entry s) ss

abbrev is_multi_close : OrderType → Bool
is_multi_close multi_leg_close = true
is_multi_close _ = false

abbrev pub is_buy_to_close : OrderType → Bool
is_buy_to_close buy_to_close = true
is_buy_to_close _ = false

abbrev by_direction : Direction → Option RegimeRow → Status
by_direction bear_call row = flag row (λ r. r.bear_calls_allowed)
by_direction _ row = flag row (λ r. r.csps_allowed)

unfoldable pub rule_regime_multi_leg : MultiLegProposal → GateConfig → Market → Status
rule_regime_multi_leg p cfg m =
    if is_multi_close p.order_type
    then skip
    else if not cfg.regime_enabled
    then skip
    else by_direction p.direction m.latest_regime

abbrev is_pmcc_long : Proposal → Bool
is_pmcc_long p = str_eq p.strategy_id "pmcc" && is_buy_to_open p.order_type

unfoldable pub rule_regime : Proposal → GateConfig → Market → Status
unfolding is_swing_id
rule_regime p cfg m =
    if not cfg.regime_enabled
    then skip
    else if is_buy_to_close p.order_type
    then skip
    else if is_swing_id p.strategy_id cfg.strategies
    then skip
    else if not (is_put p.contract.option_type) && not (is_pmcc_long p)
    then skip
    else flag m.latest_regime (λ r. r.csps_allowed)

-- The best score of the symbol's candidates of the day; a NULL score counts as zero, and sorts
-- last. `none` is no row.
abbrev better : Ratio → Option Ratio → Ratio
better a none = a
better a (some b) = if ltb_ratio a b then b else a

unfoldable pub best_score : Symbol → Day → List Candidate → Option (Option Ratio)
best_score symbol day [] = none
best_score symbol day (c ∷ cs) =
    let rest = best_score symbol day cs in
    if str_eq c.symbol symbol && c.run_date == day
    then some
        (elim c.score [ some x ↦ some (better x (get_or rest none)) | none ↦ get_or rest none ])
    else rest

abbrev is_bear_call : AnyProposal → Bool
is_bear_call (single p) = false
is_bear_call (multi p) = elim p.direction [ bear_call ↦ true | _ ↦ false ]

abbrev screened : AnyProposal → GateConfig → Market → Status
screened p cfg m = elim (best_score (symbol_of p) m.utc_today m.candidates) [
  | none ↦ fail
  | some score ↦
      pass_if (
        not
          (ltb_ratio (get_or score (whole (pos 0))) (get_or cfg.tier2_min_score (whole (pos 50)))))
]

unfoldable pub rule_tier2_screen : AnyProposal → GateConfig → Market → Status
rule_tier2_screen p cfg m =
    if not cfg.llm_screener_enabled
    then skip
    else if is_close p
    then skip
    else if is_bear_call p
    then skip
    else elim (get_universe_entry (symbol_of p) cfg.universe) [
      | none ↦ skip
      | some e ↦ if not (e.tier == 2) then skip else screened p cfg m
    ]

abbrev pub is_long_call : (cycle : ℕ) → OrderRow → Bool
is_long_call cycle o =
    o.cycle_id == cycle
    && (is_buy_to_open o.order_type
        && (not (is_put o.option_type) && elim o.status [ filled ↦ true | _ ↦ false ]))

abbrev pub newer : OrderRow → Option OrderRow → OrderRow
newer o none = o
newer o (some q) = if ltb o.placed_at q.placed_at then q else o

-- `ORDER BY placed_at DESC LIMIT 1` over the cycle's filled long calls.
unfoldable pub latest_long : (cycle : ℕ) → List OrderRow → Option OrderRow
latest_long cycle [] = none
latest_long cycle (o ∷ os) =
    let rest = latest_long cycle os in if is_long_call cycle o then some (newer o rest) else rest

abbrev abs_ℤ : ℤ → ℤ
abs_ℤ a = pos (pos_part a + neg_part a)

-- The breakeven of the long call that covers the short: `strike + abs(fill_price)`.
unfoldable pub long_breakeven : Proposal → GateConfig → Market → Option ℤ
long_breakeven p cfg m = elim (get_by_symbol cfg.account_id p.symbol "pmcc" m.positions) [
  | none ↦ none
  | some position ↦ elim position.current_cycle_id [
    | none ↦ none
    | some cycle ↦ elim (latest_long cycle m.orders) [
      | none ↦ none
      | some o ↦ elim o.strike [
        | none ↦ none
        | some strike ↦ elim o.fill_price [
          | none ↦ none
          | some price ↦ some (strike +ℤ abs_ℤ price)
        ]
      ]
    ]
  ]
]

unfoldable pub rule_pmcc_short_above_breakeven : Proposal → GateConfig → Market → Status
rule_pmcc_short_above_breakeven p cfg m =
    if not (str_eq p.strategy_id "pmcc")
    then skip
    else if not (is_sell_to_open p.order_type) || is_put p.contract.option_type
    then skip
    else elim (long_breakeven p cfg m) [
      | none ↦ fail
      | some breakeven ↦ pass_if (ltb_ℤ breakeven p.contract.strike)
    ]
