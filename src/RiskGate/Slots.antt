-- ===== src/RiskGate/Slots.antt =====
-- risk/limits.py, rule 3: the room that an order which passes has under its strategy's own cap.
use wheelbot.Common.{
  Bool, List, String, [], any, ap, arith, false, get_or, length, none, not, refl, select, some,
  str_eq, true, ℕ, ◌&&◌, ◌++◌, ◌+◌, ◌∙◌, ◌∷◌, ◌≡◌, ◌≤◌,
}
use wheelbot.Models.{Position, is_idle, is_spread_closed}
use wheelbot.Macro.{Alarms}
use wheelbot.RiskGate.{evaluate}
use wheelbot.RiskGate.Passed.{evaluate-own_cap, room}
use wheelbot.RiskGate.Concurrent.{cap_of, list_active, live, rule_concurrent_cap}
use wheelbot.RiskGate.Defs.{
  AnyProposal, GateConfig, Market, StrategyEntry, WheelParams, effective_wheel_params,
  strategy_entry, strategy_of, symbol_of,
}

-- A row that takes one of the strategy's slots.
abbrev pub takes_slot : GateConfig → AnyProposal → Position → Bool
takes_slot cfg p q =
    str_eq q.account_id cfg.account_id
    && str_eq q.strategy_id (strategy_of p)
    && not (is_idle q.state)
    && not (is_spread_closed q.state)

select-select :
    (f g h : Position → Bool) (ps : List Position)
    → ((q : Position) → h q ≡ (f q && g q))
    → select g (select f ps) ≡ select h ps
select-select f g h [] e = refl
select-select f g h (q ∷ ps) e = ground (arith, e q, select-select f g h ps e)

regrouped : (a b c d : Bool) → (a && b && c && d) ≡ ((a && b && c) && d)
regrouped a b c d = ground arith

active_slots :
    (cfg : GateConfig) (p : AnyProposal) (ps : List Position)
    → live (list_active cfg.account_id (some (strategy_of p)) ps) ≡ select (takes_slot cfg p) ps
unfolding list_active
active_slots cfg p ps = select-select _ _ (takes_slot cfg p) ps (λ q.
    regrouped (str_eq q.account_id cfg.account_id) (str_eq q.strategy_id (strategy_of p))
      (not (is_idle q.state)) (not (is_spread_closed q.state)))

any-select :
    (f g : Position → Bool) (ps : List Position)
    → any (λ q. f q && g q) ps ≡ false
    → any g (select f ps) ≡ false
any-select f g [] h = refl
any-select f g (q ∷ ps) h = ground (arith, any-select f g ps)

strategy_entry-first :
    (id : String) (before rest : List StrategyEntry) (s : StrategyEntry)
    → any (λ x. str_eq x.id id) before ≡ false
    → str_eq s.id id ≡ true
    → strategy_entry id (before ++ s ∷ rest) ≡ some s
unfolding strategy_entry
strategy_entry-first id [] rest s h k = rw k refl
strategy_entry-first id (x ∷ before) rest s h k =
    ground (arith, strategy_entry-first id before rest s)

own_cap :
    (id : String) (ss : List StrategyEntry) (params : WheelParams) (s : StrategyEntry) (slots : ℕ)
    → strategy_entry id ss ≡ some s
    → s.max_concurrent ≡ some slots
    → cap_of id ss params ≡ slots
own_cap id ss params s slots e h =
    let wheel_cap = get_or params.max_concurrent_positions 4 in
    ap (λ o. elim o [ none ↦ wheel_cap | some x ↦ get_or x.max_concurrent wheel_cap ]) e
    ∙ ap (λ o. get_or o wheel_cap) h

-- An order that passes the gate, of a strategy whose entry in the configuration has a cap of its own
-- and which has no live position in the order's symbol, has a free slot: the strategy's live rows of
-- the account, those that are neither IDLE nor SPREAD_CLOSED, and one more are within that cap. The
-- entry is the first of the strategy's id.
pub evaluate_own_room :
    (p : AnyProposal) (cfg : GateConfig) (m : Market) (clock : ℕ) (a : Alarms)
    (before rest : List StrategyEntry) (s : StrategyEntry) (slots : ℕ)
    → (evaluate p cfg m clock a).1 ≡ none
    → cfg.strategies ≡ before ++ s ∷ rest
    → any (λ x. str_eq x.id (strategy_of p)) before ≡ false
    → str_eq s.id (strategy_of p) ≡ true
    → s.max_concurrent ≡ some slots
    → any (λ q. takes_slot cfg p q && str_eq q.symbol (symbol_of p)) m.positions ≡ false
    → length (select (takes_slot cfg p) m.positions) + 1 ≤ slots
unfolding rule_concurrent_cap
evaluate_own_room p cfg m clock a before rest s slots passed entries others own capped_at new =
    let params = effective_wheel_params (symbol_of p) cfg in
    let entry : strategy_entry (strategy_of p) cfg.strategies ≡ some s =
      ap (strategy_entry (strategy_of p)) entries
      ∙ strategy_entry-first (strategy_of p) before rest s others own in
    let limit = own_cap (strategy_of p) cfg.strategies params s slots entry capped_at in
    let active = active_slots cfg p m.positions in
    let fresh =
      ap (any (λ q. str_eq q.symbol (symbol_of p))) active
      ∙ any-select (takes_slot cfg p) (λ q. str_eq q.symbol (symbol_of p)) m.positions new in
    let free = room _ _ _ (evaluate-own_cap p cfg m clock a passed) fresh in
    omega (arith, ap length active, limit, free)
