-- ===== src/Spreads/Submits.antt =====
-- strategies/spreads.py and execution/router.py: a close that is proposed is placed.
use wheelbot.Common.{
  Bool-cases, ap, arith, inl, inr, none, refl, some, sym, true, ◌∙◌, ◌≡◌, Bool, Option, false, List,
  [], any, ◌∷◌, str_eq, ◌&&◌, ◌||◌, String,
}
use wheelbot.Spreads.{Holdings, is_spread_open, propose_close_for_symbol}
use wheelbot.Models.{Order, MultiLegProposal, Position, Symbol, multi_leg_close}
use wheelbot.Store.Positions.{get_by_symbol}
use wheelbot.RiskGate.Defs.{GateConfig, multi}
use wheelbot.Router.Defs.{World, Moment, OrderRouter, Decision, client_order_id}
use wheelbot.RiskGate.Closes.{is_held, evaluate-multi_leg_close}
use wheelbot.Router.Held.{
  after_checks, may_submit, conditions_hold, placed_of, route-submit, sizable, sized,
}
use wheelbot.Router.Twice.{submit-go_on, submitted}
use wheelbot.Router.Delivered.{deliver_answered}
use wheelbot.Router.Persist.{stamped}
use wheelbot.Router.{route, submit}
use wheelbot.Broker.{Broker, answer}
use wheelbot.Store.Orders.{get_by_client_id}
use wheelbot.Router.Admit.{
  gate_verdict, in_window, is_windowed, market_of, news_check, asked, for_symbol,
}
use wheelbot.Router.Submit.{is_multi_open, request, submit_with_retry}
use wheelbot.Spreads.Closes.{propose_close-IsClosing, or_right}

-- The row of an open spread is one that the gate counts as held.
held_here :
    (q : MultiLegProposal) (cfg : GateConfig) (x : Position)
    → (str_eq x.account_id cfg.account_id
        && (str_eq x.symbol q.symbol && str_eq x.strategy_id q.strategy_id))
      ≡ true
    → is_spread_open x.state ≡ true
    → is_held (multi q) cfg x ≡ true
unfolding is_held
held_here q cfg x h s = ground arith

or_left : (a b : Bool) → a ≡ true → (a || b) ≡ true
or_left a b h = ground arith

found-is_held :
    (q : MultiLegProposal) (cfg : GateConfig) (ps : List Position) (p : Position)
    → get_by_symbol cfg.account_id q.symbol q.strategy_id ps ≡ some p
    → is_spread_open p.state ≡ true
    → any (is_held (multi q) cfg) ps ≡ true
unfolding get_by_symbol is_held
found-is_held q cfg [] p e s = ground arith
found-is_held q cfg (x ∷ ps) p e s =
    elim (Bool-cases (
      str_eq x.account_id cfg.account_id
      && (str_eq x.symbol q.symbol && str_eq x.strategy_id q.strategy_id))) [
        | inl here_it ↦
            let same : x ≡ p = ground arith in
            let state : is_spread_open x.state ≡ true = ap (λ y. is_spread_open y.state) same ∙ s in
            or_left _ _ (held_here q cfg x here_it state)
        | inr there ↦ or_right _ _ (found-is_held q cfg ps p (ground arith) s)
      ]

asked-none :
    (check : Option (Option String → Option Decision)) (may : Bool) → asked check none may ≡ none
asked-none none may = refl
asked-none (some c) may = refl

news_check-none :
    (t : Moment) (q : MultiLegProposal)
    → q.news_check_profile ≡ none
    → news_check t (multi q) ≡ none
unfolding news_check
news_check-none t q h =
    ap (λ p. asked (for_symbol t q.symbol) p (is_multi_open q.order_type)) h
    ∙ asked-none (for_symbol t q.symbol) (is_multi_open q.order_type)

-- A close that is proposed meets every check, whatever the market and the time, at its size.
propose_close-may_submit :
    {S : Type 0} (h : Holdings) (symbol : Symbol) (q : MultiLegProposal) (r : OrderRouter)
    (t : Moment) (w : World S)
    → propose_close_for_symbol h symbol ≡ some q
    → h.account_id ≡ r.gate.account_id
    → h.positions ≡ w.positions
    → r.cfg.dry_run ≡ false
    → (may_submit r t (multi q) w ≡ true) × (submitted r t (multi q) ≡ multi q)
propose_close-may_submit h symbol q r t w e account same wet =
    let (position, _, o, found, state, _, (mid, debit, _, _, is)) =
      propose_close-IsClosing h symbol q e in
    let at_symbol : q.symbol ≡ symbol = ap (λ x. x.symbol) is in
    let of_strategy : q.strategy_id ≡ h.strategy_id = ap (λ x. x.strategy_id) is in
    let held : any (is_held (multi q) r.gate) w.positions ≡ true =
      found-is_held q r.gate w.positions position
        (ap (λ a. get_by_symbol a q.symbol q.strategy_id w.positions) (sym account)
          ∙ ap (λ s. get_by_symbol h.account_id s q.strategy_id w.positions) at_symbol
          ∙ ap (λ s. get_by_symbol h.account_id symbol s w.positions) of_strategy
          ∙ ap (get_by_symbol h.account_id symbol h.strategy_id) (sym same)
          ∙ found)
        state in
    let closed : q.order_type ≡ multi_leg_close = ap (λ x. x.order_type) is in
    let quiet : news_check t (multi q) ≡ none =
      news_check-none t q (ap (λ x. x.news_check_profile) is) in
    (
      conditions_hold (is_windowed (multi q)) (in_window r t) (gate_verdict r t (multi q) w).1
          (sizable r (multi q) (news_check t (multi q))) r.cfg.dry_run (ap is_multi_open closed)
          (evaluate-multi_leg_close q r.gate (market_of t.market w) t.now w.alarms closed held)
          (ap (sizable r (multi q)) quiet) wet,
      ap (λ d. sized r d (multi q)) quiet,
    )

-- A close that is proposed, and that has no order under its client id yet, is placed by the router's
-- call at its full size once the broker accepts the request, unless the run is dry: the risk gate
-- passes it whatever the market, and neither the time of the day nor the news check holds it back.
-- The router works for the account, and on the positions, that the proposal was made from. A close
-- that comes again is subject to the search for its duplicate.
pub route-propose_close :
    {S : Type 0} (h : Holdings) (symbol : Symbol) (q : MultiLegProposal) (r : OrderRouter)
    (broker : Broker S) (t : Moment) (w : World S) (o : Order)
    → propose_close_for_symbol h symbol ≡ some q
    → h.account_id ≡ r.gate.account_id
    → h.positions ≡ w.positions
    → r.cfg.dry_run ≡ false
    → get_by_client_id (client_order_id r (multi q) t.market.today) w.orders ≡ none
    → (submit_with_retry
        (request broker r t.now (client_order_id r (multi q) t.market.today) (multi q))
        r.cfg
        w.broker).reply
      ≡ answer o
    → placed_of (route r broker t (multi q) w).1 ≡ some (stamped (multi q) o)
route-propose_close h symbol q r broker t w o e account same wet unused accepts =
    let (meets, whole) = propose_close-may_submit h symbol q r t w e account same wet in
    let d = news_check t (multi q) in
    let w₀ = after_checks r t (multi q) w in
    ap (λ x. placed_of x.1)
      (route-submit r broker t (multi q) w meets
        ∙ ap (λ x. submit r broker t x d w₀) whole
        ∙ submit-go_on r broker t (multi q) d w₀ unused)
    ∙ deliver_answered broker r t.now (multi q) d (client_order_id r (multi q) t.market.today) w₀ o
        accepts
