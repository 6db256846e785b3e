-- ===== src/Router/Held.antt =====
-- execution/router.py: which proposals are submitted, at which size, and what the others leave.
use wheelbot.Router.Admit.{
  Admission, admitted, after_news, gate_verdict, halved, in_window, is_windowed, news_check,
  quantity_of, stopped, admission, dry_result, unless_dry, market_of,
}
use wheelbot.RiskGate.Defs.{
  AnyProposal, Rule, multi, single, effective_wheel_params, is_close, symbol_of,
}
use wheelbot.Common.{
  if◌then◌else◌, Bool, Option, arith, false, leb, none, not, some, true, ◌&&◌, ◌/◌, ◌==◌, ◌||◌, ◌≡◌,
  Bool-cases, Option-cases, inl, inr, refl, ◌*◌, ◌+◌, ◌≤◌, ap, ◌∙◌,
}
use wheelbot.Router.Defs.{
  Decision, Moment, OrderRouter, Outcome, RouteResult, World, block, caution, errored, routed,
  proceed,
}
use wheelbot.Models.{Order}
use wheelbot.Broker.{Broker}
use wheelbot.Router.{route, submit}
use wheelbot.RiskGate.Passed.{IsAffordable, evaluate-IsAffordable}

-- The conditions under which a proposal comes to the search for its duplicate: an entry in its window, the gate passes it,
-- the news check neither blocks it nor leaves a half of nothing, and it is no dry run.
abbrev pub sizable : OrderRouter → AnyProposal → Option Decision → Bool
sizable r p (some block) = false
sizable r p (some caution) = r.cfg.news_check_advisory || leb 2 (quantity_of p)
sizable r p d = true

abbrev pub is_passed : Option Rule → Bool
is_passed none = true
is_passed (some rule) = false

-- The proposal at the size at which it is submitted.
abbrev pub sized : OrderRouter → Option Decision → AnyProposal → AnyProposal
sized r (some caution) p = if r.cfg.news_check_advisory then p else halved p
sized r d p = p

-- The order that a call has placed.
abbrev pub placed_of : Outcome → Option Order
placed_of (routed result) = result.placed
placed_of (errored e) = none

after_news-admitted :
    (r : OrderRouter) (p : AnyProposal) (d : Option Decision)
    → sizable r p d ≡ true
    → r.cfg.dry_run ≡ false
    → after_news r p d ≡ admitted (sized r d p) d
after_news-admitted r p none h e = simp e
after_news-admitted r p (some proceed) h e = simp e
after_news-admitted r p (some block) h e = ground arith
after_news-admitted r p (some caution) h e = elim (Bool-cases r.cfg.news_check_advisory) [
  | inl a ↦ simp (e, a)
  | inr a ↦ let whole : (quantity_of p / 2 == 0) ≡ false = ground arith in simp (e, a, whole)
]

abbrev IsStop : Admission → Type 0
IsStop a = (result : RouteResult) × (a ≡ stopped result) × (result.placed ≡ none)

unless_dry-IsStop :
    (r : OrderRouter) (p : AnyProposal) (d : Option Decision)
    → r.cfg.dry_run ≡ true
    → IsStop (unless_dry r p d)
unless_dry-IsStop r p d e = (dry_result p d, simp e, refl)

after_news-stopped :
    (r : OrderRouter) (p : AnyProposal) (d : Option Decision)
    → (sizable r p d && not r.cfg.dry_run) ≡ false
    → IsStop (after_news r p d)
after_news-stopped r p none h = unless_dry-IsStop r p none (ground arith)
after_news-stopped r p (some proceed) h = unless_dry-IsStop r p (some proceed) (ground arith)
after_news-stopped r p (some block) h = (_, refl, refl)
after_news-stopped r p (some caution) h = elim (Bool-cases r.cfg.news_check_advisory) [
  | inl a ↦ rw a (unless_dry-IsStop r p (some caution) (ground arith))
  | inr a ↦ elim (Bool-cases (quantity_of p / 2 == 0)) [
    | inl z ↦ rw (a, z) (_, refl, refl)
    | inr z ↦ rw (a, z) (unless_dry-IsStop r (halved p) (some caution) (ground arith))
  ]
]

-- The conditions, one by one.
all_hold :
    (windowed within : Bool) (verdict : Option Rule) (size dry : Bool)
    → ((not windowed || within) && is_passed verdict && size && not dry) ≡ true
    → ((windowed && not within) ≡ false) × (verdict ≡ none) × (size ≡ true) × (dry ≡ false)
all_hold windowed within verdict size dry h = ground arith

pub conditions_hold :
    (windowed within : Bool) (verdict : Option Rule) (size dry : Bool)
    → windowed ≡ false
    → verdict ≡ none
    → size ≡ true
    → dry ≡ false
    → ((not windowed || within) && is_passed verdict && size && not dry) ≡ true
conditions_hold windowed within verdict size dry a b c d = ground arith

others_fail :
    (windowed within : Bool) (verdict : Option Rule) (size dry : Bool)
    → ((not windowed || within) && is_passed verdict && size && not dry) ≡ false
    → (windowed && not within) ≡ false
    → verdict ≡ none
    → (size && not dry) ≡ false
others_fail windowed within verdict size dry h e q = ground arith

quantity-halved : (p : AnyProposal) → quantity_of (halved p) ≡ quantity_of p / 2
quantity-halved (single p) = refl
quantity-halved (multi q) = refl

-- A caution that is enforced leaves a half.
enforced :
    (r : OrderRouter) (p : AnyProposal) (d : Option Decision)
    → sizable r p d ≡ true
    → d ≡ some caution
    → r.cfg.news_check_advisory ≡ false
    → 2 ≤ quantity_of p
enforced r p (some caution) h q a = ground arith
enforced r p (some block) h q a = ground arith
enforced r p (some proceed) h q a = ground arith
enforced r p none h q a = ground arith

module _ {S : Type 0} where
  abbrev pub may_submit : OrderRouter → Moment → AnyProposal → World S → Bool
  may_submit r t p w =
      (not (is_windowed p) || in_window r t)
      && is_passed (gate_verdict r t p w).1
      && sizable r p (news_check t p)
      && not r.cfg.dry_run

  admission-admitted :
      (r : OrderRouter) (t : Moment) (p : AnyProposal) (w : World S)
      → may_submit r t p w ≡ true
      → (admission r t p w).1 ≡ admitted (sized r (news_check t p) p) (news_check t p)
  unfolding admission
  admission-admitted r t p w h =
      let (opened, passed, size, wet) =
        all_hold (is_windowed p) (in_window r t) (gate_verdict r t p w).1
          (sizable r p (news_check t p)) r.cfg.dry_run h in
      rw (opened, passed) (after_news-admitted r p (news_check t p) size wet)

  admission-stopped :
      (r : OrderRouter) (t : Moment) (p : AnyProposal) (w : World S)
      → may_submit r t p w ≡ false
      → IsStop (admission r t p w).1
  unfolding admission
  admission-stopped r t p w h = elim (Bool-cases (is_windowed p && not (in_window r t))) [
    | inl e ↦ rw e (_, refl, refl)
    | inr e ↦ elim (Option-cases (gate_verdict r t p w).1) [
      | inr (rule, q) ↦ rw (e, q) (_, refl, refl)
      | inl q ↦
          rw (e, q)
            (after_news-stopped r p (news_check t p) (
              others_fail (is_windowed p) (in_window r t) (gate_verdict r t p w).1
                (sizable r p (news_check t p)) r.cfg.dry_run h e q))
    ]
  ]

  abbrev pub after_checks : OrderRouter → Moment → AnyProposal → World S → World S
  after_checks r t p w = record w { alarms = (admission r t p w).0 }

  by_stop :
      (r : OrderRouter) (broker : Broker S) (t : Moment) (p : AnyProposal) (w : World S)
      → IsStop (admission r t p w).1
      → ((route r broker t p w).0 ≡ after_checks r t p w)
        × (placed_of (route r broker t p w).1 ≡ none)
  unfolding route
  by_stop r broker t p w (result, e, nothing) = rw e (refl, nothing)

  -- A proposal that fails one of the conditions: no order is placed, and neither the broker nor the
  -- tables of orders and positions change. Only the calendar's alarms may have been raised.
  pub route_held :
      (r : OrderRouter) (broker : Broker S) (t : Moment) (p : AnyProposal) (w : World S)
      → may_submit r t p w ≡ false
      → ((route r broker t p w).0 ≡ after_checks r t p w)
        × (placed_of (route r broker t p w).1 ≡ none)
  route_held r broker t p w h = by_stop r broker t p w (admission-stopped r t p w h)

  -- A proposal that meets them all is submitted, at its size.
  pub route-submit :
      (r : OrderRouter) (broker : Broker S) (t : Moment) (p : AnyProposal) (w : World S)
      → may_submit r t p w ≡ true
      → route r broker t p w
        ≡ submit r broker t (sized r (news_check t p) p) (news_check t p) (after_checks r t p w)
  unfolding route
  route-submit r broker t p w h = rw (admission-admitted r t p w h) refl

  -- On the news check's caution, unless it is only advisory, the order is submitted at half its
  -- size, rounded down and at least one, and nothing else of the proposal is changed.
  pub route-halved :
      (r : OrderRouter) (broker : Broker S) (t : Moment) (p : AnyProposal) (w : World S)
      → may_submit r t p w ≡ true
      → news_check t p ≡ some caution
      → r.cfg.news_check_advisory ≡ false
      → (route r broker t p w ≡ submit r broker t (halved p) (some caution) (after_checks r t p w))
        × (1 ≤ quantity_of (halved p))
        × (2 * quantity_of (halved p) ≤ quantity_of p)
        × (quantity_of p ≤ 2 * quantity_of (halved p) + 1)
  route-halved r broker t p w h q a =
      let (_, _, size, _) =
        all_hold (is_windowed p) (in_window r t) (gate_verdict r t p w).1
          (sizable r p (news_check t p)) r.cfg.dry_run h in
      let enough : 2 ≤ quantity_of p = enforced r p (news_check t p) size q a in
      let half = quantity-halved p in
      let to_caution = ap (λ d. submit r broker t (sized r d p) d (after_checks r t p w)) q in
      let to_half =
        ap
          (λ b. submit r broker t (if b then p else halved p) (some caution) (after_checks r t p w))
          a in
      (
        route-submit r broker t p w h ∙ to_caution ∙ to_half,
        omega (arith, half, enough),
        omega (arith, half),
        omega (arith, half),
      )

  -- An order that opens and is placed leaves the buying power at its floor or above, and the
  -- capital at risk of the proposal within the cap for one position.
  route-IsAffordable :
      (r : OrderRouter) (broker : Broker S) (t : Moment) (p : AnyProposal) (w : World S) (o : Order)
      → is_close p ≡ false
      → placed_of (route r broker t p w).1 ≡ some o
      → IsAffordable p t.market.account (effective_wheel_params (symbol_of p) r.gate)
  route-IsAffordable r broker t p w o opens h = elim (Bool-cases (may_submit r t p w)) [
    | inr n ↦ let (_, nothing) = route_held r broker t p w n in ground arith
    | inl y ↦
        let (_, passed, _, _) =
          all_hold (is_windowed p) (in_window r t) (gate_verdict r t p w).1
            (sizable r p (news_check t p)) r.cfg.dry_run y in
        evaluate-IsAffordable p r.gate (market_of t.market w) t.now w.alarms opens passed
  ]
