-- ===== src/Router/Admit.antt =====
-- execution/router.py: the checks before an order is submitted: the entry window, the risk gate, the
-- news check and the dry run.
-- What stands before a submission: a result that ends the call, or the proposal that is submitted,
-- with the decision of the news check.
use wheelbot.Common.{
  if◌then◌else◌, Bool, List, Option, String, [], none, not, some, true, ℕ, ◌&&◌, ◌++◌, ◌/◌, ◌==◌,
  ◌∷◌,
}
use wheelbot.Macro.{Alarms}
use wheelbot.RiskGate.Defs.{AnyProposal, Market, OrderRow, Rule, is_sell_to_open, multi, single}
use wheelbot.Router.Defs.{
  Decision, Moment, OrderRouter, RouteResult, World, block, caution, is_open_type, nothing_placed,
}
use wheelbot.Models.{Order, Proposal, is_put}
use wheelbot.KillSwitch.{check}
use wheelbot.Router.Submit.{is_multi_open}
use wheelbot.MarketHours.{within_entry_window}
use wheelbot.RiskGate.{evaluate}

pub data Admission : Type 0 where
  stopped : RouteResult → Admission
  admitted : AnyProposal → Option Decision → Admission

-- The proposals that the entry window holds back.
abbrev pub is_windowed : AnyProposal → Bool
is_windowed (single p) = is_open_type p.order_type
is_windowed (multi q) = is_multi_open q.order_type

abbrev pub in_window : OrderRouter → Moment → Bool
in_window r t = within_entry_window t.weekday t.time r.cfg.entry_cutoff_minutes_before_close

-- The news check of a proposal: of a wheel's put without a profile, of another with its own.
abbrev pub asked : Option (Option String → Option Decision) → Option String → Bool → Option Decision
asked none profile may = none
asked (some check) none may = none
asked (some check) (some profile) may = if may then check (some profile) else none

abbrev pub for_symbol : Moment → String → Option (Option String → Option Decision)
for_symbol t symbol = elim t.news_checker [ none ↦ none | some check ↦ some (check symbol) ]

abbrev is_wheel_csp : Proposal → Bool
is_wheel_csp p = is_sell_to_open p.order_type && is_put p.contract.option_type

unfoldable pub news_check : Moment → AnyProposal → Option Decision
news_check t (single p) =
    if is_wheel_csp p
    then elim t.news_checker [ none ↦ none | some check ↦ check p.symbol none ]
    else asked (for_symbol t p.symbol) p.news_check_profile (is_open_type p.order_type)
news_check t (multi q) =
    asked (for_symbol t q.symbol) q.news_check_profile (is_multi_open q.order_type)

abbrev pub quantity_of : AnyProposal → ℕ
quantity_of (single p) = p.quantity
quantity_of (multi q) = q.quantity

-- `replace(proposal, quantity=halved)`
abbrev pub halved : AnyProposal → AnyProposal
halved (single p) = single (record p { quantity = p.quantity / 2 })
halved (multi q) = multi (record q { quantity = q.quantity / 2 })

-- `effective_qty if news_decision == "caution" else None`; for a package nothing.
abbrev pub adjusted : AnyProposal → Option Decision → Option ℕ
adjusted (single p) (some caution) = some p.quantity
adjusted _ _ = none

-- A package that is skipped or dry-run does not name the decision.
abbrev pub named : AnyProposal → Option Decision → Option Decision
named (single p) d = d
named (multi q) d = none

abbrev pub dry_result : AnyProposal → Option Decision → RouteResult
dry_result p d = record (nothing_placed p) {
  dry_run = true;
  news_decision = named p d;
  quantity_adjusted = adjusted p d;
}

abbrev pub unless_dry : OrderRouter → AnyProposal → Option Decision → Admission
unless_dry r p d = if r.cfg.dry_run then stopped (dry_result p d) else admitted p d

-- After the news check.
abbrev pub after_news : OrderRouter → AnyProposal → Option Decision → Admission
after_news r p (some block) = stopped (record (nothing_placed p) { news_decision = some block })
after_news r p (some caution) =
    if r.cfg.news_check_advisory
    then unless_dry r p (some caution)
    else if quantity_of p / 2 == 0
    then stopped (record (nothing_placed p) { news_decision = some caution })
    else unless_dry r (halved p) (some caution)
after_news r p d = unless_dry r p d

-- The gate reads the tables of the world.
abbrev row_of : Order → List OrderRow
row_of o = elim o.cycle_id [
  | none ↦ []
  | some cycle ↦ elim o.option_type [
    | none ↦ []
    | some type ↦
        record {
          cycle_id = cycle;
          order_type = o.order_type;
          option_type = type;
          status = o.status;
          placed_at = o.placed_at;
          strike = o.strike;
          fill_price = o.fill_price;
        }
        ∷ []
  ]
]

unfoldable pub order_rows : List Order → List OrderRow
order_rows [] = []
order_rows (o ∷ os) = row_of o ++ order_rows os

module _ {S : Type 0} where
  abbrev pub market_of : Market → World S → Market
  market_of m w = record m { positions = w.positions; orders = order_rows w.orders }

  abbrev pub gate_verdict : OrderRouter → Moment → AnyProposal → World S → Alarms × Option Rule
  gate_verdict r t p w = evaluate p r.gate (market_of t.market w) t.now w.alarms

  -- Every check before the submission. The gate may raise the calendar's alarms.
  unfoldable pub admission : OrderRouter → Moment → AnyProposal → World S → Alarms × Admission
  admission r t p w =
      if is_windowed p && not (in_window r t)
      then (w.alarms, stopped (record (nothing_placed p) { skipped_outside_entry_window = true }))
      else (
        (gate_verdict r t p w).0,
        elim (gate_verdict r t p w).1 [
          | some rule ↦ stopped (record (nothing_placed p) { risk_failure_rule = some rule })
          | none ↦ after_news r p (news_check t p)
        ],
      )
