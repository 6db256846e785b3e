-- ===== src/Chain/Selectors.antt =====
-- strategies/csp_selector.py and strategies/cc_selector.py: the put, or the covered call, with the
-- highest yield among the contracts that pass.
use wheelbot.Common.{if◌then◌else◌, List, Option, [], get_or, none, select, some, ℕ, ◌∷◌}
use wheelbot.Chain.{ChainFilters, Source, annualized_yield, fetch_filtered_chain}
use wheelbot.Models.{Day, OptionContract}
use wheelbot.Common.Ratio.{Ratio, leb_ratio, ltb_ratio, whole}
use wheelbot.Common.Int.{pos, ℤ}

-- The wheel parameters of the symbol that the selectors read, a delta in ten-thousandths.
pub record SelectorParams : Type 0 where
  pub dte_min : Option ℕ
  pub dte_max : Option ℕ
  pub delta_min : Option ℤ
  pub delta_max : Option ℤ
  pub open_interest_min : Option ℕ
  pub volume_min : Option ℕ
  pub bid_ask_spread_max_pct : Option Ratio

abbrev pub filters_of : SelectorParams → ChainFilters
filters_of p = record {
  dte_min = get_or p.dte_min 30;
  dte_max = get_or p.dte_max 45;
  delta_min = get_or p.delta_min (pos 2000);
  delta_max = get_or p.delta_max (pos 3000);
  open_interest_min = get_or p.open_interest_min 0;
  volume_min = get_or p.volume_min 0;
  bid_ask_spread_max_pct = get_or p.bid_ask_spread_max_pct (whole (pos 100));
}

-- The better of a contract with its yield and the best of the rest: the earlier one on a tie.
abbrev pub prefer :
    Ratio × OptionContract → Option (Ratio × OptionContract) → Ratio × OptionContract
prefer (y, c) none = (y, c)
prefer (y, c) (some (z, d)) = if ltb_ratio y z then (z, d) else (y, c)

-- `scored.sort(key=..., reverse=True)` and its first element; a contract without a yield is not
-- scored.
unfoldable pub best_scored : (today : Day) → List OptionContract → Option (Ratio × OptionContract)
best_scored today [] = none
best_scored today (c ∷ cs) =
    let rest = best_scored today cs in
    elim (annualized_yield today c) [ none ↦ rest | some y ↦ some (prefer (y, c) rest) ]

abbrev pub contract_of : Option (Ratio × OptionContract) → Option OptionContract
contract_of none = none
contract_of (some (y, c)) = some c

-- `rank` is the symbol's rank of implied volatility, if it is known, and `rank_min` its minimum.
unfoldable pub select_csp :
    Source
    → SelectorParams
    → (rank : Option Ratio) → (rank_min : Ratio) → (today : Day) → Option OptionContract
select_csp s p rank rank_min today =
    let best = contract_of (best_scored today (fetch_filtered_chain s (filters_of p) today)) in
    elim rank [ none ↦ best | some r ↦ if ltb_ratio r rank_min then none else best ]

-- The candidates at the cost basis or above.
abbrev pub above_basis : (cost_basis : Ratio) → List OptionContract → List OptionContract
above_basis cost_basis cs = select (λ c. leb_ratio cost_basis (whole c.strike)) cs

unfoldable pub select_cc :
    Source → SelectorParams → (cost_basis : Ratio) → (today : Day) → Option OptionContract
select_cc s p cost_basis today =
    contract_of
      (best_scored today (above_basis cost_basis (fetch_filtered_chain s (filters_of p) today)))
