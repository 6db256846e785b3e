-- ===== src/Chain/Tests.antt =====
-- Runs of the selectors on a chain of three contracts.
use wheelbot.Models.{OptionContract, call}
use wheelbot.Chain.Selectors.{SelectorParams, best_scored, select_cc, select_csp}
use wheelbot.Chain.{
  Source, annualized_yield, delta_passes, fetch_filtered_chain, passes_liquidity, populate_greeks,
  spread_passes,
}
use wheelbot.Common.{String, [], none, refl, some, ℕ, ◌∷◌, ◌≡◌}
use wheelbot.Common.Ratio.{whole}
use wheelbot.Common.Int.{pos, ◌*ℤ◌, ◌+ℤ◌, ◌-ℤ◌}

abbrev contract : String → (strike bid ask delta : ℕ) → OptionContract
contract name strike bid ask delta = record {
  underlying = "F";
  occ_symbol = name;
  strike = pos strike;
  expiration = 135;
  option_type = call;
  bid = some (pos bid);
  ask = some (pos ask);
  mid = none;
  last = none;
  volume = some 10;
  open_interest = some 100;
  delta = some (pos delta);
  underlying_price = none;
}

abbrev low : OptionContract
low = contract "low" 45 20 22 2900

abbrev middle : OptionContract
middle = contract "middle" 50 10 11 2500

abbrev high : OptionContract
high = contract "high" 55 5 6 2100

abbrev source : Source
source = record {
  raw = low ∷ middle ∷ high ∷ [];
  populate_quotes = λ cs. cs;
  spot = none;
  compute_delta = λ spot c. none;
}

abbrev params : SelectorParams
params = record {
  dte_min = none;
  dte_max = none;
  delta_min = none;
  delta_max = none;
  open_interest_min = none;
  volume_min = none;
  bid_ask_spread_max_pct = none;
}

-- The best yield is below the cost basis, so the next one is taken.
selects_middle : select_cc source params (whole (pos 48)) 100 ≡ some middle
unfolding select_cc best_scored annualized_yield fetch_filtered_chain delta_passes passes_liquidity
    spread_passes populate_greeks ◌+ℤ◌ ◌-ℤ◌ ◌*ℤ◌
selects_middle = refl

selects_low : select_csp source params none (whole (pos 20)) 100 ≡ some low
unfolding select_csp best_scored annualized_yield fetch_filtered_chain delta_passes passes_liquidity
    spread_passes populate_greeks ◌+ℤ◌ ◌-ℤ◌ ◌*ℤ◌
selects_low = refl
