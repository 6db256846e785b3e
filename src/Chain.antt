-- ===== src/Chain.antt =====
-- data/chain.py: the contracts of an option chain that pass the filters, and their yield. The
-- broker's chain, its quotes and the computation of a missing delta are arguments.
pub mod Selectors
pub mod Selected
mod Tests
use wheelbot.Models.{OptionContract, Day}
use wheelbot.Common.{
  if◌then◌else◌, Bool, List, Option, false, get_or, leb, map, none, not, select, some, ℕ, ◌&&◌, ◌*◌,
  ◌+◌, ◌-◌, ◌||◌, [], length, ◌==◌,
}
use wheelbot.Common.Ratio.{Ratio}
use wheelbot.Common.Int.{leb_ℤ, neg_part, pos, pos_part, ℤ, ◌*ℤ◌, ◌+ℤ◌, ◌-ℤ◌}

pub record ChainFilters : Type 0 where
  pub dte_min : ℕ
  pub dte_max : ℕ
  pub delta_min : ℤ
  pub delta_max : ℤ
  pub open_interest_min : ℕ
  pub volume_min : ℕ
  pub bid_ask_spread_max_pct : Ratio

abbrev pub within_dte : ChainFilters → (today : Day) → OptionContract → Bool
within_dte f today c = leb (today + f.dte_min) c.expiration && leb c.expiration (today + f.dte_max)

-- The spread is at most the maximum: `(ask - bid) / mid * 100`, with twice the mid as the divisor.
-- Without two sides, or with a mid that is not positive, there is no spread and it fails.
unfoldable pub spread_passes : Ratio → OptionContract → Bool
spread_passes spread_max c = elim c.bid [
  | none ↦ false
  | some b ↦ elim c.ask [
    | none ↦ false
    | some a ↦
        not (leb_ℤ a (pos 0))
        && (not (leb_ℤ (b +ℤ a) (pos 0))
            && leb_ℤ ((a -ℤ b) *ℤ pos (200 * spread_max.den)) (spread_max.num *ℤ (b +ℤ a)))
  ]
]

unfoldable pub passes_liquidity : ChainFilters → OptionContract → Bool
passes_liquidity f c =
    leb f.open_interest_min (get_or c.open_interest 0)
    && (leb f.volume_min (get_or c.volume 0) && spread_passes f.bid_ask_spread_max_pct c)

-- `|delta|` in the band; a contract without a delta fails.
unfoldable pub delta_passes : ChainFilters → OptionContract → Bool
delta_passes f c = elim c.delta [
  | none ↦ false
  | some d ↦
      let magnitude = pos (pos_part d + neg_part d) in
      leb_ℤ f.delta_min magnitude && leb_ℤ magnitude f.delta_max
]

-- One contract of `_populate_greeks`: `compute` gives the delta of a contract at a price of the
-- underlying, or none.
abbrev with_greeks :
    (compute : ℤ → OptionContract → Option ℤ) → (spot : ℤ) → OptionContract → OptionContract
with_greeks compute spot c = elim c.delta [
  | some d ↦ record c { underlying_price = some (get_or c.underlying_price spot) }
  | none ↦ elim (compute spot c) [
    | none ↦ c
    | some d ↦ record c { delta = some d; underlying_price = some spot }
  ]
]

unfoldable pub populate_greeks :
    (compute : ℤ → OptionContract → Option ℤ)
    → (spot : Option ℤ) → List OptionContract
    → List OptionContract
populate_greeks compute none cs = cs
populate_greeks compute (some spot) cs = map (with_greeks compute spot) cs

-- What the broker and the greeks answer: its contracts of the side, its quoting of a list, the
-- price of the underlying, and a missing delta.
pub record Source : Type 0 where
  pub raw : List OptionContract
  pub populate_quotes : List OptionContract → List OptionContract
  pub spot : Option ℤ
  pub compute_delta : ℤ → OptionContract → Option ℤ

unfoldable pub fetch_filtered_chain : Source → ChainFilters → (today : Day) → List OptionContract
fetch_filtered_chain s f today =
    let in_window = select (within_dte f today) s.raw in
    if length in_window == 0
    then []
    else select (λ c. delta_passes f c && passes_liquidity f c)
        (populate_greeks s.compute_delta s.spot (s.populate_quotes in_window))

-- `(mid / strike) * (365 / dte)`
unfoldable pub annualized_yield : (today : Day) → OptionContract → Option Ratio
annualized_yield today c = elim c.bid [
  | none ↦ none
  | some b ↦ elim c.ask [
    | none ↦ none
    | some a ↦
        if leb_ℤ (b +ℤ a) (pos 0) || (leb_ℤ c.strike (pos 0) || leb c.expiration today)
        then none
        else some (record {
          num = (b +ℤ a) *ℤ pos 365;
          den = 2 * pos_part c.strike * (c.expiration - today);
        })
  ]
]
