-- ===== src/Spreads/Opens.antt =====
-- strategies/spreads.py, the opening side: the legs, the sizing and propose_for_symbol.
use wheelbot.Common.{
  if◌then◌else◌, Bool, List, Option, String, [], false, get_or, none, some, true, ℕ, ◌*◌, ◌/◌, ◌==◌,
  ◌||◌, ◌∷◌,
}
use wheelbot.Models.{
  Day, Direction, MultiLegProposal, OptionContract, OptionType, OrderLeg, OrderType, Position,
  Symbol, bear_call, bull_put, buy_to_open, call, idle, multi_leg_open, sell_to_open, spread_closed,
  put,
}
use wheelbot.Common.Ratio.{Ratio}
use wheelbot.Chain.{Source}
use wheelbot.Spreads.Selectors.{SpreadCandidate, SpreadParams, select_spread}
use wheelbot.Store.Positions.{get_by_symbol}
use wheelbot.Common.Int.{leb_ℤ, pos, pos_part, ℤ, ◌*ℤ◌}

-- `_build_legs`
abbrev open_leg : OptionContract → OrderType → OrderLeg
open_leg c action = record {
  contract_symbol = c.occ_symbol;
  underlying = c.underlying;
  option_type = c.option_type;
  strike = c.strike;
  expiration = c.expiration;
  action = action;
  ratio_qty = 1;
}

abbrev pub build_legs : SpreadCandidate → List OrderLeg
build_legs c = open_leg c.short sell_to_open ∷ open_leg c.long buy_to_open ∷ []

-- `_sizing_quantity`: the quotient is rounded down, and 0 stands for a negative one too, as both
-- are skipped.
unfoldable pub sizing_quantity : (cap : Option ℤ) → (size_multiplier : Ratio) → (max_loss : ℤ) → ℕ
sizing_quantity cap m max_loss =
    let c = get_or cap (pos 0) in
    if leb_ℤ c (pos 0) || leb_ℤ max_loss (pos 0)
    then 1
    else pos_part (c *ℤ m.num) / (pos_part max_loss * m.den)

-- What the opening reads: the account, the strategy, the table of positions and the chains.
pub record Scene : Type 0 where
  pub account_id : String
  pub strategy_id : String
  pub params : SpreadParams
  pub today : Day
  pub positions : List Position
  pub short_chain : OptionType → Source
  pub full_chain : OptionType → Source
  pub rank : Option Ratio
  pub rank_min : Ratio

abbrev pub is_flat : Option Position → Bool
is_flat none = true
is_flat (some position) = elim position.state [ idle ↦ true | spread_closed ↦ true | _ ↦ false ]

abbrev profile_of : Direction → Option String
profile_of bull_put = some "bullish_csp"
profile_of _ = none

abbrev pub opening :
    Scene → Symbol → Direction → (size_multiplier : Ratio) → SpreadCandidate → MultiLegProposal
opening s symbol direction m c = record {
  symbol = symbol;
  legs = build_legs c;
  net_credit_per_spread = c.net_credit_per_spread;
  max_loss_per_spread = c.max_loss_per_spread;
  width_dollars = c.width_dollars;
  quantity = sizing_quantity s.params.max_capital_per_spread_usd m c.max_loss_per_spread;
  strategy_id = s.strategy_id;
  order_type = multi_leg_open;
  direction = direction;
  news_check_profile = profile_of direction;
}

-- A spread that exceeds the cap is skipped.
abbrev pub sized : MultiLegProposal → Option MultiLegProposal
sized q = if q.quantity == 0 then none else some q

abbrev pub opened :
    Scene
    → Symbol
    → Direction
    → (size_multiplier : Ratio) → Option SpreadCandidate
    → Option MultiLegProposal
opened s symbol direction m none = none
opened s symbol direction m (some c) = sized (opening s symbol direction m c)

abbrev pub select_side : Scene → OptionType → Option SpreadCandidate
select_side s side =
    select_spread side (s.short_chain side) (s.full_chain side) s.params s.rank s.rank_min s.today

-- The other directions are not this function's.
abbrev pub in_direction :
    Scene → Symbol → (size_multiplier : Ratio) → Direction → Option MultiLegProposal
in_direction s symbol m bear_call = opened s symbol bear_call m (select_side s call)
in_direction s symbol m bull_put = opened s symbol bull_put m (select_side s put)
in_direction s symbol m _ = none

unfoldable pub propose_for_symbol :
    Scene → Symbol → (size_multiplier : Ratio) → Option MultiLegProposal
propose_for_symbol s symbol m =
    if is_flat (get_by_symbol s.account_id symbol s.strategy_id s.positions)
    then in_direction s symbol m (get_or s.params.direction bull_put)
    else none
