-- ===== src/Spreads/Selectors.antt =====
-- strategies/spread_selector.py and strategies/call_spread_selector.py: the pair of contracts for a
-- credit spread. The two files differ in the side of the strikes, which is an argument here.
use wheelbot.Common.{
  if◌then◌else◌, Bool, List, Option, [], false, get_or, is_none, none, not, select, some, true, ℕ,
  ◌&&◌, ◌*◌, ◌==◌, ◌||◌, ◌∷◌,
}
use wheelbot.Chain.{ChainFilters, Source, annualized_yield, fetch_filtered_chain}
use wheelbot.Models.{Day, Direction, OptionContract, OptionType, call, is_put, put}
use wheelbot.Common.Ratio.{Ratio, ltb_ratio, whole}
use wheelbot.Common.Int.{leb_ℤ, ltb_ℤ, pos, ℤ, ◌*ℤ◌, ◌+ℤ◌, ◌-ℤ◌}
use wheelbot.Store.Lookup.{find}
use wheelbot.Spreads.{width}

-- The parameters of the strategy that the selectors and the sizing read; a delta in ten-thousandths.
pub record SpreadParams : Type 0 where
  pub dte_min : Option ℕ
  pub dte_max : Option ℕ
  pub short_delta_min : Option ℤ
  pub csp_delta_min : Option ℤ
  pub short_delta_max : Option ℤ
  pub csp_delta_max : Option ℤ
  pub open_interest_min : Option ℕ
  pub volume_min : Option ℕ
  pub bid_ask_spread_max_pct : Option Ratio
  pub spread_width_dollars : Option ℤ
  pub min_credit_pct_of_width : Option Ratio
  pub max_capital_per_spread_usd : Option ℤ
  pub direction : Option Direction

-- The net credit is in half cents, the other amounts are in cents.
pub record SpreadCandidate : Type 0 where
  pub short : OptionContract
  pub long : OptionContract
  pub net_credit_per_spread : ℤ
  pub max_loss_per_spread : ℤ
  pub width_dollars : ℤ
  pub short_yield : Ratio

-- `_mid`, twice.
abbrev pub twice_mid : OptionContract → Option ℤ
twice_mid c = elim c.bid [
  | none ↦ none
  | some b ↦ elim c.ask [
    | none ↦ none
    | some a ↦ if ltb_ℤ (pos 0) (b +ℤ a) then some (b +ℤ a) else none
  ]
]

-- The strike `a` is further out of the money than `b`.
abbrev pub beyond : (side : OptionType) → (a b : ℤ) → Bool
beyond put a b = ltb_ℤ a b
beyond call a b = ltb_ℤ b a

abbrev pub same_side : (side t : OptionType) → Bool
same_side put put = true
same_side call call = true
same_side _ _ = false

abbrev pub target_strike : (side : OptionType) → (strike wing_width : ℤ) → ℤ
target_strike put strike wing_width = strike -ℤ wing_width
target_strike call strike wing_width = strike +ℤ wing_width

-- The contracts that can be the long leg.
abbrev pub can_cover : (side : OptionType) → (short : OptionContract) → OptionContract → Bool
can_cover side short c =
    beyond side c.strike short.strike
    && (c.expiration == short.expiration)
    && same_side side c.option_type
    && not (is_none c.bid)
    && not (is_none c.ask)

-- The first of the contracts sorted outwards: on a tie the earlier one.
abbrev pub nearest : (side : OptionType) → List OptionContract → Option OptionContract
nearest side [] = none
nearest side (c ∷ cs) = elim (nearest side cs) [
  | none ↦ some c
  | some d ↦ some (if beyond side c.strike d.strike then d else c)
]

-- The last of the contracts sorted outwards: on a tie the later one.
abbrev pub furthest : (side : OptionType) → List OptionContract → Option OptionContract
furthest side [] = none
furthest side (c ∷ cs) = elim (furthest side cs) [
  | none ↦ some c
  | some d ↦ some (if beyond side c.strike d.strike then c else d)
]

abbrev pub or_else : Option OptionContract → Option OptionContract → Option OptionContract
or_else none o = o
or_else (some c) o = some c

-- `_find_long_leg`
unfoldable pub find_long_leg :
    (side : OptionType)
    → (chain : List OptionContract) → (short : OptionContract) → (wing_width : ℤ)
    → Option OptionContract
find_long_leg side chain short wing_width =
    let covers = select (can_cover side short) chain in
    let target = target_strike side short.strike wing_width in
    or_else (nearest side (select (λ c. not (beyond side target c.strike)) covers))
      (furthest side covers)

abbrev filters_of : (side : OptionType) → SpreadParams → ChainFilters
filters_of side p = record {
  dte_min = get_or p.dte_min 30;
  dte_max = get_or p.dte_max 45;
  delta_min =
      get_or p.short_delta_min
        (if is_put side then get_or p.csp_delta_min (pos 2000) else pos 2000);
  delta_max =
      get_or p.short_delta_max
        (if is_put side then get_or p.csp_delta_max (pos 3000) else pos 3000);
  open_interest_min = get_or p.open_interest_min 0;
  volume_min = get_or p.volume_min 0;
  bid_ask_spread_max_pct = get_or p.bid_ask_spread_max_pct (whole (pos 100));
}

abbrev wide_filters : ChainFilters → ChainFilters
wide_filters f = record {
  dte_min = f.dte_min;
  dte_max = f.dte_max;
  delta_min = pos 0;
  delta_max = pos 10000;
  open_interest_min = 0;
  volume_min = 0;
  bid_ask_spread_max_pct = whole (pos 100);
}

-- `scored.sort(key=..., reverse=True)`: the sort is stable.
abbrev insert :
    Ratio × OptionContract → List (Ratio × OptionContract) → List (Ratio × OptionContract)
insert (y, c) [] = (y, c) ∷ []
insert (y, c) ((z, d) ∷ rest) =
    let deeper = insert (y, c) rest in
    if ltb_ratio y z then (z, d) ∷ deeper else (y, c) ∷ (z, d) ∷ rest

abbrev ranked : (today : Day) → List OptionContract → List (Ratio × OptionContract)
ranked today [] = []
ranked today (c ∷ cs) =
    let rest = ranked today cs in
    elim (annualized_yield today c) [ none ↦ rest | some y ↦ insert (y, c) rest ]

abbrev pub width_of : (side : OptionType) → (short long : OptionContract) → ℤ
width_of put short long = short.strike -ℤ long.strike
width_of call short long = long.strike -ℤ short.strike

-- `(net_credit / actual_width) * 100 < min_credit_pct`, multiplied out.
abbrev pub low_credit : (min_credit_pct : Ratio) → (net_credit width : ℤ) → Bool
low_credit pct net_credit width = ltb_ℤ (net_credit *ℤ pos (50 * pct.den)) (pct.num *ℤ width)

-- A pair with its credit.
abbrev pub paired :
    (side : OptionType)
    → (min_credit_pct : Ratio) → (y : Ratio) → (short long : OptionContract) → (net_credit : ℤ)
    → Option SpreadCandidate
paired side pct y short long net_credit =
    let width = width_of side short long in
    if leb_ℤ net_credit (pos 0) || leb_ℤ width (pos 0) || low_credit pct net_credit width
    then none
    else some (record {
      short = short;
      long = long;
      net_credit_per_spread = net_credit;
      max_loss_per_spread = ((width +ℤ width) -ℤ net_credit) *ℤ pos 50;
      width_dollars = width;
      short_yield = y;
    })

-- At twice the mids of the two, where both have one.
abbrev pub at_mids :
    (side : OptionType)
    → (min_credit_pct : Ratio) → (y : Ratio) → (short long : OptionContract) → Option ℤ
    → Option ℤ
    → Option SpreadCandidate
at_mids side pct y short long none l = none
at_mids side pct y short long (some s) none = none
at_mids side pct y short long (some s) (some l) = paired side pct y short long (s -ℤ l)

abbrev pub with_long :
    (side : OptionType)
    → (min_credit_pct : Ratio) → (y : Ratio) → (short : OptionContract) → Option OptionContract
    → Option SpreadCandidate
with_long side pct y short none = none
with_long side pct y short (some long) =
    at_mids side pct y short long (twice_mid short) (twice_mid long)

abbrev pub or_next : Option SpreadCandidate → Option SpreadCandidate → Option SpreadCandidate
or_next none next = next
or_next (some c) next = some c

-- The loop over the ranked short legs.
abbrev pub first_pair :
    (side : OptionType)
    → (find : OptionContract → Option OptionContract) → (min_credit_pct : Ratio)
    → List (Ratio × OptionContract)
    → Option SpreadCandidate
first_pair side find pct [] = none
first_pair side find pct ((y, short) ∷ rest) =
    or_next (with_long side pct y short (find short)) (first_pair side find pct rest)

-- `short_chain` and `full_chain` answer the two calls that fetch the chain.
unfoldable pub select_spread :
    (side : OptionType)
    → (short_chain full_chain : Source) → SpreadParams
    → (rank : Option Ratio) → (rank_min : Ratio) → (today : Day) → Option SpreadCandidate
select_spread side short_chain full_chain p rank rank_min today =
    let filters = filters_of side p in
    let full = fetch_filtered_chain full_chain (wide_filters filters) today in
    let width = get_or p.spread_width_dollars (pos 100) in
    let best =
      first_pair side (λ short. find_long_leg side full short width)
        (get_or p.min_credit_pct_of_width (whole (pos 25)))
        (ranked today (fetch_filtered_chain short_chain filters today)) in
    elim rank [ none ↦ best | some r ↦ if ltb_ratio r rank_min then none else best ]
