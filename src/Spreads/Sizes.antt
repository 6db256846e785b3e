-- ===== src/Spreads/Sizes.antt =====
-- strategies/spreads.py, propose_for_symbol: the capital that an opening spread puts at risk.
use native.Mathlib.Nat.{div-mul-le_self}
use wheelbot.Common.{
  Bool-cases, Option, ap, arith, false, get_or, inl, inr, none, refl, some, sym, true, ◌*◌, ◌==◌,
  ◌∙◌, ◌≡◌, ◌≤◌,
}
use wheelbot.Models.{
  Direction, MultiLegProposal, OptionType, Symbol, bear_call, bull_put, call, put, iron_condor,
  calendar,
}
use wheelbot.Common.Ratio.{Ratio}
use wheelbot.Spreads.Opens.{
  Scene, in_direction, is_flat, opened, opening, propose_for_symbol, select_side, sized,
  sizing_quantity,
}
use wheelbot.Spreads.Selectors.{SpreadCandidate}
use wheelbot.Store.Positions.{get_by_symbol}
use wheelbot.Spreads.Closes.{if_some, none_some, some_inj}
use wheelbot.Common.Int.{leb_ℤ, pos, pos_part, ℤ, ◌*ℤ◌, ◌<ℤ◌}

-- A spread is opened on a candidate of one of the two sides.
abbrev pub IsOpening : Scene → Symbol → (size_multiplier : Ratio) → MultiLegProposal → Type 0
IsOpening s symbol m q =
    (side : OptionType) × (direction : Direction) × (c : SpreadCandidate) × (select_side s side
      ≡ some c)
    × (q ≡ opening s symbol direction m c)
    × ((q.quantity == 0) ≡ false)

sized-some : (a q : MultiLegProposal) → sized a ≡ some q → (q ≡ a) × ((q.quantity == 0) ≡ false)
sized-some a q e = elim (Bool-cases (a.quantity == 0)) [
  | inl z ↦ none_some q (sym (rw z refl) ∙ e)
  | inr z ↦
      let is : a ≡ q = some_inj (sym (rw z refl) ∙ e) in
      (sym is, ap (λ x. x.quantity == 0) (sym is) ∙ z)
]

opened-some :
    (s : Scene) (symbol : Symbol) (m : Ratio) (direction : Direction) (side : OptionType)
    (x : Option SpreadCandidate) (q : MultiLegProposal)
    → select_side s side ≡ x
    → opened s symbol direction m x ≡ some q
    → IsOpening s symbol m q
opened-some s symbol m direction side none q from e = none_some q e
opened-some s symbol m direction side (some c) q from e =
    let (is, some_left) = sized-some (opening s symbol direction m c) q e in
    (side, direction, c, from, is, some_left)

in_direction-some :
    (s : Scene) (symbol : Symbol) (m : Ratio) (direction : Direction) (q : MultiLegProposal)
    → in_direction s symbol m direction ≡ some q
    → IsOpening s symbol m q
in_direction-some s symbol m bull_put q e = opened-some s symbol m bull_put put _ q refl e
in_direction-some s symbol m bear_call q e = opened-some s symbol m bear_call call _ q refl e
in_direction-some s symbol m iron_condor q e = none_some q e
in_direction-some s symbol m calendar q e = none_some q e

pub propose_for_symbol-IsOpening :
    (s : Scene) (symbol : Symbol) (m : Ratio) (q : MultiLegProposal)
    → propose_for_symbol s symbol m ≡ some q
    → (is_flat (get_by_symbol s.account_id symbol s.strategy_id s.positions) ≡ true)
      × IsOpening s symbol m q
unfolding propose_for_symbol
propose_for_symbol-IsOpening s symbol m q e =
    let (flat, rest) =
      if_some (is_flat (get_by_symbol s.account_id symbol s.strategy_id s.positions)) _ q e in
    (flat, in_direction-some s symbol m (get_or s.params.direction bull_put) q rest)

sizing_quantity-le :
    (cap : ℤ) (m : Ratio) (max_loss : ℤ)
    → pos 0 <ℤ cap
    → sizing_quantity (some cap) m max_loss * (pos_part max_loss * m.den) ≤ pos_part (cap *ℤ m.num)
unfolding sizing_quantity
sizing_quantity-le cap m max_loss positive =
    let c : leb_ℤ cap (pos 0) ≡ false = ground arith in
    elim (Bool-cases (leb_ℤ max_loss (pos 0))) [
      | inl e ↦ let z : pos_part max_loss ≡ 0 = ground arith in rw (c, e, z) (omega arith)
      | inr e ↦ rw (c, e) (div-mul-le_self _ _)
    ]

-- An opening spread stays within the strategy's capital for one spread, scaled by the size
-- multiplier of the drawdown breaker: where the cap is configured and positive, the number of
-- packages times the greatest loss of one is at most the cap times the multiplier, whose numerator
-- and denominator are written out. Both amounts are in cents.
pub propose_for_symbol-within_cap :
    (s : Scene) (symbol : Symbol) (m : Ratio) (q : MultiLegProposal) (cap : ℤ)
    → propose_for_symbol s symbol m ≡ some q
    → s.params.max_capital_per_spread_usd ≡ some cap
    → pos 0 <ℤ cap
    → q.quantity * (pos_part q.max_loss_per_spread * m.den) ≤ pos_part (cap *ℤ m.num)
propose_for_symbol-within_cap s symbol m q cap e configured positive =
    let (_, (_, _, c, _, is, _)) = propose_for_symbol-IsOpening s symbol m q e in
    rw (is, configured) (sizing_quantity-le cap m c.max_loss_per_spread positive)
