-- ===== src/Spreads/Wings.antt =====
-- strategies/spreads.py and the selectors: the width at which a close is clamped is the width with
-- which the spread was opened.
use wheelbot.Common.{Option, [], ap, arith, false, map, some, sym, true, ◌∙◌, ◌∷◌, ◌≡◌}
use wheelbot.Models.{Day, OptionType, OrderLeg, call, put}
use wheelbot.Spreads.Pairs.{IsViable, select_spread-IsViable}
use wheelbot.Common.Ratio.{Ratio}
use wheelbot.Chain.{Source}
use wheelbot.Spreads.Selectors.{SpreadCandidate, SpreadParams, select_spread}
use wheelbot.Spreads.Opens.{build_legs}
use wheelbot.Spreads.{close_leg, max_close_debit}
use wheelbot.Common.Int.{ltb_ℤ, ℤ, ◌-ℤ◌, ◌<ℤ◌}

widths_put :
    (a b : OrderLeg)
    → a.option_type ≡ put
    → b.option_type ≡ put
    → ltb_ℤ b.strike a.strike ≡ true
    → max_close_debit (a ∷ b ∷ []) ≡ some (a.strike -ℤ b.strike)
unfolding max_close_debit
widths_put a b h k out =
    let other_way : ltb_ℤ a.strike b.strike ≡ false = ground arith in simp (h, k, out, other_way)

widths_call :
    (a b : OrderLeg)
    → a.option_type ≡ call
    → b.option_type ≡ call
    → ltb_ℤ a.strike b.strike ≡ true
    → max_close_debit (a ∷ b ∷ []) ≡ some (b.strike -ℤ a.strike)
unfolding max_close_debit
widths_call a b h k out =
    let other_way : ltb_ℤ b.strike a.strike ≡ false = ground arith in simp (h, k, out, other_way)

below : (a b : ℤ) → a <ℤ b → ltb_ℤ a b ≡ true
below a b h = ground arith

legs_width :
    (side : OptionType) (pct : Ratio) (c : SpreadCandidate)
    → c.short.option_type ≡ side
    → IsViable side pct c
    → max_close_debit (map close_leg (build_legs c)) ≡ some c.width_dollars
legs_width put pct c own (same, _, (out, w), _, _, _, _, _) =
    widths_put _ _ own same (below c.long.strike c.short.strike out) ∙ ap (λ x. some x) (sym w)
legs_width call pct c own (same, _, (out, w), _, _, _, _, _) =
    widths_call _ _ own same (below c.short.strike c.long.strike out) ∙ ap (λ x. some x) (sym w)

-- The close of a spread is clamped at the width with which it was opened: on the legs of a selected
-- spread, turned into their closes, the greatest debit is the width of the candidate, where the
-- broker's chain of a side has contracts of that side.
pub max_close_debit-build_legs :
    (side : OptionType) (short_chain full_chain : Source) (p : SpreadParams) (rank : Option Ratio)
    (rank_min : Ratio) (today : Day) (c : SpreadCandidate)
    → select_spread side short_chain full_chain p rank rank_min today ≡ some c
    → c.short.option_type ≡ side
    → max_close_debit (map close_leg (build_legs c)) ≡ some c.width_dollars
max_close_debit-build_legs side short_chain full_chain p rank rank_min today c e own =
    legs_width side _ c own
      (select_spread-IsViable side short_chain full_chain p rank rank_min today c e)
